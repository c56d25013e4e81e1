-- ===== src/Registry/Renewal.antt =====
-- What a registration needs, and the row that it leaves.
use open_world_model.Base.{
  ◌≡◌, refl, true, inl, inr, some, Bool-cases, Option-cases, find_where, find_where-update_first,
  find_where-append,
}
use open_world_model.Base.Int.{ℤ}
use open_world_model.Base.Text.{Text, text_eq_refl}
use open_world_model.World.{World, Tier, is_known_tier, Node, pending, Result, ok, err, next}
use open_world_model.Registry.Defs.{
  NodeCapabilities, is_too_old, canonical_register_message, public_key_bytes, has_key, has_id,
  renew,
}
use open_world_model.Registry.Methods.{register, insert_node, new_id, verified, upsert_node}

-- The row of the key is pending after a success, and an error leaves the rows as they were.
abbrev pub IsWaiting : Text → World → Result Node × World → Type 0
IsWaiting key w (ok n, w') =
    (r : Node) × (find_where (has_key key) w'.nodes ≡ some r) × (r.status ≡ pending)
IsWaiting key w (err e, w') = w'.nodes ≡ w.nodes

insert_node-IsWaiting :
    (new : Node) (w : World) → new.status ≡ pending → IsWaiting new.public_key w (insert_node new w)
unfolding insert_node upsert_node
insert_node-IsWaiting new w p = elim (Bool-cases (w.env.fails w.tick)) [
  | inl down ↦ rw down refl
  | inr up ↦ elim (Bool-cases (is_known_tier new.tier)) [
    | inr unknown ↦ rw up (rw unknown refl)
    | inl known ↦ elim (Option-cases (find_where (has_key new.public_key) w.nodes)) [
      | inr (old, found) ↦ rw up (
          rw known (
            rw found (
              renew new old,
              find_where-update_first (has_key new.public_key) (renew new) (λ n k. k) w.nodes found,
              refl,
            )))
      | inl fresh ↦ elim (Option-cases (find_where (has_id new.node_id) w.nodes)) [
        | inr (other, taken) ↦ rw up (rw known (rw fresh (rw taken refl)))
        | inl free ↦ rw up (
            rw known (
              rw fresh (
                rw free (
                  new,
                  find_where-append (has_key new.public_key) w.nodes fresh
                      (text_eq_refl new.public_key),
                  p,
                ))))
      ]
    ]
  ]
]

-- A registration that succeeds carries a signature of its message by its own key.
abbrev pub IsRegistered : Text → Text → Tier → Text → ℤ → World → Result Node × World → Type 0
IsRegistered key ln_uri tier sig ts w (ok n, w') =
    ((bytes : Text) × (public_key_bytes key ≡ some bytes)
      × (w.env.verify bytes (canonical_register_message key ln_uri tier ts) sig ≡ true))
    × IsWaiting key w (ok n, w')
IsRegistered key ln_uri tier sig ts w (err e, w') = IsWaiting key w (err e, w')

-- A registration succeeds only with a signature of its message by its own key, and then the row of
-- the key is pending, whatever its status was before, suspended too; a registration that fails
-- changes no row.
pub register-IsRegistered :
    (key ln_uri onion : Text) (caps : NodeCapabilities) (sig : Text) (ts : ℤ) (w : World)
    → IsRegistered key ln_uri caps.tier sig ts w (register key ln_uri onion caps sig ts w)
unfolding register verified new_id
register-IsRegistered key ln_uri onion caps sig ts w =
    elim (Bool-cases (is_too_old (w.env.clock w.tick) ts)) [
      | inl old ↦ rw old refl
      | inr new ↦ elim (Option-cases (public_key_bytes key)) [
        | inl bad ↦ rw new (rw bad refl)
        | inr (bytes, e) ↦
            elim (Bool-cases
              (w.env.verify bytes (canonical_register_message key ln_uri caps.tier ts) sig)) [
                | inr forged ↦ rw new (rw e (rw forged refl))
                | inl good ↦ rw new (
                    rw e (
                      rw good
                        (signed bytes e good _ (insert_node-IsWaiting _ (next (next w)) refl))))
              ]
      ]
    ]
  where
    signed :
        (bytes : Text)
        → public_key_bytes key ≡ some bytes
        → w.env.verify bytes (canonical_register_message key ln_uri caps.tier ts) sig ≡ true
        → (p : Result Node × World) → IsWaiting key w p
        → IsRegistered key ln_uri caps.tier sig ts w p
    signed bytes e good (ok n, w') h = ((bytes, e, good), h)
    signed bytes e good (err x, w') h = h
