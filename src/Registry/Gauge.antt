-- ===== src/Registry/Gauge.antt =====
-- The gauge of nodes by tier and status against the table that it counts.
use open_world_model.Base.{
  ℕ, ◌+◌, ◌≡◌, refl, Bool, true, false, inl, inr, some, List, [], ◌∷◌, arith, Bool-cases,
  Option-cases, if◌then◌else◌, find_where, count_where, count_where-update_first,
  count_where-append, find_where_holds, ap, update_first-none,
}
use open_world_model.Base.Int.{ℤ, pos, ◌+ℤ◌, ◌-ℤ◌, int_laws}
use open_world_model.Base.Text.{Text}
use open_world_model.World.{
  World, Tier, is_known_tier, NodeStatus, status_eq, Node, pending, active, next,
}
use open_world_model.Registry.Defs.{
  NodeCapabilities, is_too_old, canonical_register_message, public_key_bytes, has_key, has_id,
  renew, is_labelled,
}
use open_world_model.Registry.Methods.{
  register, insert_node, activate, update_status, is_pending_node, set_status,
}

abbrev pub has_label : Tier → NodeStatus → Node → Bool
has_label t s n = is_labelled n.tier n.status t s

-- The gauge of each label is the number of the rows that have it.
abbrev pub IsTracked : World → Type 0
IsTracked w =
    (t : Tier) (s : NodeStatus) → w.nodes_total t s ≡ pos (count_where (has_label t s) w.nodes)

-- One row changes its label: the gauge follows by a `Dec` and an `Inc`.
moved :
    (old new : Bool) (g : ℤ) {a b : ℕ}
    → g ≡ pos a
    → b + (if old then 1 else 0) ≡ a + (if new then 1 else 0)
    → (if new then (if old then g -ℤ pos 1 else g) +ℤ pos 1 else (if old then g -ℤ pos 1 else g))
      ≡ pos b
moved true true g h e = rw h (omega int_laws)
moved true false g h e = rw h (omega int_laws)
moved false true g h e = rw h (omega int_laws)
moved false false g h e = rw h (omega int_laws)

pub insert_node-IsTracked :
    (new : Node) (w : World) → new.status ≡ pending → IsTracked w → IsTracked (insert_node new w).1
unfolding insert_node
insert_node-IsTracked new w p h t s = elim (Bool-cases (w.env.fails w.tick)) [
  | inl down ↦ rw down (h t s)
  | inr up ↦ elim (Bool-cases (is_known_tier new.tier)) [
    | inr unknown ↦ rw up (rw unknown (h t s))
    | inl known ↦ elim (Option-cases (find_where (has_key new.public_key) w.nodes)) [
      | inr (old, found) ↦ rw up (
          rw known (
            rw found (
              moved (has_label t s old) (is_labelled new.tier pending t s) (w.nodes_total t s)
                (h t s)
                (count_where-update_first (has_label t s) (has_key new.public_key) (renew new)
                  w.nodes found))))
      | inl fresh ↦ elim (Option-cases (find_where (has_id new.node_id) w.nodes)) [
        | inr (other, taken) ↦ rw up (rw known (rw fresh (rw taken (h t s))))
        | inl free ↦ rw up (
            rw known (
              rw fresh (
                rw free (
                  moved false (has_label t s new) (w.nodes_total t s) (h t s)
                    (omega (arith, count_where-append (has_label t s) w.nodes (new ∷ [])))))))
      ]
    ]
  ]
]

-- Where the gauge counts the nodes by tier and status, it does so after a registration too, however
-- that ends: also after one that renews a node with another tier or status.
pub register-IsTracked :
    (key ln_uri onion : Text) (caps : NodeCapabilities) (sig : Text) (ts : ℤ) (w : World)
    → IsTracked w
    → IsTracked (register key ln_uri onion caps sig ts w).1
unfolding register
register-IsTracked key ln_uri onion caps sig ts w h t s =
    elim (Bool-cases (is_too_old (w.env.clock w.tick) ts)) [
      | inl old ↦ rw old (h t s)
      | inr new ↦ elim (Option-cases (public_key_bytes key)) [
        | inl bad ↦ rw new (rw bad (h t s))
        | inr (bytes, e) ↦
            elim (Bool-cases
              (w.env.verify bytes (canonical_register_message key ln_uri caps.tier ts) sig)) [
                | inr forged ↦ rw new (rw e (rw forged (h t s)))
                | inl good ↦
                    rw new (rw e (rw good (insert_node-IsTracked _ (next (next w)) refl h t s)))
              ]
      ]
    ]

status_eq→eq : (a b : NodeStatus) → status_eq a b ≡ true → a ≡ b
status_eq→eq a b h = ground arith

pending_label :
    (id : ℕ) (ns : List Node) {n : Node}
    → find_where (is_pending_node id) ns ≡ some n
    → (t : Tier) (s : NodeStatus) → has_label t s n ≡ is_labelled n.tier pending t s
pending_label id ns {n} found t s =
    let e : n.status ≡ pending =
      status_eq→eq n.status pending
        (ground (arith, find_where_holds (is_pending_node id) ns found)) in
    ap (λ p. is_labelled n.tier p t s) e

-- Where the gauge counts the nodes by tier and status, it does so after an activation too, however
-- that ends.
pub activate-IsTracked : (id : ℕ) (w : World) → IsTracked w → IsTracked (activate id w).1
unfolding activate
activate-IsTracked id w h t s = elim (Bool-cases (w.env.fails w.tick)) [
  | inl down ↦ rw down (h t s)
  | inr up ↦ elim (Option-cases (find_where (is_pending_node id) w.nodes)) [
    | inl none_pending ↦ rw (up, none_pending) (h t s)
    | inr (n, found) ↦
        rw (up, found)
          (moved (is_labelled n.tier pending t s) (is_labelled n.tier active t s)
            (w.nodes_total t s) (h t s)
            (rw (pending_label id w.nodes found t s) at (
              count_where-update_first (has_label t s) (is_pending_node id) (set_status active)
                w.nodes found)))
  ]
]

-- Where the gauge counts the nodes by tier and status, it does so after `UpdateStatus` too, if the
-- query for the old status does not fail.
pub update_status-IsTracked :
    (id : ℕ) (s : NodeStatus) (w : World)
    → w.env.fails w.tick ≡ false
    → IsTracked w
    → IsTracked (update_status id s w).1
unfolding update_status
update_status-IsTracked id s w up h t s' = elim (Bool-cases (w.env.fails (w.tick + 1))) [
  | inl down ↦ rw up (rw down (h t s'))
  | inr also_up ↦ elim (Option-cases (find_where (has_id id) w.nodes)) [
    | inl missing ↦ rw up (
        rw also_up
          (rw missing (rw (update_first-none (has_id id) (set_status s) w.nodes missing) (h t s'))))
    | inr (n, found) ↦ rw up (
        rw also_up (
          rw found (
            moved (has_label t s' n) (is_labelled n.tier s t s') (w.nodes_total t s') (h t s') (
              count_where-update_first (has_label t s') (has_id id) (set_status s) w.nodes found))))
  ]
]
