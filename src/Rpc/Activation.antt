-- ===== src/Rpc/Activation.antt =====
-- What a node needs to be activated.
use open_world_model.Base.{
  ℕ, ◌≡◌, refl, sym, ap, ◌∙◌, false, ◌||◌, not, inl, inr, find_where, update_first,
  update_first-none, Bool-cases, Option-cases,
}
use open_world_model.World.{World, Tier, active, ok, err, internal, Result, ◌>>=◌, pure}
use open_world_model.Float64.{Float64}
use open_world_model.Registry.{activate, activate_row, activate_found, is_pending_node, set_status}
use open_world_model.Stake.{StakeResult, persist_stake, insert_stake, has_node, channel_taken}
use open_world_model.Rpc.Handlers.{admit, or_status, activated}

-- The nodes and the environment stay as they are.
abbrev HasNodes : World → World → Type 0
HasNodes w w' = (w'.nodes ≡ w.nodes) × (w'.env ≡ w.env)

persist_stake-HasNodes :
    (fp : Float64) (id : ℕ) (r : StakeResult fp.F) (w : World)
    → HasNodes w (persist_stake fp id r w).1
unfolding persist_stake insert_stake
persist_stake-HasNodes fp id r w = elim (Bool-cases (w.env.fails w.tick)) [
  | inl e ↦ rw e (refl, refl)
  | inr e ↦
      rw e
        (elim (Bool-cases (not (has_node id w.nodes) || channel_taken id r.channel_id w.stakes)) [
          | inl h ↦ rw h (refl, refl)
          | inr h ↦ rw h (refl, refl)
        ])
]

activate-nodes :
    (id : ℕ) (w : World)
    → w.env.fails w.tick ≡ false
    → (activate id w).1.nodes ≡ update_first (is_pending_node id) (set_status active) w.nodes
unfolding activate activate_row activate_found
activate-nodes id w up = elim (Option-cases (find_where (is_pending_node id) w.nodes)) [
  | inl missing ↦
      rw (up, missing)
        (sym (update_first-none (is_pending_node id) (set_status active) w.nodes missing))
  | inr (n, found) ↦ rw (up, found) refl
]

-- What a registration does with the result of the stake check, whatever the result is, one that is
-- not OK too: where no call fails, the pending row of the node becomes active.
pub admit_any :
    (fp : Float64) (id : ℕ) (tier : Tier) (r : StakeResult fp.F) (w : World)
    → ((n : ℕ) → w.env.fails n ≡ false)
    → (admit fp id tier (ok r) w).1.nodes
      ≡ update_first (is_pending_node id) (set_status active) w.nodes
unfolding admit
admit_any fp id tier r w up =
    let v = (persist_stake fp id r w).1 in
    let (same, env) = persist_stake-HasNodes fp id r w in
    let up' : v.env.fails v.tick ≡ false = ap (λ e. e.fails v.tick) env ∙ up v.tick in
    answered (activate id v)
    ∙ activate-nodes id v up'
    ∙ ap (update_first (is_pending_node id) (set_status active)) same
  where
    answered :
        (p : Result (Unit {0}) × World)
        → ((or_status internal p.0 >>= λ x. pure (activated id r.capacity_sats r.bonus_multiplier))
            p.1).1.nodes
          ≡ p.1.nodes
    answered (ok x, v) = refl
    answered (err e, v) = refl
