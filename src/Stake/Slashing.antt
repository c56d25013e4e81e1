-- ===== src/Stake/Slashing.antt =====
-- Slashing: what a slash does, what it needs, and which signals bring one about.
use open_world_model.Base.{
  ℕ, suc, ◌≡◌, refl, false, ◌⊎◌, inl, inr, some, List, ◌∷◌, arith, All, Bool-cases, Option-cases,
  ◌==◌, find_where, count_where, update_where, All-update_where, count_where-update_where,
}
use open_world_model.Base.Int.{pos, ◌<ℤ◌}
use open_world_model.Base.Text.{Text}
use open_world_model.World.{
  World, Tier, t1, tier_eq, Node, Stake, Signal, NodeStatus, suspended, force_closed, ok, call,
  after-bind,
}
use open_world_model.Stake.Defs.{Verifier, is_node, is_stake_of}
use open_world_model.Stake.Methods.{
  insert_signal, auto_slash, slash, record_misbehavior_signal, unresolved, suspend_node,
  close_stake, link_signal,
}

module _ (v : Verifier) (id : ℕ) (tier : Tier) (reason evidence : Text) (n : ℕ) (w : World) where
  abbrev after : World
  after = (slash v id tier reason evidence n w).1

  slash_tables :
      (slash v id tier reason evidence n w).0 ≡ ok tt
      → (after.nodes ≡ update_where (is_node id) suspend_node w.nodes)
        × (after.stakes ≡ update_where (is_stake_of id) close_stake w.stakes)
        × ((e : ℕ) × (after.signals ≡ update_where (unresolved id) (link_signal e) w.signals))
  unfolding slash
  slash_tables h =
      (ground arith, ground arith, (w.env.uuid (suc (suc (suc (suc w.tick)))), ground arith))

abbrev pub HasStatus : ℕ → NodeStatus → Node → Type 0
HasStatus id s n = ((n.node_id == id) ≡ false) ⊎ (n.status ≡ s)

abbrev pub IsForceClosed : ℕ → Stake → Type 0
IsForceClosed id s = ((s.node_id == id) ≡ false) ⊎ (s.stake_status ≡ force_closed)

suspended-All :
    (id : ℕ) (ns : List Node)
    → All (HasStatus id suspended) (update_where (is_node id) suspend_node ns)
suspended-All id =
    All-update_where (HasStatus id suspended) (is_node id) suspend_node (λ n. ground arith)

closed-All :
    (id : ℕ) (ss : List Stake)
    → All (IsForceClosed id) (update_where (is_stake_of id) close_stake ss)
closed-All id = All-update_where (IsForceClosed id) (is_stake_of id) close_stake (λ s. ground arith)

none_unresolved :
    (id e : ℕ) (ss : List Signal)
    → count_where (unresolved id) (update_where (unresolved id) (link_signal e) ss) ≡ 0
none_unresolved id e =
    count_where-update_where (unresolved id) (link_signal e) (λ s h. ground arith)

-- A slash that returns no error leaves every row of the node suspended, its stake force-closed, and
-- no signal of it unresolved.
pub slash-suspends :
    (v : Verifier) (id : ℕ) (tier : Tier) (reason evidence : Text) (n : ℕ) (w : World)
    → (slash v id tier reason evidence n w).0 ≡ ok tt
    → let w' = (slash v id tier reason evidence n w).1 in
      All (HasStatus id suspended) w'.nodes
      × All (IsForceClosed id) w'.stakes
      × (count_where (unresolved id) w'.signals ≡ 0)
slash-suspends v id tier reason evidence n w h =
    let (ns, ss, (e, gs)) = slash_tables v id tier reason evidence n w h in
    (
      rw ns (suspended-All id w.nodes),
      rw ss (closed-All id w.stakes),
      rw gs (none_unresolved id e w.signals),
    )

-- However a slash ends, it has closed the channel of the node's stake record, or it has changed no
-- node, no stake and no signal and has written no event.
pub slash_closes_first :
    (v : Verifier) (id : ℕ) (tier : Tier) (reason evidence : Text) (n : ℕ) (w : World)
    → let w' = (slash v id tier reason evidence n w).1 in
      ((s : Stake) × (find_where (is_stake_of id) w.stakes ≡ some s)
        × (w'.closed_channels ≡ s.channel_id ∷ w.closed_channels))
      ⊎ ((w'.nodes ≡ w.nodes)
          × (w'.stakes ≡ w.stakes)
          × (w'.signals ≡ w.signals)
          × (w'.events ≡ w.events)
          × (w'.closed_channels ≡ w.closed_channels))
unfolding slash
slash_closes_first v id tier reason evidence n w =
    elim (Option-cases (find_where (is_stake_of id) w.stakes)) [
      | inl missing ↦ inr (ground arith)
      | inr (s, found) ↦ elim (Bool-cases (v.has_slash)) [
        | inl client ↦ elim (Bool-cases (w.env.fails w.tick)) [
          | inl down ↦ inr (ground arith)
          | inr up ↦ elim (Bool-cases (w.env.fails (suc w.tick))) [
            | inl refused ↦ inr (ground arith)
            | inr closed ↦ inl (s, found, ground arith)
          ]
        ]
        | inr no_client ↦ inr (ground arith)
      ]
    ]

-- What slashing and suspension change.
abbrev pub IsSpared : World → World → Type 0
IsSpared w w' =
    (w'.nodes ≡ w.nodes)
    × (w'.stakes ≡ w.stakes)
    × (w'.events ≡ w.events)
    × (w'.closed_channels ≡ w.closed_channels)

insert_signal-IsSpared :
    (id : ℕ) (signal_type evidence : Text) (w : World)
    → IsSpared w (call (insert_signal id signal_type evidence) w).1
unfolding insert_signal
insert_signal-IsSpared id signal_type evidence w = ground arith

-- Where the code does not slash, nothing happens.
auto_slash_idle :
    (v : Verifier) (id : ℕ) (tier : Tier) (signal_type evidence : Text) (n : ℕ) (w : World)
    → (tier_eq tier t1 ≡ false) ⊎ (pos n <ℤ v.t1_auto_slash_signals)
    → (auto_slash v id tier signal_type evidence n w).1 ≡ w
unfolding auto_slash
auto_slash_idle v id tier signal_type evidence n w (inl h) = rw h refl
auto_slash_idle v id tier signal_type evidence n w (inr h) = ground arith

-- A signal about a node of another tier than t1 never slashes, however many there are.
pub record_misbehavior_signal_other_tier :
    (v : Verifier) (id : ℕ) (tier : Tier) (signal_type evidence : Text) (w : World)
    → tier_eq tier t1 ≡ false
    → IsSpared w (record_misbehavior_signal v id tier signal_type evidence w).1
unfolding record_misbehavior_signal
record_misbehavior_signal_other_tier v id tier signal_type evidence w h =
    after-bind (IsSpared w) (auto_slash v id tier signal_type evidence)
      (call (insert_signal id signal_type evidence)) w
      (λ n e.
        rw (auto_slash_idle v id tier signal_type evidence n _ (inl h))
          (insert_signal-IsSpared id signal_type evidence w))
      (insert_signal-IsSpared id signal_type evidence w)

counted :
    (id : ℕ) (signal_type evidence : Text) (w : World) (n : ℕ)
    → (call (insert_signal id signal_type evidence) w).0 ≡ ok n
    → n ≡ count_where (unresolved id) w.signals
unfolding insert_signal
counted id signal_type evidence w n h = ground arith

-- The threshold is compared with the signals that were there before: the signal that makes the
-- number of unresolved signals reach the threshold slashes nobody.
pub record_misbehavior_signal_at_threshold :
    (v : Verifier) (id : ℕ) (tier : Tier) (signal_type evidence : Text) (w : World)
    → v.t1_auto_slash_signals ≡ pos (suc (count_where (unresolved id) w.signals))
    → IsSpared w (record_misbehavior_signal v id tier signal_type evidence w).1
unfolding record_misbehavior_signal
record_misbehavior_signal_at_threshold v id tier signal_type evidence w h =
    after-bind (IsSpared w) (auto_slash v id tier signal_type evidence)
      (call (insert_signal id signal_type evidence)) w
      (λ n e.
        let old = counted id signal_type evidence w n e in
        rw (auto_slash_idle v id tier signal_type evidence n _ (inr (rw h (omega (arith, old)))))
          (insert_signal-IsSpared id signal_type evidence w))
      (insert_signal-IsSpared id signal_type evidence w)
