-- ===== src/Stake/Methods.antt =====
-- The methods of `Verifier` that write to the database.
use open_world_model.Base.{
  ℕ, ◌+◌, Bool, true, false, not, ◌&&◌, ◌||◌, none, some, List, [], ◌∷◌, ◌++◌, ◌==◌, if◌then◌else◌,
  find_where, count_where, update_where,
}
use open_world_model.Base.Int.{pos, leb_ℤ}
use open_world_model.Base.Text.{Text}
use open_world_model.World.{
  Tier, t1, tier_eq, Node, Stake, Signal, active, degraded, suspended, status_eq, stake_degraded,
  force_closed, slash_event, M, Result, ok, err, no_rows, constraint, no_slash_client, pure,
  attempt, raise_if, call, now, count_metric, ◌>>=◌, ◌>>◌, branch,
}
use open_world_model.Float64.{Float64}
use open_world_model.Stake.Defs.{
  Verifier, StakeResult, is_node, is_stake_of, holds_channel, stake_row, upsert_stake, verify_stake,
}

abbrev pub has_node : ℕ → List Node → Bool
has_node id ns = elim (find_where (is_node id) ns) [ none ↦ false | some n ↦ true ]

abbrev pub channel_taken : ℕ → Text → List Stake → Bool
channel_taken id channel ss = elim (find_where (holds_channel id channel) ss) [
  | none ↦ false
  | some s ↦ true
]

-- The statement of `PersistStake`: a foreign key, a unique channel, and the upsert.
unfoldable pub insert_stake : {A : Type 0} → ℕ → ℕ → StakeResult A → M Unit
insert_stake id bonus r w =
    if not (has_node id w.nodes) || channel_taken id r.channel_id w.stakes
    then (err constraint, w)
    else (
      ok tt,
      record w { stakes = upsert_stake (stake_row id (w.env.clock w.tick) bonus r) w.stakes },
    )

abbrev pub degrade_node : Node → Node
degrade_node n = record n { status = degraded }

abbrev pub suspend_node : Node → Node
suspend_node n = record n { status = suspended }

abbrev pub close_stake : Stake → Stake
close_stake s = record s { stake_status = force_closed }

abbrev pub degrade_stake : ℕ → Stake → Stake
degrade_stake time s = record s { stake_status = stake_degraded; degraded_since = some time }

abbrev pub is_active_node : ℕ → Node → Bool
is_active_node id n = n.node_id == id && status_eq n.status active

abbrev pub is_undegraded : ℕ → Stake → Bool
is_undegraded id s = s.node_id == id && (elim s.degraded_since [ none ↦ true | some t ↦ false ])

-- The two statements of `markDegraded`.
set_degraded : ℕ → M Unit
set_degraded id w =
    (ok tt, record w { nodes = update_where (is_active_node id) degrade_node w.nodes })

set_stake_degraded : ℕ → M Unit
set_stake_degraded id w = (
  ok tt,
  record w {
    stakes = update_where (is_undegraded id) (degrade_stake (w.env.clock w.tick)) w.stakes;
  },
)

unfoldable pub mark_degraded : ℕ → M Unit
unfolding set_degraded set_stake_degraded
mark_degraded id = do call (set_degraded id); call (set_stake_degraded id)

abbrev pub unresolved : ℕ → Signal → Bool
unresolved id s = s.node_id == id && (elim s.slashing_event [ none ↦ true | some e ↦ false ])

-- The INSERT of a signal. Its RETURNING clause counts in the snapshot that the statement began
-- with, so the row that it inserts is not in the count.
unfoldable pub insert_signal : ℕ → Text → Text → M ℕ
insert_signal id signal_type evidence w =
    let row : Signal = record {
      node_id = id;
      signal_type = signal_type;
      evidence_hash = evidence;
      slashing_event = none;
    } in
    if has_node id w.nodes
    then (ok (count_where (unresolved id) w.signals), record w { signals = w.signals ++ row ∷ [] })
    else (err constraint, w)

select_channel : ℕ → M Text
select_channel id w = elim (find_where (is_stake_of id) w.stakes) [
  | none ↦ (err no_rows, w)
  | some s ↦ (ok s.channel_id, w)
]

force_close_chan : Text → M Unit
force_close_chan channel w = (ok tt, record w { closed_channels = channel ∷ w.closed_channels })

insert_event : ℕ → Text → Tier → Text → Text → ℕ → ℕ → M ℕ
insert_event id channel tier reason evidence signal_count expires w =
    if has_node id w.nodes
    then (
      ok (w.env.uuid w.tick),
      record w {
        events =
            w.events
            ++ record {
              event_id = w.env.uuid w.tick;
              node_id = id;
              channel_id = channel;
              tier = tier;
              reason = reason;
              evidence_hash = evidence;
              signal_count = signal_count;
              cooldown_expires_at = expires;
            }
              ∷ [];
      },
    )
    else (err constraint, w)

set_suspended : ℕ → M Unit
set_suspended id w = (ok tt, record w { nodes = update_where (is_node id) suspend_node w.nodes })

set_force_closed : ℕ → M Unit
set_force_closed id w =
    (ok tt, record w { stakes = update_where (is_stake_of id) close_stake w.stakes })

abbrev pub link_signal : ℕ → Signal → Signal
link_signal event s = record s { slashing_event = some event }

link_signals : ℕ → ℕ → M Unit
link_signals event id w =
    (ok tt, record w { signals = update_where (unresolved id) (link_signal event) w.signals })

-- `return err`, after the error was kept in a variable.
abbrev pub lift : {A : Type 0} → Result A → M A
lift r w = (r, w)

unfoldable pub slash : Verifier → ℕ → Tier → Text → Text → ℕ → M Unit
unfolding select_channel force_close_chan insert_event set_suspended set_force_closed link_signals
slash v id tier reason evidence signal_count = do
  raise_if (not v.has_slash) no_slash_client
  channel ← call (select_channel id)
  call (force_close_chan channel)
  time ← now
  event ←
      call (insert_event id channel tier reason evidence signal_count (time + v.cooldown_duration))
  call (set_suspended id)
  call (set_force_closed id)
  linked ← attempt (call (link_signals event id))
  count_metric (slash_event tier)
  lift linked

-- T1 is slashed at the threshold; T2 and T3 wait for maintainers.
unfoldable pub auto_slash : Verifier → ℕ → Tier → Text → Text → ℕ → M Unit
unfolding slash
auto_slash v id tier signal_type evidence signal_count =
    branch (tier_eq tier t1 && leb_ℤ v.t1_auto_slash_signals (pos signal_count))
      (slash v id tier signal_type evidence signal_count) (pure tt)

unfoldable pub record_misbehavior_signal : Verifier → ℕ → Tier → Text → Text → M Unit
unfolding insert_signal auto_slash
record_misbehavior_signal v id tier signal_type evidence = do
  signal_count ← call (insert_signal id signal_type evidence)
  auto_slash v id tier signal_type evidence signal_count

module _ (fp : Float64) where
  unfoldable pub persist_stake : ℕ → StakeResult fp.F → M Unit
  unfolding insert_stake
  persist_stake id r = call (insert_stake id (fp.to_numeric 3 r.bonus_multiplier) r)

  -- The rows of the query of `VerifyAllActive`: active nodes that have a stake.
  abbrev has_stake : ℕ → List Stake → Bool
  has_stake id ss = elim (find_where (is_stake_of id) ss) [ none ↦ false | some s ↦ true ]

  active_staked : List Stake → List Node → List Node
  active_staked ss [] = []
  active_staked ss (n ∷ ns) =
      if status_eq n.status active && has_stake n.node_id ss
      then n ∷ active_staked ss ns
      else active_staked ss ns

  -- What the loop body does with a result; a failed statement is logged only.
  refresh : ℕ → Result (StakeResult fp.F) → M Unit
  unfolding mark_degraded persist_stake
  refresh id (err e) = pure tt
  refresh id (ok r) = do
    done ← attempt (branch r.is_ok (persist_stake id r) (mark_degraded id))
    pure tt

  unfoldable pub verify_each : Verifier → List Node → M Unit
  unfolding refresh verify_stake
  verify_each v [] = pure tt
  verify_each v (n ∷ ns) = do
    result ← attempt (verify_stake fp v n.public_key n.tier)
    refresh n.node_id result
    verify_each v ns

  select_active : M (List Node)
  unfolding active_staked
  select_active w = (ok (active_staked w.stakes w.nodes), w)

  unfoldable pub verify_all_active : Verifier → M Unit
  unfolding select_active verify_each
  verify_all_active v =
      branch (not v.has_readonly) (pure tt) (do ns ← call select_active; verify_each v ns)
