-- ===== src/Examples/Nodes.antt =====
-- Registration, stakes and slashing in one state.
use open_world_model.Base.{
  ◌≡◌, refl, true, ◌⊎◌, some, [], ◌∷◌, arith, All, count_where, find_where, update_first,
  if◌then◌else◌, ◌&&◌,
}
use open_world_model.Base.Int.{pos, ◌<ℤ◌}
use open_world_model.Base.Text.{codes}
use open_world_model.World.{
  World, t1, inference, Stake, pending, active, suspended, tier_eq, status_eq, ok,
}
use open_world_model.Registry.{register, is_pending_node, set_status, NodeCapabilities}
use open_world_model.Registry.Renewal.{IsRegistered, register-IsRegistered}
use open_world_model.Registry.Gauge.{IsTracked, register-IsTracked}
use open_world_model.Stake.{
  Verifier, insufficient_stake, verify_stake, failed_result, found_result, slash,
  record_misbehavior_signal, unresolved, is_stake_of,
}
use open_world_model.Stake.Best.{IsBestOf, verify_stake_lem}
use open_world_model.Stake.Slashing.{
  HasStatus, IsForceClosed, IsSpared, slash_closes_first, record_misbehavior_signal_at_threshold,
}
use open_world_model.Scheduler.{schedule}
use open_world_model.Service.Exclusion.{IsToAnother, slash-Excludes}
use open_world_model.Rpc.{admit}
use open_world_model.Rpc.Activation.{admit_any}
use open_world_model.Examples.Fixtures.{milli, calm, node, world, pubkey}

abbrev verifier : Verifier
verifier = record {
  has_readonly = true;
  has_slash = true;
  t1_auto_slash_signals = pos 2;
  t2t3_maintainer_acks = pos 2;
  cooldown_duration = 1000;
}

abbrev caps : NodeCapabilities
caps = record {
  tier = t1;
  hardware = record { vram_gb = 8; ram_gb = 32; bandwidth_mbps = 100 };
  supported_task_types = [];
}

world-IsTracked : IsTracked world
world-IsTracked t s = ground arith

-- The node has registered and is not active yet.
abbrev waiting : World
waiting = record world {
  nodes = node 7 pending ∷ [];
  nodes_total = λ t s. if tier_eq t1 t && status_eq pending s then pos 1 else pos 0;
}

waiting-IsTracked : IsTracked waiting
waiting-IsTracked t s = ground arith

register-IsTracked_example :
    IsTracked (register pubkey (codes "02ab@h") (codes "o") caps (codes "sig") (pos 4900) world).1
register-IsTracked_example =
    register-IsTracked pubkey (codes "02ab@h") (codes "o") caps (codes "sig") (pos 4900) world
      world-IsTracked

-- The node is suspended.
abbrev dismissed : World
dismissed = record world { nodes = node 7 suspended ∷ [] }

register-IsRegistered_example :
    IsRegistered pubkey
      (codes "02ab@h")
      t1
      (codes "sig")
      (pos 4900)
      dismissed
      (register pubkey (codes "02ab@h") (codes "o") caps (codes "sig") (pos 4900) dismissed)
register-IsRegistered_example =
    register-IsRegistered pubkey (codes "02ab@h") (codes "o") caps (codes "sig") (pos 4900)
      dismissed

verify_stake_example :
    (((verify_stake milli verifier pubkey t1 world).0
        ≡ ok (failed_result milli (pos 100000) (insufficient_stake (pos 100000))))
      × All (λ ch. ch.local_balance_sats <ℤ pos 100000) (calm.channels 1 pubkey))
    ⊎ ((ch : _) × ((verify_stake milli verifier pubkey t1 world).0
          ≡ ok (found_result milli (pos 100000) ch))
        × IsBestOf (pos 100000) (calm.channels 1 pubkey) ch)
verify_stake_example = verify_stake_lem milli verifier pubkey t1 (pos 100000) world refl refl refl

-- Two nodes, of which the first is slashed.
abbrev pair : World
pair = record world { nodes = node 7 active ∷ node 8 active ∷ [] }

pair_slashed : (slash verifier 7 t1 (codes "r") (codes "e") 3 pair).0 ≡ ok tt
unfolding slash
pair_slashed = refl

slash-Excludes_example :
    let w = (slash verifier 7 t1 (codes "r") (codes "e") 3 pair).1 in
    All (HasStatus 7 suspended) w.nodes
    × All (IsForceClosed 7) w.stakes
    × (count_where (unresolved 7) w.signals ≡ 0)
    × IsToAnother 7 (schedule milli (λ k. 500) true inference (codes "in") 60 w).0
slash-Excludes_example =
    slash-Excludes verifier 7 t1 (codes "r") (codes "e") 3 pair milli (λ k. 500) true inference
      (codes "in") 60 pair_slashed

slash_closes_first_example :
    ((s : Stake) × (find_where (is_stake_of 7) world.stakes ≡ some s)
      × ((slash verifier 7 t1 (codes "r") (codes "e") 3 world).1.closed_channels
          ≡ s.channel_id ∷ []))
    ⊎ (((slash verifier 7 t1 (codes "r") (codes "e") 3 world).1.nodes ≡ world.nodes)
        × ((slash verifier 7 t1 (codes "r") (codes "e") 3 world).1.stakes ≡ world.stakes)
        × ((slash verifier 7 t1 (codes "r") (codes "e") 3 world).1.signals ≡ world.signals)
        × ((slash verifier 7 t1 (codes "r") (codes "e") 3 world).1.events ≡ [])
        × ((slash verifier 7 t1 (codes "r") (codes "e") 3 world).1.closed_channels ≡ []))
slash_closes_first_example = slash_closes_first verifier 7 t1 (codes "r") (codes "e") 3 world

record_misbehavior_signal_at_threshold_example :
    IsSpared world (record_misbehavior_signal verifier 7 t1 (codes "bad") (codes "e") world).1
record_misbehavior_signal_at_threshold_example =
    record_misbehavior_signal_at_threshold verifier 7 t1 (codes "bad") (codes "e") world refl

admit_any_example :
    (admit milli 7 t1
      (ok (failed_result milli (pos 100000) (insufficient_stake (pos 100000))))
      waiting).1.nodes
    ≡ update_first (is_pending_node 7) (set_status active) waiting.nodes
admit_any_example =
    admit_any milli 7 t1 (failed_result milli (pos 100000) (insufficient_stake (pos 100000)))
      waiting (λ n. refl)
