-- ===== src/Stake/Defs.antt =====
-- The methods of `Verifier`. Lightning channels, times and ids come from the environment.
use open_world_model.Base.{
  ℕ, Bool, true, false, not, ◌&&◌, Option, none, some, List, [], ◌∷◌, ◌==◌, if◌then◌else◌,
}
use open_world_model.Base.Int.{ℤ, pos, ◌-ℤ◌, leb_ℤ, ltb_ℤ}
use open_world_model.Base.Text.{Text, text_eq}
use open_world_model.World.{
  Channel, Tier, t1, t2, t3, other_tier, Node, Stake, stake_active, stake_verification_fail,
  stake_verification_ok, M, ok, unknown_tier, pure, or_raise, call, count_metric, ◌>>=◌, ◌>>◌,
  branch,
}
use open_world_model.Float64.{Float64}

-- The map `TierMinimums`.
abbrev pub tier_minimums : Tier → Option ℤ
tier_minimums t1 = some (pos 100000)
tier_minimums t2 = some (pos 500000)
tier_minimums t3 = some (pos 2000000)
tier_minimums (other_tier s) = none

-- The texts of `StakeResult.Error`.
pub data StakeFailure : Type 0 where
  not_configured : StakeFailure
  insufficient_stake : ℤ → StakeFailure

pub record StakeResult (A : Type 0) : Type 0 where
  pub is_ok : Bool
  pub channel_id : Text
  pub capacity_sats : ℤ
  pub local_balance_sats : ℤ
  pub tier_minimum_sats : ℤ
  pub bonus_multiplier : A
  pub failure : Option StakeFailure

-- `Verifier` and its `SlashConfig`: whether each Lightning client is there, and the thresholds.
pub record Verifier : Type 0 where
  pub has_readonly : Bool
  pub has_slash : Bool
  pub t1_auto_slash_signals : ℤ
  pub t2t3_maintainer_acks : ℤ
  pub cooldown_duration : ℕ

-- The body of the loop over the channels.
unfoldable pub consider : ℤ → Channel → Option Channel → Option Channel
consider tier_min ch none = if leb_ℤ tier_min ch.local_balance_sats then some ch else none
consider tier_min ch (some best) =
    if leb_ℤ tier_min ch.local_balance_sats && ltb_ℤ best.local_balance_sats ch.local_balance_sats
    then some ch
    else some best

unfoldable pub best_channel : ℤ → Option Channel → List Channel → Option Channel
unfolding consider
best_channel tier_min best [] = best
best_channel tier_min best (ch ∷ chs) = best_channel tier_min (consider tier_min ch best) chs

abbrev pub is_node : ℕ → Node → Bool
is_node id n = n.node_id == id

abbrev pub is_stake_of : ℕ → Stake → Bool
is_stake_of id s = s.node_id == id

-- The unique constraint of `node_stakes.channel_id`: another node has the channel.
abbrev pub holds_channel : ℕ → Text → Stake → Bool
holds_channel id channel s = not (s.node_id == id) && text_eq s.channel_id channel

abbrev pub stake_row : {A : Type 0} → ℕ → ℕ → ℕ → StakeResult A → Stake
stake_row id time bonus r = record {
  node_id = id;
  channel_id = r.channel_id;
  channel_capacity = r.capacity_sats;
  local_balance = r.local_balance_sats;
  tier_minimum = r.tier_minimum_sats;
  bonus_multiplier = bonus;
  stake_status = stake_active;
  last_verified_at = time;
  degraded_since = none;
}

-- `ON CONFLICT (node_id) DO UPDATE`: the tier minimum keeps its first value.
abbrev pub refresh_stake : Stake → Stake → Stake
refresh_stake new old = record new { tier_minimum = old.tier_minimum }

abbrev pub upsert_stake : Stake → List Stake → List Stake
upsert_stake new [] = new ∷ []
upsert_stake new (s ∷ ss) =
    if s.node_id == new.node_id then refresh_stake new s ∷ ss else s ∷ upsert_stake new ss

module _ (fp : Float64) where
  abbrev pub one : fp.F
  one = fp.ratio 1 1

  abbrev pub two : fp.F
  two = fp.ratio 2 1

  -- 1.0 + float64(stake-min)/float64(min)*0.5
  abbrev pub raw_bonus : ℤ → ℤ → fp.F
  raw_bonus stake min =
      fp.add one (fp.mul (fp.div (fp.of_int (stake -ℤ min)) (fp.of_int min)) (fp.ratio 1 2))

  unfoldable pub compute_bonus : ℤ → ℤ → fp.F
  compute_bonus stake min =
      if leb_ℤ stake min
      then one
      else if fp.lt two (raw_bonus stake min)
      then two
      else raw_bonus stake min

  -- A Go struct starts with zero values.
  abbrev pub failed_result : ℤ → StakeFailure → StakeResult fp.F
  failed_result tier_min f = record {
    is_ok = false;
    channel_id = [];
    capacity_sats = pos 0;
    local_balance_sats = pos 0;
    tier_minimum_sats = tier_min;
    bonus_multiplier = fp.ratio 0 1;
    failure = some f;
  }

  abbrev pub found_result : ℤ → Channel → StakeResult fp.F
  found_result tier_min ch = record {
    is_ok = true;
    channel_id = ch.channel_id;
    capacity_sats = ch.capacity_sats;
    local_balance_sats = ch.local_balance_sats;
    tier_minimum_sats = tier_min;
    bonus_multiplier = compute_bonus ch.local_balance_sats tier_min;
    failure = none;
  }

  -- What `VerifyStake` returns once the channels are listed.
  report_stake : ℤ → Option Channel → M (StakeResult fp.F)
  report_stake tier_min none = do
    count_metric stake_verification_fail
    pure (failed_result tier_min (insufficient_stake tier_min))
  report_stake tier_min (some ch) = do
    count_metric stake_verification_ok
    pure (found_result tier_min ch)

  abbrev pub list_channels : Text → M (List Channel)
  list_channels key w = (ok (w.env.channels w.tick key), w)

  unfoldable pub verify_stake : Verifier → Text → Tier → M (StakeResult fp.F)
  unfolding report_stake best_channel
  verify_stake v key tier = do
    tier_min ← or_raise (tier_minimums tier) unknown_tier
    branch (not v.has_readonly)
        (do count_metric stake_verification_fail; pure (failed_result tier_min not_configured))
        (do
          channels ← call (list_channels key)
          report_stake tier_min (best_channel tier_min none channels))
