-- ===== src/Scheduler/Defs.antt =====
-- Eligibility, the weighted choice and the reward.
use open_world_model.Base.{
  ℕ, Bool, true, false, Option, none, some, List, [], ◌∷◌, if◌then◌else◌, ltb, find_where, ◌==◌,
}
use open_world_model.Base.Int.{ℤ, pos}
use open_world_model.World.{
  World, Tier, t1, t2, t3, other_tier, TaskType, task_type_eq, Node, Stake, M, ok,
}
use open_world_model.Float64.{Float64}

-- The map `taskMinTier`; a missing key reads 0.
abbrev pub task_min_tier : TaskType → ℕ
task_min_tier TaskType.inference = 1
task_min_tier TaskType.fl_round = 1
task_min_tier TaskType.gradient_agg = 2
task_min_tier TaskType.data_ingest = 2
task_min_tier TaskType.audit_repo = 1
task_min_tier TaskType.embed_data = 1
task_min_tier (TaskType.other_task s) = 0

-- The map `tierNums`.
abbrev pub tier_num : Tier → ℕ
tier_num t1 = 1
tier_num t2 = 2
tier_num t3 = 3
tier_num (other_tier s) = 0

-- The loop of `supportsTaskType`.
abbrev pub lists_type : TaskType → List TaskType → Bool
lists_type t [] = false
lists_type t (s ∷ ss) = if task_type_eq s t then true else lists_type t ss

unfoldable pub supports_task_type : List TaskType → TaskType → Bool
supports_task_type [] t = true
supports_task_type (s ∷ ss) t = lists_type t (s ∷ ss)

unfoldable pub filter_eligible : List Node → TaskType → ℕ → List Node
unfolding supports_task_type
filter_eligible [] t min = []
filter_eligible (n ∷ ns) t min =
    let rest = filter_eligible ns t min in
    if ltb (tier_num n.tier) min
    then rest
    else if supports_task_type n.supported_task_types t
    then n ∷ rest
    else rest

module _ (fp : Float64) where
  open fp use {F, of_int, ratio, add, mul, lt, truncate, of_numeric}

  -- The map `tierMult`.
  abbrev pub tier_mult : Tier → F
  tier_mult t1 = ratio 1 1
  tier_mult t2 = ratio 25 10
  tier_mult t3 = ratio 8 1
  tier_mult (other_tier s) = ratio 0 1

  -- The map `taskWeights`.
  abbrev pub task_weight : TaskType → F
  task_weight TaskType.inference = ratio 1 1
  task_weight TaskType.fl_round = ratio 3 1
  task_weight TaskType.gradient_agg = ratio 5 1
  task_weight TaskType.data_ingest = ratio 2 1
  task_weight TaskType.audit_repo = ratio 15 10
  task_weight TaskType.embed_data = ratio 1 1
  task_weight (TaskType.other_task s) = ratio 0 1

  -- The score of a node, with the next random number of the scheduler's source.
  abbrev pub score : F → Node → F
  score random n =
      mul (mul (of_numeric 4 n.reliability) (tier_mult n.tier))
        (add (ratio 95 100) (mul random (ratio 10 100)))

  -- The loop of `selectNode`; the k-th round draws `random k`.
  unfoldable pub select_from : (ℕ → F) → ℕ → Node → F → List Node → Node × F
  select_from random k best best_score [] = (best, best_score)
  select_from random k best best_score (n ∷ ns) =
      let better = lt best_score (score (random k) n) in
      select_from random (ℕ.suc k) (if better then n else best)
        (if better then score (random k) n else best_score) ns

  -- `nodes[0]` of an empty list panics; `Schedule` does not call it so.
  unfoldable pub select_node : (ℕ → F) → List Node → Option Node
  unfolding select_from
  select_node random [] = none
  select_node random (n ∷ ns) =
      some (select_from random 0 n (fp.sub (ratio 0 1) (ratio 1 1)) (n ∷ ns)).0

  abbrev bonus_of : Option Stake → F
  bonus_of none = ratio 1 1
  bonus_of (some s) = of_numeric 3 s.bonus_multiplier

  -- A query that fails or finds no row leaves the bonus at 1.0.
  abbrev pub stake_bonus : ℕ → World → F
  stake_bonus id w =
      if w.env.fails w.tick
      then ratio 1 1
      else bonus_of (find_where (λ s. s.node_id == id) w.stakes)

  unfoldable pub reward : Node → TaskType → F → ℤ
  reward n t bonus =
      truncate (mul (mul (mul (of_int (pos 10)) (tier_mult n.tier)) (task_weight t)) bonus)

  unfoldable pub compute_reward : Node → TaskType → M ℤ
  unfolding reward
  compute_reward n t w =
      (ok (reward n t (stake_bonus n.node_id w)), record w { tick = ℕ.suc w.tick })
