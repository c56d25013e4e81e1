-- ===== src/Registry/Reliability.antt =====
-- `computeReliability` and `UpdateReliability`.
use open_world_model.Base.{
  ℕ, ◌+◌, ◌-◌, ◌/◌, ◌%◌, Bool, true, false, ◌&&◌, Option, none, some, ◌==◌, if◌then◌else◌, ltb,
  find_where, count_where, update_first,
}
use open_world_model.Base.Int.{ℤ, pos, ltb_ℤ}
use open_world_model.World.{Node, Task, TaskState, Heartbeat, M, ok, err, no_rows, call, now, ◌>>=◌}
use open_world_model.Float64.{Float64}
use open_world_model.Registry.Defs.{has_id}

module _ (fp : Float64) where
  open fp use {F, of_int, ratio, add, mul, div, lt, le}

  -- time.Duration.Seconds
  abbrev pub seconds : ℕ → F
  seconds d =
      add (of_int (pos (d / 1000000000))) (div (of_int (pos (d % 1000000000))) (ratio 1000000000 1))

  abbrev pub task_fraction : ℤ → ℤ → F
  task_fraction completed total =
      if ltb_ℤ (pos 0) total then div (of_int completed) (of_int total) else ratio 1 1

  abbrev pub expected_heartbeats : ℕ → F
  expected_heartbeats window = div (seconds window) (ratio 60 1)

  abbrev pub cut_at_one : F → F
  cut_at_one x = if lt (ratio 1 1) x then ratio 1 1 else x

  abbrev pub uptime_fraction : ℤ → ℕ → F
  uptime_fraction received window =
      if le (ratio 1 1) (expected_heartbeats window)
      then cut_at_one (div (of_int received) (expected_heartbeats window))
      else ratio 1 1

  abbrev pub clamp : F → F
  clamp r = if lt r (ratio 0 1) then ratio 0 1 else cut_at_one r

  unfoldable pub compute_reliability : ℤ → ℤ → ℤ → ℕ → F
  compute_reliability completed total received window =
      clamp (mul (task_fraction completed total) (uptime_fraction received window))

  abbrev in_window : ℕ → ℕ → Task → Bool
  in_window id start t =
      (elim t.assigned_node [ none ↦ false | some n ↦ n == id ]) && ltb start t.submitted_at

  abbrev is_completed : Task → Bool
  is_completed t = elim t.status [ TaskState.completed ↦ true | _ ↦ false ]

  abbrev beat_in_window : ℕ → ℕ → Heartbeat → Bool
  beat_in_window id start h = h.node_id == id && ltb start h.recorded_at

  unfoldable pub found_time : Option Node → M ℕ
  found_time none w = (err no_rows, w)
  found_time (some n) w = (ok n.registered_at, w)

  abbrev pub registration_time : ℕ → M ℕ
  registration_time id w = found_time (find_where (has_id id) w.nodes) w

  abbrev pub count_tasks : ℕ → ℕ → M (ℕ × ℕ)
  count_tasks id start w = (
    ok (
      count_where (in_window id start) w.tasks,
      count_where (λ t. in_window id start t && is_completed t) w.tasks,
    ),
    w,
  )

  abbrev pub count_beats : ℕ → ℕ → M ℕ
  count_beats id start w = (ok (count_where (beat_in_window id start) w.heartbeats), w)

  abbrev pub store_reliability : ℕ → ℕ → ℕ → M Unit
  store_reliability id r incr w = (
    ok tt,
    record w {
      nodes =
          update_first (has_id id)
            (λ n. record n { reliability = r; total_tasks = n.total_tasks + incr }) w.nodes;
    },
  )

  -- The window is the last 7 days, or what has passed since the registration.
  unfoldable pub update_reliability : ℕ → Bool → M Unit
  unfolding found_time compute_reliability
  update_reliability id success = do
    registered ← call (registration_time id)
    time ← now
    let start =
        if ltb (time - 604800000000000) registered then registered else time - 604800000000000
    (total, completed) ← call (count_tasks id start)
    received ← call (count_beats id start)
    later ← now
    let r = compute_reliability (pos completed) (pos total) (pos received) (later - start)
    call (store_reliability id (fp.to_numeric 4 r) (if success then 1 else 0))
