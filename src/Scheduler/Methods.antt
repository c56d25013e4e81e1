-- ===== src/Scheduler/Methods.antt =====
-- `Schedule`, `MarkComplete`, `MarkFailed` and `RequeueTimedOut`.
use open_world_model.Base.{
  ℕ, suc, ◌+◌, ◌*◌, Bool, true, false, ◌&&◌, Option, none, some, [], ◌∷◌, ◌++◌, ◌==◌, if◌then◌else◌,
  ltb, find_where, count_where, update_where, update_first,
}
use open_world_model.Base.Int.{ℤ}
use open_world_model.Base.Text.{Text}
use open_world_model.World.{
  TaskType, TaskState, task_pending, running, completed, failed, payment_pending, Task, Node,
  tasks_total, M, ok, err, constraint, no_eligible_nodes, pure, or_raise, attempt, modify, call,
  now, count_metric, ◌>>=◌, ◌>>◌,
}
use open_world_model.Float64.{Float64}
use open_world_model.Registry.{list_active, update_reliability}
use open_world_model.Scheduler.Defs.{task_min_tier, filter_eligible, select_node, compute_reward}

pub record Assignment : Type 0 where
  pub task_id : ℕ
  pub node_id : ℕ
  pub node_ln_uri : Text
  pub task_type : TaskType
  pub reward_sats : ℤ
  pub timeout_secs : ℕ
  pub assigned_at : ℕ

abbrev pub assignment : Node → TaskType → ℕ → ℤ → ℕ → ℕ → Assignment
assignment n t timeout r id time = record {
  task_id = id;
  node_id = n.node_id;
  node_ln_uri = n.ln_node_uri;
  task_type = t;
  reward_sats = r;
  timeout_secs = timeout;
  assigned_at = time;
}

abbrev pub task_row : Assignment → Text → ℕ → Task
task_row a input_hash time = record {
  task_id = a.task_id;
  task_type = a.task_type;
  assigned_node = some a.node_id;
  node_ln_uri = some a.node_ln_uri;
  status = running;
  input_hash = input_hash;
  output_hash = none;
  reward_sats = a.reward_sats;
  payment_status = payment_pending;
  payment_preimage = none;
  submitted_at = time;
  started_at = some time;
  completed_at = none;
  timeout_seconds = a.timeout_secs;
  observer_receipt_id = none;
}

abbrev pub is_task : ℕ → Task → Bool
is_task id t = t.task_id == id

unfoldable pub insert_found : Option Task → Task → M Unit
insert_found (some other) row w = (err constraint, w)
insert_found none row w = (ok tt, record w { tasks = w.tasks ++ row ∷ [] })

unfoldable pub insert_task : Assignment → Text → M Unit
unfolding insert_found
insert_task a input_hash w =
    insert_found (find_where (is_task a.task_id) w.tasks)
      (task_row a input_hash (w.env.clock w.tick)) w

-- A message that Redis does not take is logged only. `has_redis` is `s.rdb != nil`.
unfoldable pub publish : Bool → Assignment → M Unit
publish false a = pure tt
publish true a = do
  sent ← attempt (call (modify (λ w. record w { published = a.task_id ∷ w.published })))
  pure tt

unfoldable pub persist_assignment : Bool → Assignment → Text → M Unit
unfolding insert_task publish
persist_assignment has_redis a input_hash = do
  call (insert_task a input_hash)
  count_metric (tasks_total a.task_type running)
  publish has_redis a

-- A query for the task's type, whose error is dropped.
unfoldable pub found_type : Option Task → Option TaskType
found_type none = none
found_type (some t) = some t.task_type

unfoldable pub select_type : ℕ → M (Option TaskType)
unfolding found_type
select_type id w = (
  ok (if w.env.fails w.tick then none else found_type (find_where (is_task id) w.tasks)),
  record w { tick = suc w.tick },
)

abbrev pub finish_row : TaskState → ℕ → Task → Task
finish_row s time t = record t { status = s; completed_at = some time }

abbrev pub complete_row : Text → ℕ → Task → Task
complete_row output time t = record t {
  status = completed;
  output_hash = some output;
  completed_at = some time;
}

unfoldable pub count_task : Option TaskType → TaskState → M Unit
count_task none s = pure tt
count_task (some t) s = count_metric (tasks_total t s)

unfoldable pub mark_complete : ℕ → Text → M Unit
unfolding select_type count_task
mark_complete id output = do
  t ← select_type id
  call (
      modify (λ w. record w {
        tasks = update_first (is_task id) (complete_row output (w.env.clock w.tick)) w.tasks;
      }))
  count_task t completed

-- A task whose deadline has passed goes back to pending, with no node.
abbrev pub is_timed_out : ℕ → Task → Bool
is_timed_out time t =
    (elim t.status [ TaskState.running ↦ true | _ ↦ false ]) && (elim t.started_at [
      | none ↦ false
      | some start ↦ ltb (start + t.timeout_seconds * 1000000000) time
    ])

abbrev pub requeue_row : Task → Task
requeue_row t = record t { status = task_pending; assigned_node = none; started_at = none }

unfoldable pub requeue_timed_out : M ℕ
requeue_timed_out = call (λ w. (
  ok (count_where (is_timed_out (w.env.clock w.tick)) w.tasks),
  record w { tasks = update_where (is_timed_out (w.env.clock w.tick)) requeue_row w.tasks },
))

module _ (fp : Float64) where
  unfoldable pub mark_failed : ℕ → ℕ → M Unit
  unfolding select_type count_task
  mark_failed id node = do
    t ← select_type id
    call (
        modify (λ w. record w {
          tasks = update_first (is_task id) (finish_row failed (w.env.clock w.tick)) w.tasks;
        }))
    count_task t failed
    update_reliability fp node false

  unfoldable pub assign : Bool → TaskType → Text → ℕ → Node → M Assignment
  unfolding persist_assignment compute_reward
  assign has_redis t input_hash timeout n = do
    r ← compute_reward fp n t
    id ← (λ w. (ok (w.env.uuid w.tick), w))
    time ← now
    let a = assignment n t timeout r id time
    persist_assignment has_redis a input_hash
    pure a

  unfoldable pub schedule : (ℕ → fp.F) → Bool → TaskType → Text → ℕ → M Assignment
  unfolding list_active filter_eligible select_node assign
  schedule random has_redis t input_hash timeout = do
    nodes ← list_active
    n ←
        or_raise (select_node fp random (filter_eligible nodes t (task_min_tier t)))
          no_eligible_nodes
    assign has_redis t input_hash timeout n
