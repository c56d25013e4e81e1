-- ===== src/Service/Assignments.antt =====
-- What `Schedule` and `submitObserverReceipt` leave of the payments.
use open_world_model.Base.{
  ℕ, suc, refl, Bool, true, false, not, ◌&&◌, inl, inr, Option, none, some, List, [], ◌∷◌, ◌++◌,
  ◌==◌, arith, Bool-cases, find_where, select_where,
}
use open_world_model.Base.Int.{ℤ}
use open_world_model.Base.Text.{Text, is_empty}
use open_world_model.World.{
  World, Node, Task, TaskType, M, ok, call, next, modify, or_raise, no_eligible_nodes,
}
use open_world_model.World.Frame.{Ends, call-ends}
use open_world_model.Float64.{Float64}
use open_world_model.Registry.{list_active, sort_by_reliability, is_active}
use open_world_model.Scheduler.{
  Assignment, assignment, is_task, insert_found, insert_task, publish, persist_assignment, assign,
  schedule, filter_eligible, select_node, task_min_tier, compute_reward, reward, stake_bonus,
}
use open_world_model.Payment.{
  Submit, ReceiptDraft, existing_receipt, receipt_row, store_receipt, record_answer,
  submit_observer_receipt,
}
use open_world_model.Payment.Workers.Rows.{Continues-refl, KeepsRows, KeepsRows-trans}
use open_world_model.Service.Frames.{IsQuiet, IsQuiet-refl, bind-IsQuiet, write_row-IsQuiet}

-- A new row stands behind the rows of the same id.
append-KeepsRows : (row : Task) (ts : List Task) → KeepsRows ts (ts ++ row ∷ [])
append-KeepsRows row [] id t e = ground arith
append-KeepsRows row (x ∷ ts) id t e = elim (Bool-cases (x.task_id == id)) [
  | inl i ↦ (t, rw i (rw i at e), Continues-refl t)
  | inr i ↦ let (u, g, k) = append-KeepsRows row ts id t (rw i at e) in (u, rw i g, k)
]

insert_found-IsQuiet :
    (o : Option Task) (row : Task) (w v : World) → IsQuiet w v → IsQuiet w (insert_found o row v).1
unfolding insert_found
insert_found-IsQuiet (some other) row w v h = h
insert_found-IsQuiet none row w v (a, b, c) =
    (a, b, KeepsRows-trans w.tasks v.tasks (v.tasks ++ row ∷ []) c (append-KeepsRows row v.tasks))

publish-IsQuiet :
    (b : Bool) (a : Assignment) (w v : World) → IsQuiet w v → IsQuiet w (publish b a v).1
unfolding publish
publish-IsQuiet false a w v h = h
publish-IsQuiet true a w v h =
    call-ends (IsQuiet w) (modify (λ u. record u { published = a.task_id ∷ u.published })) v h h

persist_assignment-IsQuiet :
    (b : Bool) (a : Assignment) (input : Text) (w v : World)
    → IsQuiet w v
    → IsQuiet w (persist_assignment b a input v).1
unfolding persist_assignment insert_task
persist_assignment-IsQuiet b a input w v h =
    (bind-IsQuiet w (call (insert_task a input) v)
      (call-ends (IsQuiet w) (insert_task a input) v h
        (insert_found-IsQuiet (find_where (is_task a.task_id) v.tasks) _ w (next v) h))
      (λ done u k. record { holds = publish-IsQuiet b a w _ k })).holds

assign-IsQuiet :
    (fp : Float64) (b : Bool) (t : TaskType) (input : Text) (timeout : ℕ) (n : Node) (w v : World)
    → IsQuiet w v
    → IsQuiet w (assign fp b t input timeout n v).1
unfolding assign compute_reward
assign-IsQuiet fp b t input timeout n w v h =
    let a : Assignment =
      assignment n t timeout (compute_reward_value v) (v.env.uuid (suc v.tick))
        (v.env.clock (suc v.tick)) in
    (bind-IsQuiet w (persist_assignment b a input (next (next v)))
      (persist_assignment-IsQuiet b a input w (next (next v)) h)
      (λ done u k. record { holds = k })).holds
  where
    compute_reward_value : World → ℤ
    compute_reward_value u = reward fp n t (stake_bonus fp n.node_id u)

-- However it ends, a call of `Schedule` sends nothing, queues nothing, and leaves every paid row.
pub schedule-IsQuiet :
    (fp : Float64) (random : ℕ → fp.F) (b : Bool) (t : TaskType) (input : Text) (timeout : ℕ)
    (w : World)
    → IsQuiet w (schedule fp random b t input timeout w).1
unfolding schedule list_active
schedule-IsQuiet fp random b t input timeout w = by_parts.holds
  where
    listed : M (List Node)
    listed v = (ok (sort_by_reliability (select_where is_active v.nodes)), v)

    by_parts : Ends (IsQuiet w) (schedule fp random b t input timeout w)
    by_parts =
        bind-IsQuiet w (call listed w)
          (call-ends (IsQuiet w) listed w (IsQuiet-refl w) (IsQuiet-refl w))
          (λ nodes v h.
            bind-IsQuiet w
              (or_raise (select_node fp random (filter_eligible nodes t (task_min_tier t)))
                no_eligible_nodes v)
              h (λ n u k. record { holds = assign-IsQuiet fp b t input timeout n w u k }))

store_receipt-IsQuiet :
    (id : ℕ) (receipt : Text) (o : Option Task) (w v : World)
    → IsQuiet w v
    → IsQuiet w (store_receipt id receipt o v)
unfolding store_receipt
store_receipt-IsQuiet id receipt none w v h = h
store_receipt-IsQuiet id receipt (some t) w v h =
    write_row-IsQuiet (is_task id) (receipt_row receipt) (λ t. refl)
      (λ t. ((λ p. (p, refl, refl)), λ d. (d, refl, refl))) w v h

record_answer-IsQuiet :
    (id : ℕ) (o : Option Text) (w v : World) → IsQuiet w v → IsQuiet w (record_answer id o v)
unfolding record_answer
record_answer-IsQuiet id none w v h = h
record_answer-IsQuiet id (some []) w v h = h
record_answer-IsQuiet id (some (b ∷ receipt)) w v h = elim (Bool-cases (v.env.fails v.tick)) [
  | inl e ↦ rw e h
  | inr e ↦
      rw e (store_receipt-IsQuiet id (b ∷ receipt) (find_where (is_task id) v.tasks) w (next v) h)
]

-- A receipt's goroutine writes the receipt's id only.
pub submit_observer_receipt-IsQuiet :
    (submit : Submit) (draft : ReceiptDraft) (id : ℕ) (w : World)
    → IsQuiet w (submit_observer_receipt submit draft id w)
unfolding submit_observer_receipt
submit_observer_receipt-IsQuiet submit draft id w =
    elim (Bool-cases (
      not (w.env.fails w.tick)
      && not (is_empty (existing_receipt (find_where (is_task id) w.tasks))))) [
        | inl e ↦ rw e (IsQuiet-refl w)
        | inr e ↦ rw e (
            record_answer-IsQuiet id (submit (suc w.tick) draft) w (next (next w)) (IsQuiet-refl w))
      ]
