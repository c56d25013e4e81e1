-- ===== src/Service/Submission.antt =====
-- What one call of `SubmitTaskResult` leaves of the payments.
use open_world_model.Base.{
  ◌⊎◌, refl, ◌++◌, ℕ, ◌+◌, ◌≤◌, ◌≡◌, ap, Bool, true, false, inl, inr, Option, none, some, [], ◌∷◌,
  arith, Bool-cases, length, length-append, ltb, find_where,
}
use open_world_model.Base.Int.{ℤ}
use open_world_model.Base.Text.{Text, is_empty, encode_hex}
use open_world_model.World.{
  World, Node, Task, completed, call_failed, PaymentJob, M, Result, ok, err, Error,
  invalid_argument, permission_denied, call, next, attempt, branch, pure, bind_from, raise_if,
  ◌>>=◌, ◌>>◌, task_duration, count_metric,
}
use open_world_model.World.Frame.{Ends, bind-Ends, call-ends}
use open_world_model.Float64.{Float64}
use open_world_model.Registry.{has_id, update_reliability}
use open_world_model.Scheduler.{is_task, mark_complete}
use open_world_model.Payment.{queue_size, enqueue}
use open_world_model.Payment.Workers.Rows.{KeepsRows}
use open_world_model.Rpc.{
  TaskResult, TaskResultAck, PaymentStatus, payment_queued, accepted, parse_id, or_status,
  found_key, select_key, require_signature, pay_uri, pay_found, select_task, queue_payment,
  acknowledge, submit_task_result, verify_task_result_sig,
}
use open_world_model.Service.Completion.{OnlyDone, IsDue, read-OnlyDone, mark_complete-OnlyDone}
use open_world_model.Service.Frames.{
  IsQuiet, IsQuiet-refl, update_reliability-IsQuiet, update_reliability-tasks,
  mark_complete-IsQuiet,
}

-- The queue is as it was, or has one more job, which is due.
abbrev pub Grows : World → World → Type 0
Grows w v =
    (v.queue ≡ w.queue) ⊎ ((j : PaymentJob) × (v.queue ≡ w.queue ++ j ∷ []) × IsDue j v.tasks)

pub length-Grows : (w v : World) → Grows w v → length v.queue ≤ length w.queue + 1
length-Grows w v (inl q) = omega (arith, ap length q)
length-Grows w v (inr (j, q, d)) = omega (arith, ap length q, length-append w.queue (j ∷ []))

-- No request went out, what was paid or completed is, and one job at most came into the queue.
abbrev pub QueuesOne : World → World → Type 0
QueuesOne w v = (v.payments ≡ w.payments) × Grows w v × KeepsRows w.tasks v.tasks

quiet-QueuesOne : (w v : World) → IsQuiet w v → QueuesOne w v
quiet-QueuesOne w v (p, q, k) = (p, inl q, k)

bind-jobs :
    {A B : Type 0} {f : A → M B} (w : World) (p : Result A × World)
    → IsQuiet w p.1
    → ((a : A) (v : World) → IsQuiet w v → Ends (QueuesOne w) (f a v))
    → Ends (QueuesOne w) (bind_from f p)
bind-jobs w = bind-Ends (IsQuiet w) (QueuesOne w) (quiet-QueuesOne w)

enqueue-QueuesOne :
    (j : PaymentJob) (w v : World) → IsQuiet w v → IsDue j v.tasks → QueuesOne w (enqueue j v)
unfolding enqueue
enqueue-QueuesOne j w v (p, q, k) d = elim (Bool-cases (ltb (length v.queue) queue_size)) [
  | inl e ↦ rw e (p, inr (j, rw q refl, d), k)
  | inr e ↦ rw e (p, inl q, k)
]

queue_payment-QueuesOne :
    (fp : Float64) (id : ℕ) (o : Result (Option Task)) (w v : World)
    → IsQuiet w v
    → ((t : Task)
        → o ≡ ok (some t)
        → (find_where (is_task id) v.tasks ≡ some t) × (t.status ≡ completed))
    → QueuesOne w (queue_payment fp id o v).1
unfolding queue_payment pay_found pay_uri
queue_payment-QueuesOne fp id (err e) w v h d = quiet-QueuesOne w v h
queue_payment-QueuesOne fp id (ok none) w v h d = quiet-QueuesOne w v h
queue_payment-QueuesOne fp id (ok (some t)) w v h d = by_uri t.node_ln_uri refl
  where
    by_uri : (o : Option Text) → t.node_ln_uri ≡ o → QueuesOne w (pay_uri fp id t o v).1
    by_uri none e = quiet-QueuesOne w v h
    by_uri (some []) e = quiet-QueuesOne w v h
    by_uri (some (b ∷ uri)) e =
        let (found, finished) = d t refl in enqueue-QueuesOne _ w v h (t, found, finished, e, refl)

acknowledge-QueuesOne :
    (fp : Float64) (disp : Bool) (task node : ℕ) (ms : ℤ) (done : Result Unit) (w v : World)
    → IsQuiet w v
    → ((u : Unit {0}) → done ≡ ok u → OnlyDone task v.tasks)
    → Ends (QueuesOne w) (acknowledge fp disp task node ms done v)
unfolding acknowledge select_task
acknowledge-QueuesOne fp disp task node ms (err e) w v h d = record {
  holds = quiet-QueuesOne w v h;
}
acknowledge-QueuesOne fp disp task node ms (ok done) w v h d =
    bind-Ends (QueuesOne w) (QueuesOne w) (λ x q. q) {f = report} (queued updated) (at_queue disp)
      (λ status x q. record { holds = q })
  where
    updated : World
    updated = (update_reliability fp node true v).1

    report : PaymentStatus → M TaskResultAck
    report status = do count_metric (task_duration ms); pure (accepted status)

    queued : World → Result PaymentStatus × World
    queued =
        branch disp (do row ← attempt (call (select_task fp task)); queue_payment fp task row)
          (pure payment_queued)

    quiet : IsQuiet w updated
    quiet = update_reliability-IsQuiet fp node true w v h

    only : OnlyDone task updated.tasks
    only t e = d done refl t (rw (update_reliability-tasks fp node true v) at e)

    at_queue :
        (b : Bool)
        → QueuesOne w
            (branch b
              (do row ← attempt (call (select_task fp task)); queue_payment fp task row)
              (pure payment_queued)
              updated).1
    at_queue false = quiet-QueuesOne w updated quiet
    at_queue true = elim (Bool-cases (updated.env.fails updated.tick)) [
      | inl e ↦ rw e (
          queue_payment-QueuesOne fp task (err call_failed) w (next updated) quiet
            (λ t s. absurd cc))
      | inr e ↦ rw e (
          queue_payment-QueuesOne fp task (ok (find_where (is_task task) updated.tasks)) w
            (next updated) quiet (λ t s. read-OnlyDone task updated.tasks _ t only refl s))
    ]

require_signature-IsQuiet :
    (fp : Float64) (node : ℕ) (o : Option Error) (w v : World)
    → IsQuiet w v
    → IsQuiet w (require_signature fp node o v).1
unfolding require_signature
require_signature-IsQuiet fp node none w v h = h
require_signature-IsQuiet fp node (some e) w v h = update_reliability-IsQuiet fp node false w v h

found_key-IsQuiet :
    (fp : Float64) (o : Option Node) (w v : World) → IsQuiet w v → IsQuiet w (found_key fp o v).1
unfolding found_key
found_key-IsQuiet fp none w v h = h
found_key-IsQuiet fp (some n) w v h = h

or_status-IsQuiet :
    {A : Type 0} (e : Error) (r : Result A) (w v : World)
    → IsQuiet w v
    → IsQuiet w (or_status e r v).1
or_status-IsQuiet e (ok a) w v h = h
or_status-IsQuiet e (err x) w v h = h

-- However a submission ends, it sends nothing, leaves every paid row paid as it was and every
-- completed row completed, and queues at most one payment, which is due.
pub submit_task_result-QueuesOne :
    (fp : Float64) (disp : Bool) (r : TaskResult) (w : World)
    → QueuesOne w (submit_task_result fp disp r w).1
unfolding submit_task_result select_key
submit_task_result-QueuesOne fp disp r w = by_parts.holds
  where
    by_parts : Ends (QueuesOne w) (submit_task_result fp disp r w)
    by_parts = bind-jobs w (parse_id r.task_id w) (IsQuiet-refl w) (λ task v1 h1.
        bind-jobs w (parse_id r.node_id v1) h1 (λ node v2 h2.
          bind-jobs w (raise_if (is_empty r.signature) invalid_argument v2) h2 (λ checked v3 h3.
            bind-jobs w (attempt (call (select_key fp node)) v3)
              (call-ends (IsQuiet w) (select_key fp node) v3 h3
                (found_key-IsQuiet fp (find_where (has_id node) v3.nodes) w (next v3) h3))
              (λ read v4 h4.
                bind-jobs w (or_status permission_denied read v4)
                  (or_status-IsQuiet permission_denied read w v4 h4)
                  (λ key v5 h5.
                    let verdict =
                      verify_task_result_sig v5.env key r.task_id r.output_hash r.signature in
                    bind-jobs w (require_signature fp node verdict v5)
                      (require_signature-IsQuiet fp node verdict w v5 h5)
                      (λ signed v6 h6.
                        let complete = mark_complete task (encode_hex r.output_hash) in
                        acknowledge-QueuesOne fp disp task node r.exec_ms (complete v6).0 w
                          (complete v6).1
                          (mark_complete-IsQuiet task (encode_hex r.output_hash) w v6 h6)
                          (mark_complete-OnlyDone task (encode_hex r.output_hash) v6)))))))
