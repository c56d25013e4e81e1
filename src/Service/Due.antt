-- ===== src/Service/Due.antt =====
-- That the service pays for completed tasks only, whatever comes between whatever.
use open_world_model.Base.{ℕ, ◌≡◌, refl, ◌∙◌, Bool, inl, inr, List, [], ◌∷◌, set, All}
use open_world_model.Base.Everywhere.{All-map, All-append, All-set, All-get_elem?}
use open_world_model.World.{World, Task, PaymentJob, SendPaymentRequest}
use open_world_model.Float64.{Float64}
use open_world_model.Payment.{Outcome, refused, succeeded, unsettled, payment_request, send}
use open_world_model.Payment.Delivery.{send-payments, settle-payments, give_up-payments}
use open_world_model.Payment.Workers.{
  Worker, idle, trying, paying, stopped, after_send, Move, take, stop, leave, attempt_payment,
  record_payment, record_failure,
}
use open_world_model.Payment.Workers.Rows.{KeepsRows, Move-KeepsRows}
use open_world_model.Payment.Workers.Bounds.{send-queue, settle-queue, give_up-queue}
use open_world_model.Rpc.{submit_task_result}
use open_world_model.Service.Completion.{IsDue}
use open_world_model.Service.Submission.{Grows, QueuesOne, submit_task_result-QueuesOne}
use open_world_model.Service.Payments.{Beside-IsQuiet}
use open_world_model.Service.System.{
  System, in_world, Work, work, Run, start, works, submits, others,
}

KeepsRows-IsDue : (ts us : List Task) → KeepsRows ts us → (j : PaymentJob) → IsDue j ts → IsDue j us
KeepsRows-IsDue ts us k j (t, found, finished, uri, reward) =
    let (u, there, (paid, same)) = k j.task_id t found in
    let (finished', reward', uri') = same finished in
    (u, there, finished', uri' ∙ uri, reward' ∙ reward)

-- What a worker holds is due.
abbrev pub HoldsDue : List Task → Worker → Type 0
HoldsDue ts idle = Unit
HoldsDue ts (trying j k) = IsDue j ts
HoldsDue ts (paying j preimage) = IsDue j ts
HoldsDue ts stopped = Unit

KeepsRows-HoldsDue :
    (ts us : List Task) → KeepsRows ts us → (x : Worker) → HoldsDue ts x → HoldsDue us x
KeepsRows-HoldsDue ts us k idle h = tt
KeepsRows-HoldsDue ts us k (trying j n) h = KeepsRows-IsDue ts us k j h
KeepsRows-HoldsDue ts us k (paying j p) h = KeepsRows-IsDue ts us k j h
KeepsRows-HoldsDue ts us k stopped h = tt

-- The request pays a job that is due.
abbrev pub PaysDue : List Task → SendPaymentRequest → Type 0
PaysDue ts r = (j : PaymentJob) × (r ≡ payment_request j) × IsDue j ts

-- The jobs that wait and the requests that went out, by the rows of the tasks.
abbrev pub QueueIsDue : List Task → World → Type 0
QueueIsDue ts w = All (λ (j : PaymentJob). IsDue j ts) w.queue × All (PaysDue ts) w.payments

KeepsRows-QueueIsDue :
    (ts us : List Task) (w : World) → KeepsRows ts us → QueueIsDue ts w → QueueIsDue us w
KeepsRows-QueueIsDue ts us w k (q, p) = (
  All-map (KeepsRows-IsDue ts us k) w.queue q,
  All-map (λ r (j, e, d). (j, e, KeepsRows-IsDue ts us k j d)) w.payments p,
)

-- Every job in the queue or in a worker's hands and every request that went out is due.
abbrev pub OnlyDue : System → Type 0
OnlyDue s = QueueIsDue s.world.tasks s.world × All (HoldsDue s.world.tasks) s.workers

after_send-HoldsDue :
    (ts : List Task) (j : PaymentJob) (k : ℕ) (o : Outcome)
    → IsDue j ts
    → HoldsDue ts (after_send j k o)
after_send-HoldsDue ts j k refused d = d
after_send-HoldsDue ts j k (succeeded p) d = d
after_send-HoldsDue ts j k unsettled d = d

-- A step of a worker, by the rows before it.
Move-HoldsDue :
    {b : Bool} {w v : World} {x y : Worker} {f : _}
    → Move b w x f y v
    → QueueIsDue w.tasks w
    → HoldsDue w.tasks x
    → QueueIsDue w.tasks v × HoldsDue w.tasks y
Move-HoldsDue (take j e) (q, p) d = let (h, hs) = rw e at q in ((hs, p), h)
Move-HoldsDue stop q d = (q, tt)
Move-HoldsDue (leave j k h) q d = (q, tt)
Move-HoldsDue {w = w} (attempt_payment j k) (q, p) d = (
  (rw (send-queue j w) q, rw (send-payments (payment_request j) w) ((j, refl, d), p)),
  after_send-HoldsDue w.tasks j k (send (payment_request j) w).0 d,
)
Move-HoldsDue {b} {w} (record_payment j x) (q, p) d =
    ((rw (settle-queue b j x w) q, rw (settle-payments b j x w) p), tt)
Move-HoldsDue {w = w} (record_failure j) (q, p) d =
    ((rw (give_up-queue j w) q, rw (give_up-payments j w) p), tt)

Work-OnlyDue : {fp : Float64} {b : Bool} {s t : System} → Work fp b s t → OnlyDue s → OnlyDue t
Work-OnlyDue {s = s} (work i {y = y} {w = v} e m) (q, h) =
    let k = Move-KeepsRows m in
    let (q', d) = Move-HoldsDue m q (All-get_elem? _ s.workers i e h) in
    (
      KeepsRows-QueueIsDue s.world.tasks v.tasks v k q',
      All-map (KeepsRows-HoldsDue s.world.tasks v.tasks k) (set s.workers i y)
          (All-set _ s.workers i y d h),
    )

submit-QueueIsDue : (w v : World) → QueuesOne w v → QueueIsDue w.tasks w → QueueIsDue v.tasks v
submit-QueueIsDue w v (p, grown, k) (q, h) = (by_queue grown, rw p kept.1)
  where
    kept : QueueIsDue v.tasks w
    kept = KeepsRows-QueueIsDue w.tasks v.tasks w k (q, h)

    by_queue : Grows w v → All (λ (j : PaymentJob). IsDue j v.tasks) v.queue
    by_queue (inl e) = rw e kept.0
    by_queue (inr (j, e, d)) = rw e (All-append _ w.queue (j ∷ []) kept.0 (d, tt))

-- What comes beside the workers.
world-OnlyDue : (t : System) (v : World) → QueuesOne t.world v → OnlyDue t → OnlyDue (in_world t v)
world-OnlyDue t v (p, grown, k) (q, h) = (
  submit-QueueIsDue t.world v (p, grown, k) q,
  All-map (KeepsRows-HoldsDue t.world.tasks v.tasks k) t.workers h,
)

pub Run-OnlyDue :
    {fp : Float64} {b : Bool} {s : System} {n m : ℕ} {t : System}
    → Run fp b s n m t
    → OnlyDue s
    → OnlyDue t
Run-OnlyDue start h = h
Run-OnlyDue (works r st) h = Work-OnlyDue st (Run-OnlyDue r h)
Run-OnlyDue {fp} (submits {t = t} disp r run) h =
    world-OnlyDue t (submit_task_result fp disp r t.world).1
      (submit_task_result-QueuesOne fp disp r t.world) (Run-OnlyDue run h)
Run-OnlyDue (others {t = t} {w = v} run o) h =
    let (p, e, k) = Beside-IsQuiet o in world-OnlyDue t v (p, inl e, k) (Run-OnlyDue run h)
