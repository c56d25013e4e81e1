-- ===== src/Service/Payments.antt =====
-- What no interleaving of the service can do to the payments.
use open_world_model.Base.{
  ℕ, zero, suc, ◌+◌, ◌*◌, ◌≤◌, ◌≡◌, ap, Bool, some, List, [], ◌∷◌, arith, length, get_elem?, set,
}
use open_world_model.World.{World}
use open_world_model.Float64.{Float64}
use open_world_model.Payment.Workers.{Worker, max_attempts}
use open_world_model.Payment.Workers.Bounds.{attempts_left, budget, Move-budget}
use open_world_model.Payment.Workers.Rows.{
  KeepsPaid, KeepsRows-KeepsPaid, KeepsRows, KeepsRows-refl, KeepsRows-trans, Move-KeepsRows,
}
use open_world_model.Rpc.{submit_task_result}
use open_world_model.Service.Frames.{IsQuiet, requeue_timed_out-IsQuiet, IsQuiet-refl}
use open_world_model.Service.Submission.{QueuesOne, length-Grows, submit_task_result-QueuesOne}
use open_world_model.Service.Assignments.{schedule-IsQuiet, submit_observer_receipt-IsQuiet}
use open_world_model.Service.System.{
  System, started, Work, work, Beside, schedules, requeues, sends_receipt, Run, start, works,
  submits, others,
}

-- The sum of a weight over the workers.
unfoldable pub total : (Worker → ℕ) → List Worker → ℕ
total f [] = 0
total f (x ∷ xs) = f x + total f xs

pub total-set :
    (f : Worker → ℕ) (xs : List Worker) (i : ℕ) {x : Worker} (y : Worker)
    → get_elem? xs i ≡ some x
    → total f (set xs i y) + f x ≡ total f xs + f y
unfolding total
total-set f [] i y h = ground arith
total-set f (z ∷ xs) zero {x} y h = let e : z ≡ x = ground arith in rw e (omega arith)
total-set f (z ∷ xs) (suc i) {x} y h = omega (arith, total-set f xs i {x = x} y h)

pub Beside-IsQuiet : {fp : Float64} {b : Bool} {w v : World} → Beside fp b w v → IsQuiet w v
Beside-IsQuiet {fp} {w = w} (schedules random redis t input timeout) =
    schedule-IsQuiet fp random redis t input timeout w
Beside-IsQuiet {w = w} requeues = requeue_timed_out-IsQuiet w w (IsQuiet-refl w)
Beside-IsQuiet {w = w} (sends_receipt submit draft task) =
    submit_observer_receipt-IsQuiet submit draft task w

-- What may still be sent, with what was sent.
pub potential : System → ℕ
unfolding total
potential s = budget s.world + total attempts_left s.workers

Work-potential :
    {fp : Float64} {b : Bool} {s t : System} → Work fp b s t → potential t ≤ potential s
unfolding potential
Work-potential {s = s} (work i {x = x} {y = y} h m) =
    omega (arith, Move-budget m, total-set attempts_left s.workers i {x = x} y h)

submit-potential : (w v : World) → QueuesOne w v → budget v ≤ budget w + max_attempts
submit-potential w v (p, q, k) = omega (arith, ap length p, length-Grows w v q)

quiet-budget : (w v : World) → IsQuiet w v → budget v ≡ budget w
quiet-budget w v (p, q, k) = omega (arith, ap length p, ap length q)

Run-potential :
    {fp : Float64} {b : Bool} {s : System} {n m : ℕ} {t : System}
    → Run fp b s n m t
    → potential t ≤ potential s + max_attempts * m
unfolding potential
Run-potential start = omega arith
Run-potential (works r st) = omega (arith, Run-potential r, Work-potential st)
Run-potential {fp} (submits {t = t} disp r h) = omega (
  arith,
  Run-potential h,
  submit-potential t.world (submit_task_result fp disp r t.world).1
      (submit_task_result-QueuesOne fp disp r t.world),
)
Run-potential (others {t = t} {w} h o) =
    omega (arith, Run-potential h, quiet-budget t.world w (Beside-IsQuiet o))

-- From the start of the dispatcher, however its workers, submitted results, schedules, requeues and
-- receipts interleave and whatever fails on the way, the payment requests that go out are at most
-- four for each job that was in the queue and for each result that was submitted.
pub Run-SendsAtMost :
    {fp : Float64} {b : Bool} {w : World} {n m : ℕ} {t : System}
    → Run fp b (started w) n m t
    → length t.world.payments ≤ length w.payments + max_attempts * (length w.queue + m)
unfolding total potential
Run-SendsAtMost r = omega (arith, Run-potential r)

pub Run-KeepsRows :
    {fp : Float64} {b : Bool} {s : System} {n m : ℕ} {t : System}
    → Run fp b s n m t
    → KeepsRows s.world.tasks t.world.tasks
Run-KeepsRows {s = s} start = KeepsRows-refl s.world.tasks
Run-KeepsRows {s = s} (works {t = t} {u = u} r (work i h m)) =
    KeepsRows-trans s.world.tasks t.world.tasks u.world.tasks (Run-KeepsRows r) (Move-KeepsRows m)
Run-KeepsRows {fp} {s = s} (submits {t = t} disp r h) =
    KeepsRows-trans s.world.tasks t.world.tasks _ (Run-KeepsRows h)
      (submit_task_result-QueuesOne fp disp r t.world).2
Run-KeepsRows {s = s} (others {t = t} {w = w} h o) =
    KeepsRows-trans s.world.tasks t.world.tasks w.tasks (Run-KeepsRows h) (Beside-IsQuiet o).2

-- What is paid stays paid: in every interleaving, a task that is paid keeps its status, its preimage
-- and its reward.
pub Run-KeepsPaid :
    {fp : Float64} {b : Bool} {s : System} {n m : ℕ} {t : System}
    → Run fp b s n m t
    → KeepsPaid s.world.tasks t.world.tasks
Run-KeepsPaid {s = s} {t = t} r = KeepsRows-KeepsPaid s.world.tasks t.world.tasks (Run-KeepsRows r)
