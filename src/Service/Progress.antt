-- ===== src/Service/Progress.antt =====
-- The workers come to rest, and none of them is ever stuck before that.
use open_world_model.Base.{ℕ, suc, ◌+◌, ◌*◌, ◌≤◌, ◌≡◌, ap, Bool, arith, length}
use open_world_model.World.{World}
use open_world_model.Float64.{Float64}
use open_world_model.Payment.Workers.Bounds.{steps_left, Move-steps_left}
use open_world_model.Rpc.{submit_task_result}
use open_world_model.Service.Submission.{length-Grows, submit_task_result-QueuesOne}
use open_world_model.Service.Frames.{IsQuiet}
use open_world_model.Service.System.{
  System, started, Work, work, Run, start, works, submits, others,
}
use open_world_model.Service.Payments.{total, total-set, Beside-IsQuiet}

-- The steps that the workers may still make, with those for the jobs in the queue.
pub energy : System → ℕ
unfolding total
energy s = total steps_left s.workers + 6 * length s.world.queue

pub Work-energy :
    {fp : Float64} {b : Bool} {s t : System} → Work fp b s t → suc (energy t) ≤ energy s
unfolding energy
Work-energy {s = s} (work i {x = x} {y = y} h m) =
    omega (arith, Move-steps_left m, total-set steps_left s.workers i {x = x} y h)

quiet-length : (w v : World) → IsQuiet w v → length v.queue ≡ length w.queue
quiet-length w v (p, q, k) = ap length q

Run-energy :
    {fp : Float64} {b : Bool} {s : System} {n m : ℕ} {t : System}
    → Run fp b s n m t
    → n + energy t ≤ energy s + 6 * m
unfolding energy
Run-energy start = omega arith
Run-energy (works r st) = omega (arith, Run-energy r, Work-energy st)
Run-energy {fp} (submits {t = t} disp r h) = omega (
  arith,
  Run-energy h,
  length-Grows t.world (submit_task_result fp disp r t.world).1
      (submit_task_result-QueuesOne fp disp r t.world).1,
)
Run-energy (others {t = t} {w} h o) =
    omega (arith, Run-energy h, quiet-length t.world w (Beside-IsQuiet o))

-- No interleaving keeps the workers going for ever: from the start of the dispatcher they make at
-- most ten steps, and six more for each job that was in the queue and each result submitted.
pub Run-IsFinite :
    {fp : Float64} {b : Bool} {w : World} {n m : ℕ} {t : System}
    → Run fp b (started w) n m t
    → n ≤ 10 + 6 * (length w.queue + m)
unfolding total energy
Run-IsFinite r = omega (arith, Run-energy r)
