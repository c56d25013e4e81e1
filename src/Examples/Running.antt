-- ===== src/Examples/Running.antt =====
-- A job that is taken, paid for once and left, beside a result that is submitted.
use open_world_model.Base.{ℕ, zero, ◌+◌, ◌*◌, ◌≤◌, refl, true, [], ◌∷◌, arith, length}
use open_world_model.Base.Int.{pos}
use open_world_model.Base.Text.{codes}
use open_world_model.World.{World, paid, PaymentJob}
use open_world_model.Payment.Workers.{max_attempts, take, attempt_payment}
use open_world_model.Payment.Workers.Rows.{KeepsPaid}
use open_world_model.Rpc.{TaskResult}
use open_world_model.Service.System.{System, started, Run, start, works, submits, work}
use open_world_model.Service.Payments.{total, Run-SendsAtMost, Run-KeepsPaid}
use open_world_model.Service.Progress.{Run-IsFinite}
use open_world_model.Service.Liveness.{IsDrained, drains}
use open_world_model.Payment.{recover, recover_from, recover_task, enqueue}
use open_world_model.Service.Due.{OnlyDue}
use open_world_model.Service.Recovery.{Run-PaysDue}
use open_world_model.Examples.Fixtures.{milli, world, task}

abbrev job : PaymentJob
job = record { task_id = 7; node_ln_uri = codes "02ab@host:9735"; amount_sats = pos 12 }

abbrev queued : World
queued = record world { queue = job ∷ []; tasks = record task { payment_status = paid } ∷ [] }

abbrev unpaid : World
unpaid = record world { queue = []; payments = []; tasks = task ∷ [] }

abbrev result : TaskResult
result = record {
  task_id = codes "t";
  node_id = codes "n";
  output_hash = codes "out";
  signature = codes "sig";
  exec_ms = pos 20;
}

-- The first worker takes the job and sends once, and then a result comes in.
abbrev some_run : (t : System) × Run milli true (started queued) 2 1 t
some_run = (
  _,
  submits true result
      (works (works start (work 0 refl (take job refl))) (work 0 refl (attempt_payment job 3))),
)

Run-SendsAtMost_example :
    length some_run.0.world.payments
    ≤ length queued.payments + max_attempts * (length queued.queue + 1)
Run-SendsAtMost_example = Run-SendsAtMost some_run.1

Run-KeepsPaid_example : KeepsPaid queued.tasks some_run.0.world.tasks
Run-KeepsPaid_example = Run-KeepsPaid some_run.1

Run-IsFinite_example : 2 ≤ 10 + 6 * (length queued.queue + 1)
Run-IsFinite_example = Run-IsFinite some_run.1

drains_example : (k : ℕ) × (t : System) × Run milli true (started queued) k zero t × IsDrained t
unfolding total
drains_example = drains milli true (started queued) (omega arith)

-- The recovery queues the job, the first worker sends it once, and then a result comes in.
abbrev recovered_run : (t : System) × Run milli true (started (recover unpaid)) 2 1 t
unfolding recover recover_from recover_task enqueue
recovered_run = (
  _,
  submits true result
      (works (works start (work 0 refl (take job refl))) (work 0 refl (attempt_payment job 3))),
)

Run-PaysDue_example : OnlyDue recovered_run.0
Run-PaysDue_example = Run-PaysDue unpaid recovered_run.1 (tt, tt) refl refl
