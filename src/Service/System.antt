-- ===== src/Service/System.antt =====
-- The steps of the whole service, and its runs.
use open_world_model.Base.{ℕ, zero, suc, ◌≡◌, Bool, some, List, [], ◌∷◌, get_elem?, set}
use open_world_model.Base.Text.{Text}
use open_world_model.World.{World, TaskType}
use open_world_model.Float64.{Float64}
use open_world_model.Scheduler.{schedule, requeue_timed_out}
use open_world_model.Payment.{Followup, Submit, ReceiptDraft, submit_observer_receipt}
use open_world_model.Payment.Workers.{Worker, idle, num_workers, Move}
use open_world_model.Rpc.{TaskResult, submit_task_result}

-- The workers of `Start` and what they have left to the receipts' goroutines, latest first.
pub record System : Type 0 where
  pub workers : List Worker
  pub followups : List Followup
  pub world : World

abbrev pub idle_workers : ℕ → List Worker
idle_workers zero = []
idle_workers (suc n) = idle ∷ idle_workers n

-- The dispatcher just after `Start`.
abbrev pub started : World → System
started w = record { workers = idle_workers num_workers; followups = []; world = w }

abbrev pub in_world : System → World → System
in_world s w = record s { world = w }

module _ (fp : Float64) (has_observer : Bool) where
  -- One step of a worker.
  pub data Work (s : System) : System → Type 0 where
    work :
        (i : ℕ) {x y : Worker} {f : Followup} {w : World}
        → get_elem? s.workers i ≡ some x
        → Move has_observer s.world x f y w
        → Work s (record { workers = set s.workers i y; followups = f ∷ s.followups; world = w })

  -- What runs beside the workers: the scheduler, its ticker, and the receipts' goroutines.
  pub data Beside (w : World) : World → Type 0 where
    schedules :
        (random : ℕ → fp.F) (has_redis : Bool) (t : TaskType) (input : Text) (timeout : ℕ)
        → Beside w (schedule fp random has_redis t input timeout w).1
    requeues : Beside w (requeue_timed_out w).1
    sends_receipt :
        (submit : Submit) (draft : ReceiptDraft) (task : ℕ)
        → Beside w (submit_observer_receipt submit draft task w)

  -- A run from a state, with the number of the workers' steps and that of the results submitted.
  pub data Run (s : System) : ℕ → ℕ → System → Type 0 where
    start : Run s zero zero s
    works : {n m : ℕ} {t u : System} → Run s n m t → Work t u → Run s (suc n) m u
    submits :
        {n m : ℕ} {t : System} (has_dispatcher : Bool) (r : TaskResult)
        → Run s n m t
        → Run s n (suc m) (in_world t (submit_task_result fp has_dispatcher r t.world).1)
    others :
        {n m : ℕ} {t : System} {w : World}
        → Run s n m t
        → Beside t.world w
        → Run s n m (in_world t w)
