-- ===== src/Service/Recovery.antt =====
-- The service from the recovery of `Start` on.
use open_world_model.Base.{
  ℕ, zero, suc, ◌≡◌, refl, ◌∙◌, Bool, true, false, inl, inr, Option, none, some, List, [], ◌∷◌,
  ◌==◌, arith, Bool-cases, find_where, All, ltb, length,
}
use open_world_model.Base.Everywhere.{All-append}
use open_world_model.Base.Text.{Text}
use open_world_model.World.{World, Task, PaymentJob, completed, next}
use open_world_model.Float64.{Float64}
use open_world_model.Scheduler.{is_task}
use open_world_model.Payment.{
  queue_size, is_unpaid, job_of, enqueue, recover_task, recover_from, recover,
}
use open_world_model.Payment.Workers.{num_workers}
use open_world_model.Service.Completion.{IsDue}
use open_world_model.Service.Due.{HoldsDue, OnlyDue, Run-OnlyDue}
use open_world_model.Service.System.{System, idle_workers, started, Run}

-- The task's id is the primary key.
abbrev pub IsKeyed : List Task → Type 0
IsKeyed [] = Unit
IsKeyed (t ∷ ts) = All (λ (u : Task). (t.task_id == u.task_id) ≡ false) ts × IsKeyed ts

abbrev IsFound : List Task → Task → Type 0
IsFound ts t = find_where (is_task t.task_id) ts ≡ some t

behind-IsFound :
    (t : Task) (ts us : List Task)
    → All (λ (u : Task). (t.task_id == u.task_id) ≡ false) us
    → All (IsFound ts) us
    → All (IsFound (t ∷ ts)) us
behind-IsFound t ts [] h k = tt
behind-IsFound t ts (u ∷ us) (h, hs) (k, ks) = (rw h k, behind-IsFound t ts us hs ks)

IsKeyed-IsFound : (ts : List Task) → IsKeyed ts → All (IsFound ts) ts
IsKeyed-IsFound [] h = tt
IsKeyed-IsFound (t ∷ ts) (h, hs) = (ground arith, behind-IsFound t ts ts h (IsKeyed-IsFound ts hs))

unpaid-completed : (t : Task) → is_unpaid t ≡ true → t.status ≡ completed
unpaid-completed t h = ground arith

module _ (ts : List Task) where
  abbrev AllDue : World → Type 0
  AllDue w = All (λ (j : PaymentJob). IsDue j ts) w.queue

  enqueue-AllDue : (j : PaymentJob) (w : World) → IsDue j ts → AllDue w → AllDue (enqueue j w)
  unfolding enqueue
  enqueue-AllDue j w d h = elim (Bool-cases (ltb (length w.queue) queue_size)) [
    | inl e ↦ rw e (All-append _ w.queue (j ∷ []) h (d, tt))
    | inr e ↦ rw e h
  ]

  recover_task-AllDue :
      (t : Task) (o : Option Text) (rest : World → World) (w : World)
      → ((v : World) → AllDue v → AllDue (rest v))
      → IsFound ts t
      → t.node_ln_uri ≡ o
      → AllDue w
      → AllDue (recover_task t o rest w)
  unfolding recover_task
  recover_task-AllDue t none rest w k found uri h = elim (Bool-cases (is_unpaid t)) [
    | inl e ↦ rw e h
    | inr e ↦ rw e (k w h)
  ]
  recover_task-AllDue t (some x) rest w k found uri h = elim (Bool-cases (is_unpaid t)) [
    | inl e ↦
        rw e (k _ (enqueue-AllDue (job_of t x) w (t, found, unpaid-completed t e, uri, refl) h))
    | inr e ↦ rw e (k w h)
  ]

  recover_from-AllDue :
      (us : List Task) (w : World) → All (IsFound ts) us → AllDue w → AllDue (recover_from us w)
  unfolding recover_from
  recover_from-AllDue [] w found h = h
  recover_from-AllDue (u ∷ us) w (found, more) h =
      recover_task-AllDue u u.node_ln_uri (recover_from us) w
        (λ v k. recover_from-AllDue us v more k) found refl h

-- The tasks and the requests of another state.
abbrev KeepsSent : World → World → Type 0
KeepsSent w v = (v.tasks ≡ w.tasks) × (v.payments ≡ w.payments)

enqueue-KeepsSent : (j : PaymentJob) (w : World) → KeepsSent w (enqueue j w)
unfolding enqueue
enqueue-KeepsSent j w = ground arith

-- The recovery reads the tasks and sends nothing.
recover_task-KeepsSent :
    (t : Task) (o : Option Text) (rest : World → World) (w : World)
    → ((v : World) → KeepsSent v (rest v))
    → KeepsSent w (recover_task t o rest w)
unfolding recover_task
recover_task-KeepsSent t none rest w k = elim (Bool-cases (is_unpaid t)) [
  | inl e ↦ rw e (refl, refl)
  | inr e ↦ rw e (k w)
]
recover_task-KeepsSent t (some x) rest w k = elim (Bool-cases (is_unpaid t)) [
  | inl e ↦
      let (p, q) = k (enqueue (job_of t x) w) in
      let (p', q') = enqueue-KeepsSent (job_of t x) w in rw e (p ∙ p', q ∙ q')
  | inr e ↦ rw e (k w)
]

recover_from-KeepsSent : (us : List Task) (w : World) → KeepsSent w (recover_from us w)
unfolding recover_from
recover_from-KeepsSent [] w = (refl, refl)
recover_from-KeepsSent (u ∷ us) w =
    recover_task-KeepsSent u u.node_ln_uri (recover_from us) w (recover_from-KeepsSent us)

idle_workers-HoldsDue : (ts : List Task) (n : ℕ) → All (HoldsDue ts) (idle_workers n)
idle_workers-HoldsDue ts zero = tt
idle_workers-HoldsDue ts (suc n) = (tt, idle_workers-HoldsDue ts n)

recover-OnlyDue :
    (w : World) → IsKeyed w.tasks → w.queue ≡ [] → w.payments ≡ [] → OnlyDue (started (recover w))
unfolding recover
recover-OnlyDue w keyed empty unsent = elim (Bool-cases (w.env.fails w.tick)) [
  | inl e ↦ rw e ((rw empty tt, rw unsent tt), idle_workers-HoldsDue w.tasks num_workers)
  | inr e ↦
      let (same, sent) = recover_from-KeepsSent w.tasks (next w) in
      rw e (
        (
          rw same (
              recover_from-AllDue w.tasks w.tasks (next w) (IsKeyed-IsFound w.tasks keyed)
                (rw empty tt)),
          rw (sent ∙ unsent) tt,
        ),
        idle_workers-HoldsDue (recover_from w.tasks (next w)).tasks num_workers,
      )
]

-- From the recovery of `Start` on, with no two tasks of one id, an empty queue and nothing sent,
-- however the workers, submitted results, schedules, requeues and receipts interleave and whatever
-- fails on the way: every job in the queue, every job in a worker's hands and every payment request
-- that went out is for a task that is completed, to the Lightning address in the task's row and for
-- its reward.
pub Run-PaysDue :
    {fp : Float64} {b : Bool} (w : World) {n m : ℕ} {t : System}
    → Run fp b (started (recover w)) n m t
    → IsKeyed w.tasks
    → w.queue ≡ []
    → w.payments ≡ []
    → OnlyDue t
Run-PaysDue w r keyed empty unsent = Run-OnlyDue r (recover-OnlyDue w keyed empty unsent)
