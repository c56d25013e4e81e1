-- ===== src/Payment/Queue.antt =====
-- The bound of the payment queue, at every way in.
use open_world_model.Base.{
  ◌≤◌, ◌≡◌, true, inl, inr, Option, none, some, List, [], ◌∷◌, arith, length, length-append, ltb,
  Bool-cases,
}
use open_world_model.Base.Text.{Text}
use open_world_model.World.{World, Task, PaymentJob}
use open_world_model.Payment.Defs.{
  queue_size, is_unpaid, job_of, enqueue, recover_task, recover_from, recover,
}

abbrev pub IsBounded : World → Type 0
IsBounded w = length w.queue ≤ queue_size

enqueue-IsBounded : (j : PaymentJob) (w : World) → IsBounded w → IsBounded (enqueue j w)
unfolding enqueue
enqueue-IsBounded j w h = elim (Bool-cases (ltb (length w.queue) queue_size)) [
  | inl e ↦ rw e (omega (arith, length-append w.queue (j ∷ []), room e))
  | inr e ↦ rw e h
]
  where
    room : ltb (length w.queue) queue_size ≡ true → length w.queue ≤ 999
    room e = ground arith

recover_task-IsBounded :
    (t : Task) (o : Option Text) (rest : World → World) (w : World)
    → ((v : World) → IsBounded v → IsBounded (rest v))
    → IsBounded w
    → IsBounded (recover_task t o rest w)
unfolding recover_task
recover_task-IsBounded t none rest w k h = elim (Bool-cases (is_unpaid t)) [
  | inl e ↦ rw e h
  | inr e ↦ rw e (k w h)
]
recover_task-IsBounded t (some uri) rest w k h = elim (Bool-cases (is_unpaid t)) [
  | inl e ↦ rw e (k _ (enqueue-IsBounded (job_of t uri) w h))
  | inr e ↦ rw e (k w h)
]

recover_from-IsBounded : (ts : List Task) (w : World) → IsBounded w → IsBounded (recover_from ts w)
unfolding recover_from
recover_from-IsBounded [] w h = h
recover_from-IsBounded (t ∷ ts) w h =
    recover_task-IsBounded t t.node_ln_uri (recover_from ts) w (recover_from-IsBounded ts) h

-- However many unpaid tasks the database holds when the dispatcher starts, the queue holds at most
-- 1000 jobs after the recovery if it did before.
pub recover-IsBounded : (w : World) → IsBounded w → IsBounded (recover w)
unfolding recover
recover-IsBounded w h = elim (Bool-cases (w.env.fails w.tick)) [
  | inl e ↦ rw e h
  | inr e ↦ rw e (recover_from-IsBounded w.tasks _ h)
]
