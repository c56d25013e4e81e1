-- ===== src/Scheduler/Requeue.antt =====
-- What `RequeueTimedOut` leaves.
use open_world_model.Base.{
  ℕ, suc, ◌+◌, ◌*◌, ◌<◌, ◌≡◌, ◌⊎◌, refl, none, some, Option-cases, List, [], ◌∷◌, inl, inr, true,
  arith, Bool-cases, count_where, update_where,
}
use open_world_model.World.{World, Task, running, task_pending, Result, ok, err}
use open_world_model.Scheduler.Methods.{is_timed_out, requeue_row, requeue_timed_out}

-- A running task whose seconds have passed since its start.
abbrev pub IsLate : ℕ → Task → Type 0
IsLate time t =
    (t.status ≡ running)
    × ((start : ℕ) × (t.started_at ≡ some start) × (start + t.timeout_seconds * 1000000000 < time))

-- The task waits again, with no node and no start, and is the same otherwise.
abbrev pub WaitsAgain : Task → Task → Type 0
WaitsAgain t u =
    (u.status ≡ task_pending)
    × (u.assigned_node ≡ none)
    × (u.started_at ≡ none)
    × (u ≡ record t { status = task_pending; assigned_node = none; started_at = none })

-- Row by row, with the number of rows that changed.
abbrev pub Requeues : ℕ → List Task → List Task → ℕ → Type 0
Requeues time [] [] n = n ≡ 0
Requeues time [] (u ∷ us) n = ⊥
Requeues time (t ∷ ts) [] n = ⊥
Requeues time (t ∷ ts) (u ∷ us) n =
    (IsLate time t × WaitsAgain t u × ((m : ℕ) × (n ≡ suc m) × Requeues time ts us m))
    ⊎ ((¬ IsLate time t) × (u ≡ t) × Requeues time ts us n)

-- After a success the rows by the clock of the statement; after an error all are as they were.
abbrev pub IsRequeued : World → Result ℕ × World → Type 0
IsRequeued w (ok n, w') = Requeues (w.env.clock (suc w.tick)) w.tasks w'.tasks n
IsRequeued w (err e, w') = w'.tasks ≡ w.tasks

timed_out-IsLate : (time : ℕ) (t : Task) → is_timed_out time t ≡ true → IsLate time t
timed_out-IsLate time t h = elim (Option-cases t.started_at) [
  | inl e ↦ absurd (ground arith)
  | inr (start, e) ↦ (ground arith, (start, e, ground arith))
]

late-timed_out : (time : ℕ) (t : Task) → IsLate time t → is_timed_out time t ≡ true
late-timed_out time t (r, (start, e, passed)) = rw (r, e) (ground arith)

update_where-Requeues :
    (time : ℕ) (ts : List Task) (n : ℕ)
    → n ≡ count_where (is_timed_out time) ts
    → Requeues time ts (update_where (is_timed_out time) requeue_row ts) n
update_where-Requeues time [] n h = h
update_where-Requeues time (t ∷ ts) n h = elim (Bool-cases (is_timed_out time t)) [
  | inl e ↦
      let k : n ≡ suc (count_where (is_timed_out time) ts) = omega (arith, rw e at h) in
      rw e (
        inl (
          timed_out-IsLate time t e,
          (refl, refl, refl, refl),
          (count_where (is_timed_out time) ts, k, update_where-Requeues time ts _ refl),
        ))
  | inr e ↦
      let k : n ≡ count_where (is_timed_out time) ts = omega (arith, rw e at h) in
      rw e (
        inr (
          (λ late. absurd (ground (arith, late-timed_out time t late))),
          refl,
          update_where-Requeues time ts n k,
        ))
]

-- A requeue that succeeds makes of every running task past its deadline, at the clock of the
-- statement, a pending task with no node and no start, and leaves every other task as it was, in the
-- tasks' order; its result is the number of those that changed. One that fails changes no task.
pub requeue_timed_out-IsRequeued : (w : World) → IsRequeued w (requeue_timed_out w)
unfolding requeue_timed_out
requeue_timed_out-IsRequeued w = elim (Bool-cases (w.env.fails w.tick)) [
  | inl e ↦ rw e refl
  | inr e ↦ rw e (update_where-Requeues (w.env.clock (suc w.tick)) w.tasks _ refl)
]
