-- ===== src/Service/Completion.antt =====
-- What `MarkComplete` leaves in the task's row.
use open_world_model.Base.{
  ℕ, suc, ◌≡◌, refl, ◌∙◌, inl, inr, Option, none, some, List, [], ◌∷◌, ◌==◌, arith, Bool-cases,
  find_where, update_first,
}
use open_world_model.Base.Text.{Text}
use open_world_model.World.{
  World, Task, PaymentJob, TaskType, completed, call_failed, modify, M, Result, ok, err, call, ◌>>◌,
}
use open_world_model.Scheduler.{is_task, select_type, count_task, complete_row, mark_complete}

-- The row of the task, if there is one, is completed.
abbrev pub OnlyDone : ℕ → List Task → Type 0
OnlyDone id ts = (t : Task) → find_where (is_task id) ts ≡ some t → t.status ≡ completed

-- The job is due: its task is completed, by the node that it pays, for the amount that it pays.
abbrev pub IsDue : PaymentJob → List Task → Type 0
IsDue j ts =
    (t : Task) × (find_where (is_task j.task_id) ts ≡ some t)
    × (t.status ≡ completed)
    × (t.node_ln_uri ≡ some j.node_ln_uri)
    × (t.reward_sats ≡ j.amount_sats)

-- What `SELECT` reads of a completed task's row.
pub read-OnlyDone :
    (id : ℕ) (ts : List Task) (o : Option Task) (t : Task)
    → OnlyDone id ts
    → find_where (is_task id) ts ≡ o
    → ok o ≡ ok (some t)
    → (find_where (is_task id) ts ≡ some t) × (t.status ≡ completed)
read-OnlyDone id ts o t only found same = let e : o ≡ some t = cc in (found ∙ e, only t (found ∙ e))

-- An UPDATE that completes the task's row.
update_first-OnlyDone :
    (id : ℕ) (f : Task → Task)
    → ((t : Task) → (f t).task_id ≡ t.task_id)
    → ((t : Task) → (f t).status ≡ completed)
    → (ts : List Task) → OnlyDone id (update_first (is_task id) f ts)
update_first-OnlyDone id f same done [] t e = ground arith
update_first-OnlyDone id f same done (x ∷ ts) t e = elim (Bool-cases (x.task_id == id)) [
  | inl i ↦
      let here : find_where (is_task id) (f x ∷ ts) ≡ some (f x) = rw (same x) (rw i refl) in
      let e' : find_where (is_task id) (f x ∷ ts) ≡ some t = rw i at e in
      let tx : f x ≡ t = cc in rw (← tx) (done x)
  | inr i ↦ update_first-OnlyDone id f same done ts t (rw (i, i) at e)
]

pub mark_complete-OnlyDone :
    (id : ℕ) (output : Text) (v : World) (r : Unit {0})
    → (mark_complete id output v).0 ≡ ok r
    → OnlyDone id (mark_complete id output v).1.tasks
unfolding mark_complete select_type count_task
mark_complete-OnlyDone id output v r = written _
  where
    after : World
    after = record v { tick = suc v.tick }

    write : M Unit
    write = modify (λ w. record w {
      tasks = update_first (is_task id) (complete_row output (w.env.clock w.tick)) w.tasks;
    })

    counted :
        (o : Option TaskType) (u : World)
        → OnlyDone id u.tasks
        → OnlyDone id (count_task o completed u).1.tasks
    counted none u h = h
    counted (some t) u h = h

    written :
        (o : Option TaskType)
        → ((call write >> count_task o completed) after).0 ≡ ok r
        → OnlyDone id ((call write >> count_task o completed) after).1.tasks
    written o = elim (Bool-cases (after.env.fails after.tick)) [
      | inl e ↦
          rw e (λ h. let n : ◌≡◌ {A = Result (Unit {0})} (err call_failed) (ok r) = h in absurd cc)
      | inr e ↦ rw e (λ h.
          counted o _
            (update_first-OnlyDone id (complete_row output _) (λ t. refl) (λ t. refl) v.tasks))
    ]
