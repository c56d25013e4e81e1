-- ===== src/Service/Frames.antt =====
-- What the operations that the workers run beside leave of the payments: no request goes out, no
-- paid row changes its payment, no completed row its status, and one job at most is queued.
use open_world_model.Base.{
  ℕ, suc, ◌-◌, ◌≡◌, refl, ◌∙◌, Bool, true, false, inl, inr, Option, none, some, List, [], ◌∷◌, ◌==◌,
  arith, Bool-cases, find_where, update_first, if◌then◌else◌, ltb, update_where,
}
use open_world_model.Base.Int.{pos}
use open_world_model.Base.Text.{Text}
use open_world_model.World.{
  World, Node, Task, TaskType, TaskState, completed, ◌>>◌, M, Result, call, next, modify, bind_from,
}
use open_world_model.World.Frame.{Ends, bind-Ends, call-ends}
use open_world_model.Float64.{Float64}
use open_world_model.Registry.{
  has_id, update_reliability, registration_time, count_tasks, count_beats, store_reliability,
  found_time, compute_reliability,
}
use open_world_model.Scheduler.{
  is_task, select_type, count_task, found_type, complete_row, mark_complete, is_timed_out,
  requeue_row, requeue_timed_out,
}
use open_world_model.Payment.Workers.Rows.{
  Continues, Continues-refl, KeepsRows, KeepsRows-refl, KeepsRows-trans, update_first-KeepsRows,
}

-- No request went out, the queue is as it was, and what was paid or completed is.
abbrev pub IsQuiet : World → World → Type 0
IsQuiet w v = (v.payments ≡ w.payments) × (v.queue ≡ w.queue) × KeepsRows w.tasks v.tasks

pub IsQuiet-then : (u v w : World) → IsQuiet u v → IsQuiet v w → IsQuiet u w
IsQuiet-then u v w (p, q, k) (p', q', k') =
    (p' ∙ p, q' ∙ q, KeepsRows-trans u.tasks v.tasks w.tasks k k')

pub IsQuiet-refl : (w : World) → IsQuiet w w
IsQuiet-refl w = (refl, refl, KeepsRows-refl w.tasks)

abbrev EndsQuiet : World → {A : Type 0} → Result A × World → Type 0
EndsQuiet w p = Ends (IsQuiet w) p

pub bind-IsQuiet :
    {A B : Type 0} {f : A → M B} (w : World) (p : Result A × World)
    → IsQuiet w p.1
    → ((a : A) (v : World) → IsQuiet w v → Ends (IsQuiet w) (f a v))
    → Ends (IsQuiet w) (bind_from f p)
bind-IsQuiet w = bind-Ends (IsQuiet w) (IsQuiet w) (λ v h. h)

found_time-same : (fp : Float64) (o : Option Node) (w : World) → (found_time fp o w).1 ≡ w
unfolding found_time
found_time-same fp none w = refl
found_time-same fp (some n) w = refl

-- What holds whatever the ticks and the nodes are, holds after the update.
update_reliability-keeps :
    (fp : Float64) (id : ℕ) (b : Bool) (P : World → Type 0)
    → ((v : World) (ns : List Node) (k : ℕ) → P v → P (record v { nodes = ns; tick = k }))
    → (v : World) → P v
    → P (update_reliability fp id b v).1
unfolding update_reliability
update_reliability-keeps fp id b P stable v h = (by_parts).holds
  where
    next-keeps : (u : World) → P u → P (next u)
    next-keeps u k = stable u u.nodes (suc u.tick) k

    after_part :
        {A B : Type 0} {f : A → M B} (p : Result A × World)
        → P p.1
        → ((a : A) (u : World) → P u → Ends P (f a u))
        → Ends P (bind_from f p)
    after_part = bind-Ends P P (λ u k. k)

    by_parts : Ends P (update_reliability fp id b v)
    by_parts =
        after_part (call (registration_time fp id) v)
          (call-ends P (registration_time fp id) v (next-keeps v h)
            (rw (found_time-same fp (find_where (has_id id) v.nodes) (next v)) (next-keeps v h)))
          (λ registered v1 h1.
            let time = v1.env.clock v1.tick in
            let start =
              if ltb (time - 604800000000000) registered
              then registered
              else time - 604800000000000 in
            let k1 = next-keeps (next v1) (next-keeps v1 h1) in
            after_part (call (count_tasks fp id start) (next v1))
              (call-ends P (count_tasks fp id start) (next v1) k1 k1)
              (λ (total, finished) v2 h2.
                let k2 = next-keeps v2 h2 in
                after_part (call (count_beats fp id start) v2)
                  (call-ends P (count_beats fp id start) v2 k2 k2)
                  (λ received v3 h3.
                    let k3 = next-keeps (next v3) (next-keeps v3 h3) in
                    let r =
                      compute_reliability fp (pos finished) (pos total) (pos received)
                        (v3.env.clock v3.tick - start) in
                    record {
                      holds =
                          call-ends P
                            (store_reliability fp id (fp.to_numeric 4 r) (if b then 1 else 0))
                            (next v3) k3 (stable _ _ _ k3);
                    })))

pub update_reliability-IsQuiet :
    (fp : Float64) (id : ℕ) (b : Bool) (w v : World)
    → IsQuiet w v
    → IsQuiet w (update_reliability fp id b v).1
update_reliability-IsQuiet fp id b w v h =
    update_reliability-keeps fp id b (IsQuiet w) (λ u ns k q. q) v h

pub update_reliability-tasks :
    (fp : Float64) (id : ℕ) (b : Bool) (v : World)
    → (update_reliability fp id b v).1.tasks ≡ v.tasks
update_reliability-tasks fp id b v =
    update_reliability-keeps fp id b (λ u. u.tasks ≡ v.tasks) (λ u ns k e. e) v refl

count_task-IsQuiet :
    (o : Option TaskType) (s : TaskState) (w v : World)
    → IsQuiet w v
    → IsQuiet w (count_task o s v).1
unfolding count_task
count_task-IsQuiet none s w v h = h
count_task-IsQuiet (some t) s w v h = h

-- An UPDATE of one task row that leaves its id and continues it.
pub write_row-IsQuiet :
    (p : Task → Bool) (f : Task → Task)
    → ((t : Task) → (f t).task_id ≡ t.task_id)
    → ((t : Task) → Continues t (f t))
    → (w v : World) → IsQuiet w v
    → IsQuiet w (record v { tasks = update_first p f v.tasks })
write_row-IsQuiet p f same keep w v (a, b, c) = (
  a,
  b,
  KeepsRows-trans w.tasks v.tasks (update_first p f v.tasks) c
      (update_first-KeepsRows p f same (λ t h. keep t) v.tasks),
)

pub mark_complete-IsQuiet :
    (id : ℕ) (output : Text) (w v : World) → IsQuiet w v → IsQuiet w (mark_complete id output v).1
unfolding mark_complete select_type
mark_complete-IsQuiet id output w v h = written.holds
  where
    label : Option TaskType
    label = if v.env.fails v.tick then none else found_type (find_where (is_task id) v.tasks)

    after : World
    after = record v { tick = suc v.tick }

    write : M Unit
    write = modify (λ w. record w {
      tasks = update_first (is_task id) (complete_row output (w.env.clock w.tick)) w.tasks;
    })

    written : Ends (IsQuiet w) ((call write >> count_task label completed) after)
    written =
        bind-IsQuiet w (call write after)
          (call-ends (IsQuiet w) write after h (
            write_row-IsQuiet (is_task id) (complete_row output (after.env.clock (suc after.tick)))
              (λ t. refl) (λ t. ((λ p. (p, refl, refl)), λ d. (refl, refl, refl))) w (next after)
              h))
          (λ done u k. record { holds = count_task-IsQuiet label completed w u k })

-- A requeue changes every row that timed out, and no payment and no completed row.
update_where-KeepsRows :
    (p : Task → Bool) (f : Task → Task)
    → ((t : Task) → (f t).task_id ≡ t.task_id)
    → ((t : Task) → p t ≡ true → Continues t (f t))
    → (ts : List Task) → KeepsRows ts (update_where p f ts)
update_where-KeepsRows p f same keep [] id t e = ground arith
update_where-KeepsRows p f same keep (x ∷ ts) id t e = elim (Bool-cases (x.task_id == id)) [
  | inl i ↦
      let tx : t ≡ x = ground arith in
      elim (Bool-cases (p x)) [
        | inl px ↦ (f x, rw px (rw (same x) (rw i refl)), rw tx (keep x px))
        | inr px ↦ (x, rw px (rw i refl), rw tx (Continues-refl x))
      ]
  | inr i ↦
      let (u, g, k) = update_where-KeepsRows p f same keep ts id t (rw i at e) in
      elim (Bool-cases (p x)) [
        | inl px ↦ (u, rw px (rw (same x) (rw i g)), k)
        | inr px ↦ (u, rw px (rw i g), k)
      ]
]

-- A row that timed out is running.
timed_out-Continues :
    (time : ℕ) (t : Task) → is_timed_out time t ≡ true → Continues t (requeue_row t)
timed_out-Continues time t h =
    ((λ p. (p, refl, refl)), λ d. let n : false ≡ true = rw d at h in absurd cc)

pub requeue_timed_out-IsQuiet : (w v : World) → IsQuiet w v → IsQuiet w (requeue_timed_out v).1
unfolding requeue_timed_out
requeue_timed_out-IsQuiet w v (a, b, c) = elim (Bool-cases (v.env.fails v.tick)) [
  | inl e ↦ rw e (a, b, c)
  | inr e ↦
      let late = is_timed_out (v.env.clock (suc v.tick)) in
      rw e (
        a,
        b,
        KeepsRows-trans w.tasks v.tasks (update_where late requeue_row v.tasks) c (
            update_where-KeepsRows late requeue_row (λ t. refl)
              (timed_out-Continues (v.env.clock (suc v.tick))) v.tasks),
      )
]
