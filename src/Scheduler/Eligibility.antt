-- ===== src/Scheduler/Eligibility.antt =====
-- Who is assigned a task, and what the assignment writes.
use open_world_model.Base.{
  arith, ℕ, suc, ◌≡◌, refl, Bool, true, false, ◌&&◌, ◌⊎◌, inl, inr, not, some, List, [], ◌∷◌, ◌++◌,
  ltb, leb, Bool-cases, Option-cases, find_where, ◌∙◌, Memᴰ, cases_cons, select_where,
  Memᴰ-select_where,
}
use mathlib.Core.Path.{subst}
use open_world_model.Base.Text.{Text}
use open_world_model.World.{
  World, Node, TaskType, active, running, tasks_total, Result, ok, err, call, count_metric,
  bind_from, pure, next, NodeStatus, status_eq, ◌>>◌,
}
use open_world_model.Float64.{Float64}
use open_world_model.Registry.{list_active, sort_by_reliability, insert_by_reliability, is_active}
use open_world_model.Scheduler.Defs.{
  task_min_tier, tier_num, supports_task_type, score, filter_eligible, select_from, select_node,
  compute_reward, reward, stake_bonus,
}
use open_world_model.Scheduler.Methods.{
  Assignment, assignment, task_row, is_task, insert_found, insert_task, publish, persist_assignment,
  assign, schedule,
}

abbrev pub is_eligible : TaskType → ℕ → Node → Bool
is_eligible t min n = not (ltb (tier_num n.tier) min) && supports_task_type n.supported_task_types t

-- The loop keeps exactly the rows whose tier is high enough and that support the task's type, in
-- their order.
pub filter_eligible_lem :
    (ns : List Node) (t : TaskType) (min : ℕ)
    → filter_eligible ns t min ≡ select_where (is_eligible t min) ns
unfolding filter_eligible
filter_eligible_lem [] t min = refl
filter_eligible_lem (n ∷ ns) t min = elim (Bool-cases (ltb (tier_num n.tier) min)) [
  | inl e ↦ rw e (filter_eligible_lem ns t min)
  | inr e ↦ rw e (elim (Bool-cases (supports_task_type n.supported_task_types t)) [
    | inl s ↦ rw s (rw (filter_eligible_lem ns t min) refl)
    | inr s ↦ rw s (filter_eligible_lem ns t min)
  ])
]

module _ (fp : Float64) (random : ℕ → fp.F) where
  select_from-Memᴰ :
      (k : ℕ) (best : Node) (s : fp.F) (ns : List Node)
      → Memᴰ (select_from fp random k best s ns).0 (best ∷ ns)
  unfolding select_from
  select_from-Memᴰ k best s [] = Memᴰ.head refl
  select_from-Memᴰ k best s (n ∷ ns) = elim (Bool-cases (fp.lt s (score fp (random k) n))) [
    | inl e ↦
        rw (e, select_from) (Memᴰ.tail (select_from-Memᴰ (suc k) n (score fp (random k) n) ns))
    | inr e ↦
        rw (e, select_from)
          (elim (cases_cons (select_from-Memᴰ (suc k) best s ns)) [
            | inl h ↦ Memᴰ.head h
            | inr i ↦ Memᴰ.tail (Memᴰ.tail i)
          ])
  ]

  select_node-Memᴰ : (ns : List Node) {n : Node} → select_node fp random ns ≡ some n → Memᴰ n ns
  unfolding select_node
  select_node-Memᴰ [] h = ground arith
  select_node-Memᴰ (m ∷ ms) {n} h =
      elim (cases_cons (
        subst (λ x. Memᴰ x (m ∷ m ∷ ms)) chosen
          (select_from-Memᴰ 0 m (fp.sub (fp.ratio 0 1) (fp.ratio 1 1)) (m ∷ ms)))) [
            | inl e ↦ Memᴰ.head e
            | inr i ↦ i
          ]
    where
      chosen : (select_from fp random 0 m (fp.sub (fp.ratio 0 1) (fp.ratio 1 1)) (m ∷ ms)).0 ≡ n
      chosen = cc

insert_by_reliability-Memᴰ :
    (x m : Node) (ms : List Node) → Memᴰ x (insert_by_reliability m ms) → (x ≡ m) ⊎ Memᴰ x ms
unfolding insert_by_reliability
insert_by_reliability-Memᴰ x m [] i = cases_cons i
insert_by_reliability-Memᴰ x m (y ∷ ys) i = elim (Bool-cases (leb y.reliability m.reliability)) [
  | inl e ↦ cases_cons (rw e at i)
  | inr e ↦ elim (cases_cons (rw e at i)) [
    | inl h ↦ inr (Memᴰ.head h)
    | inr j ↦ elim (insert_by_reliability-Memᴰ x m ys j) [
      | inl h ↦ inl h
      | inr k ↦ inr (Memᴰ.tail k)
    ]
  ]
]

sort_by_reliability-Memᴰ : (x : Node) (ns : List Node) → Memᴰ x (sort_by_reliability ns) → Memᴰ x ns
unfolding sort_by_reliability
sort_by_reliability-Memᴰ x [] i = i
sort_by_reliability-Memᴰ x (n ∷ ns) i =
    elim (insert_by_reliability-Memᴰ x n (sort_by_reliability ns) i) [
      | inl h ↦ Memᴰ.head h
      | inr j ↦ Memᴰ.tail (sort_by_reliability-Memᴰ x ns j)
    ]

-- The assignment is to a row of the nodes that is active and eligible, and its task is the new last
-- row of the tasks.
abbrev pub IsAssigned : World → TaskType → Text → Result Assignment × World → Type 0
IsAssigned w t input_hash (ok a, w') =
    (n : Node) × Memᴰ n w.nodes
    × (n.status ≡ active)
    × (is_eligible t (task_min_tier t) n ≡ true)
    × (a.node_id ≡ n.node_id)
    × ((time : ℕ) × (w'.tasks ≡ w.tasks ++ task_row a input_hash time ∷ []))
IsAssigned w t input_hash (err e, w') = w'.tasks ≡ w.tasks

abbrev IsStored : World → Assignment → Text → Result (Unit {0}) × World → Type 0
IsStored w a input_hash (ok done, w') =
    (time : ℕ) × (w'.tasks ≡ w.tasks ++ task_row a input_hash time ∷ [])
IsStored w a input_hash (err e, w') = w'.tasks ≡ w.tasks

publish-tasks : (b : Bool) (a : Assignment) (w : World) → (publish b a w).1.tasks ≡ w.tasks
unfolding publish
publish-tasks true a w = ground arith
publish-tasks false a w = refl

publish-ok : (b : Bool) (a : Assignment) (w : World) → (publish b a w).0 ≡ ok tt
unfolding publish
publish-ok true a w = ground arith
publish-ok false a w = refl

insert_task-IsStored :
    (a : Assignment) (input_hash : Text) (w : World)
    → IsStored w a input_hash (call (insert_task a input_hash) w)
unfolding insert_task insert_found
insert_task-IsStored a input_hash w = elim (Bool-cases (w.env.fails w.tick)) [
  | inl e ↦ rw e refl
  | inr e ↦ rw e (elim (Option-cases (find_where (is_task a.task_id) w.tasks)) [
    | inl h ↦ rw h (w.env.clock (suc w.tick), refl)
    | inr (t, h) ↦ rw h refl
  ])
]

persist_assignment-IsStored :
    (b : Bool) (a : Assignment) (input_hash : Text) (w : World)
    → IsStored w a input_hash (persist_assignment b a input_hash w)
unfolding persist_assignment
persist_assignment-IsStored b a input_hash w =
    published (call (insert_task a input_hash) w) (insert_task-IsStored a input_hash w)
  where
    published :
        (p : Result (Unit {0}) × World)
        → IsStored w a input_hash p
        → IsStored w a input_hash
            (bind_from (λ x. count_metric (tasks_total a.task_type running) >> publish b a) p)
    published (ok done, w') (time, h) =
        rw
          (
            publish-ok b a (record w' { metrics = tasks_total a.task_type running ∷ w'.metrics }),
            IsStored,
          )
          (
            time,
            publish-tasks b a (record w' { metrics = tasks_total a.task_type running ∷ w'.metrics })
                ∙ h,
          )
    published (err e, w') h = h

status_eq-active : (s : NodeStatus) → status_eq s active ≡ true → s ≡ active
status_eq-active s h = ground arith

assign-IsAssigned :
    (fp : Float64) (b : Bool) (t : TaskType) (input_hash : Text) (timeout : ℕ) (n : Node)
    (w v : World)
    → Memᴰ n w.nodes
    → n.status ≡ active
    → is_eligible t (task_min_tier t) n ≡ true
    → v.tasks ≡ w.tasks
    → IsAssigned w t input_hash (assign fp b t input_hash timeout n v)
unfolding assign compute_reward
assign-IsAssigned fp b t input_hash timeout n w v i act el same =
    let a =
      assignment n t timeout (reward fp n t (stake_bonus fp n.node_id v)) (v.env.uuid (suc v.tick))
        (v.env.clock (suc v.tick)) in
    let v' = record v { tick = suc (suc v.tick) } in
    stored a (persist_assignment b a input_hash v') (persist_assignment-IsStored b a input_hash v')
      refl same
  where
    stored :
        (a : Assignment) (p : Result (Unit {0}) × World)
        → IsStored (record v { tick = suc (suc v.tick) }) a input_hash p
        → a.node_id ≡ n.node_id
        → v.tasks ≡ w.tasks
        → IsAssigned w t input_hash (bind_from (λ x. pure a) p)
    stored a (ok done, w') (time, h) e s = (n, i, act, el, e, (time, rw s at h))
    stored a (err x, w') h e s = h ∙ s

-- A task is assigned only to a registered node that is active, of a tier high enough and willing to
-- take its type, and then the tasks gain its running row; where `Schedule` returns an error, no task
-- is added.
pub schedule-IsAssigned :
    (fp : Float64) (random : ℕ → fp.F) (b : Bool) (t : TaskType) (input_hash : Text) (timeout : ℕ)
    (w : World)
    → IsAssigned w t input_hash (schedule fp random b t input_hash timeout w)
unfolding schedule list_active
schedule-IsAssigned fp random b t input_hash timeout w = elim (Bool-cases (w.env.fails w.tick)) [
  | inl e ↦ rw e refl
  | inr e ↦
      rw e (elim (Option-cases (select_node fp random (filter_eligible rows t (task_min_tier t)))) [
        | inl h ↦ rw h refl
        | inr (n, h) ↦
            let (i, el) = Memᴰ-select_where (is_eligible t (task_min_tier t)) rows (
              rw (filter_eligible_lem rows t (task_min_tier t)) at
                (select_node-Memᴰ fp random _ h)) in
            let (j, act) = Memᴰ-select_where is_active w.nodes (sort_by_reliability-Memᴰ n _ i) in
            rw h (
              assign-IsAssigned fp b t input_hash timeout n w (next w) j
                (status_eq-active n.status act) el refl)
      ])
]
  where
    rows : List Node
    rows = sort_by_reliability (select_where is_active w.nodes)
