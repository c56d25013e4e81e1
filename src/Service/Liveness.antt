-- ===== src/Service/Liveness.antt =====
-- The workers can always empty the queue.
use open_world_model.Base.{
  ℕ, zero, suc, ◌<◌, ◌≡◌, refl, Bool, ◌⊎◌, inl, inr, some, List, [], ◌∷◌, arith, get_elem?, set,
}
use native.Mathlib.Decide.{dec_lt}
use open_world_model.World.{World, PaymentJob}
use open_world_model.Float64.{Float64}
use open_world_model.Payment.{
  Outcome, refused, succeeded, unsettled, Followup, payment_request, send,
}
use open_world_model.Payment.Workers.{
  Worker, idle, trying, paying, stopped, Move, take, attempt_payment, record_payment,
  record_failure, after_send,
}
use open_world_model.Service.System.{System, Work, work, Run, start, works}
use open_world_model.Service.Payments.{total, total-set}
use open_world_model.Service.Progress.{energy, Work-energy}

-- A worker that has a job.
abbrev pub busy : Worker → ℕ
busy idle = 0
busy (trying j k) = 1
busy (paying j p) = 1
busy stopped = 0

-- A worker that has not returned.
abbrev pub live : Worker → ℕ
live idle = 1
live (trying j k) = 1
live (paying j p) = 1
live stopped = 0

-- A worker of a positive weight.
find_worker :
    (f : Worker → ℕ) (xs : List Worker)
    → (total f xs ≡ 0) ⊎ ((i : ℕ) × (x : Worker) × (get_elem? xs i ≡ some x) × (0 < f x))
unfolding total
find_worker f [] = inl refl
find_worker f (x ∷ xs) = elim (dec_lt 0 (f x)) [
  | yes h ↦ inr (0, x, refl, h)
  | no h ↦ elim (find_worker f xs) [
    | inl e ↦ inl (omega arith)
    | inr (i, y, e, h') ↦ inr (suc i, y, e, h')
  ]
]

after_send-live : (j : PaymentJob) (k : ℕ) (o : Outcome) → live (after_send j k o) ≡ 1
after_send-live j k refused = refl
after_send-live j k (succeeded p) = refl
after_send-live j k unsettled = refl

busy-live : (x : Worker) → 0 < busy x → live x ≡ 1
busy-live idle h = absurd (omega arith)
busy-live (trying j k) h = refl
busy-live (paying j p) h = refl
busy-live stopped h = absurd (omega arith)

live-one : (x : Worker) → 0 < live x → live x ≡ 1
live-one idle h = refl
live-one (trying j k) h = refl
live-one (paying j p) h = refl
live-one stopped h = absurd (omega arith)

-- A step of one worker, after which it has not returned.
abbrev CanMove : Bool → World → Worker → Type 0
CanMove b w x = (f : Followup) × (y : Worker) × (v : World) × Move b w x f y v × (live y ≡ 1)

busy-CanMove : (b : Bool) (w : World) (x : Worker) → 0 < busy x → CanMove b w x
busy-CanMove b w idle h = absurd (omega arith)
busy-CanMove b w (trying j zero) h = (_, _, _, record_failure j, refl)
busy-CanMove b w (trying j (suc k)) h =
    (_, _, _, attempt_payment j k, after_send-live j k (send (payment_request j) w).0)
busy-CanMove b w (paying j p) h = (_, _, _, record_payment j p, refl)
busy-CanMove b w stopped h = absurd (omega arith)

waiting-CanMove :
    (b : Bool) (w : World) (x : Worker) (j : PaymentJob) (js : List PaymentJob)
    → w.queue ≡ j ∷ js
    → 0 < live x
    → CanMove b w x
waiting-CanMove b w idle j js e h = (_, _, _, take j e, refl)
waiting-CanMove b w (trying j' k) j js e h = busy-CanMove b w (trying j' k) (omega arith)
waiting-CanMove b w (paying j' p) j js e h = busy-CanMove b w (paying j' p) (omega arith)
waiting-CanMove b w stopped j js e h = absurd (omega arith)

-- No job waits, and no worker has one.
abbrev pub IsDrained : System → Type 0
IsDrained s = (s.world.queue ≡ []) × (total busy s.workers ≡ 0)

queue-cases :
    (js : List PaymentJob) → (js ≡ []) ⊎ ((j : PaymentJob) × (ks : List PaymentJob) × (js ≡ j ∷ ks))
queue-cases [] = inl refl
queue-cases (j ∷ ks) = inr (j, ks, refl)

-- Some worker can move, or there is nothing left to do.
next_move :
    (b : Bool) (t : System)
    → 0 < total live t.workers
    → IsDrained t
      ⊎ ((i : ℕ) × (x : Worker) × (get_elem? t.workers i ≡ some x)
          × CanMove b t.world x
          × (live x ≡ 1))
next_move b t h = elim (find_worker busy t.workers) [
  | inr (i, x, e, p) ↦ inr (i, x, e, busy-CanMove b t.world x p, busy-live x p)
  | inl none_busy ↦ elim (queue-cases t.world.queue) [
    | inl empty ↦ inl (empty, none_busy)
    | inr (j, js, e) ↦ elim (find_worker live t.workers) [
      | inl dead ↦ absurd (omega arith)
      | inr (i, x, g, p) ↦ inr (i, x, g, waiting-CanMove b t.world x j js e p, live-one x p)
    ]
  ]
]

module _ {fp : Float64} {b : Bool} {s : System} where
  drain_from :
      (fuel n : ℕ) (t : System)
      → energy t < fuel
      → 0 < total live t.workers
      → Run fp b s n zero t
      → (k : ℕ) × (u : System) × Run fp b s k zero u × IsDrained u
  drain_from zero n t lt h r = absurd (omega arith)
  drain_from (suc fuel) n t lt h r = elim (next_move b t h) [
    | inl done ↦ (n, t, r, done)
    | inr (i, x, e, (f, y, v, m, alive), was) ↦
        let u : System = record {
          workers = set t.workers i y;
          followups = f ∷ t.followups;
          world = v;
        } in
        let st : Work fp b t u = work i e m in
        drain_from fuel (suc n) u (omega (arith, Work-energy st))
          (omega (arith, total-set live t.workers i {x = x} y e)) (works r st)
  ]

-- As long as one worker has not returned, the workers can by their own steps finish every job that
-- they have and every job in the queue, whatever fails on the way.
pub drains :
    (fp : Float64) (b : Bool) (s : System)
    → 0 < total live s.workers
    → (k : ℕ) × (t : System) × Run fp b s k zero t × IsDrained t
drains fp b s h = drain_from (suc (energy s)) zero s (omega arith) h start
