-- ===== src/Payment/Delivery.antt =====
-- What the worker sends for one job, and what it writes to the job's row.
use open_world_model.Base.{
  ℕ, zero, suc, ◌≤◌, ◌≡◌, refl, Bool, true, false, ◌⊎◌, inl, inr, List, ◌∷◌, arith, Bool-cases,
  update_first, ◌∙◌, sym, ap, if◌then◌else◌, ◌==◌,
}
use mathlib.Core.Path.{subst}
use open_world_model.Base.Text.{Text}
use open_world_model.World.{World, Env, Task, PaymentJob, SendPaymentRequest}
use open_world_model.Payment.Defs.{
  Outcome, outcome_of, refused, succeeded, unsettled, Followup, nothing, receipt, payment_request,
  is_payable, pay_row, fail_row, send, settle, give_up, retry, process,
}

-- The same request so many times, before what was sent earlier.
abbrev pub sent : ℕ → SendPaymentRequest → List SendPaymentRequest → List SendPaymentRequest
sent zero req old = old
sent (suc n) req old = req ∷ sent n req old

-- A job sends its own request only, and at most `k` times.
abbrev pub SendsAtMost : ℕ → PaymentJob → World → World → Type 0
SendsAtMost k j w w' = (n : ℕ) × (n ≤ k) × (w'.payments ≡ sent n (payment_request j) w.payments)

sent_through :
    (n : ℕ) (req : SendPaymentRequest) {v old : List SendPaymentRequest}
    → v ≡ req ∷ old
    → sent n req v ≡ sent (suc n) req old
sent_through zero req h = h
sent_through (suc n) req h = ap (λ l. req ∷ l) (sent_through n req h)

pub settle-payments :
    (b : Bool) (j : PaymentJob) (p : Text) (w : World) → (settle b j p w).1.payments ≡ w.payments
unfolding settle
settle-payments b j p w = ground arith

pub give_up-payments : (j : PaymentJob) (w : World) → (give_up j w).payments ≡ w.payments
unfolding give_up
give_up-payments j w = refl

pub send-payments :
    (req : SendPaymentRequest) (w : World) → (send req w).1.payments ≡ req ∷ w.payments
unfolding send
send-payments req w = ground arith

pub send-tasks : (req : SendPaymentRequest) (w : World) → (send req w).1.tasks ≡ w.tasks
unfolding send
send-tasks req w = ground arith

pub send-env : (req : SendPaymentRequest) (w : World) → (send req w).1.env ≡ w.env
unfolding send
send-env req w = ground arith

abbrev pub Answers : Env → Type 0
Answers env = (n : ℕ) (req : SendPaymentRequest) → outcome_of (env.send_payment n req) ≡ unsettled

-- No call of the Lightning node is answered by a success.
abbrev pub Unanswered : World → Type 0
Unanswered w = Answers w.env

abbrev IsOpen : Outcome → Type 0
IsOpen (succeeded p) = ⊥
IsOpen refused = Unit
IsOpen unsettled = Unit

send-Unanswered : (req : SendPaymentRequest) (w : World) → Unanswered w → IsOpen (send req w).0
unfolding send
send-Unanswered req w u = elim (Bool-cases (w.env.fails w.tick)) [
  | inl e ↦ rw e tt
  | inr e ↦ rw e (rw (u w.tick req) tt)
]

-- What a job may do to the task table, and the receipt that may follow.
abbrev pub Settles : Bool → PaymentJob → List Task → Followup × World → Type 0
Settles b j old (f, w) =
    ((f ≡ nothing) × (w.tasks ≡ old))
    ⊎ (((f ≡ nothing) × (w.tasks ≡ update_first (is_payable j.task_id) fail_row old))
        ⊎ ((p : Text) × (f ≡ (if b then receipt j p else nothing))
            × (w.tasks ≡ update_first (is_payable j.task_id) (pay_row p) old)))

settle-Settles :
    (b : Bool) (j : PaymentJob) (p : Text) (w : World) → Settles b j w.tasks (settle b j p w)
unfolding settle
settle-Settles b j p w = elim (Bool-cases (w.env.fails w.tick)) [
  | inl e ↦ rw e (inl (refl, refl))
  | inr e ↦ rw e (inr (inr (p, refl, refl)))
]

give_up-Settles :
    (b : Bool) (j : PaymentJob) (w : World) → Settles b j w.tasks (nothing, give_up j w)
unfolding give_up
give_up-Settles b j w = elim (Bool-cases (w.env.fails w.tick)) [
  | inl e ↦ rw e (inl (refl, refl))
  | inr e ↦ rw e (inr (inl (refl, refl)))
]

module _ (b : Bool) (c : ℕ → Bool) (j : PaymentJob) where
  -- How the loop goes on after an attempt.
  after_outcome : (k : ℕ) → Outcome × World → Followup × World
  after_outcome k (succeeded p, w) = settle b j p w
  after_outcome k (refused, w) = retry b c j k w
  after_outcome k (unsettled, w) = retry b c j k w

  retry-suc :
      (k : ℕ) (w : World)
      → c (suc k) ≡ false
      → retry b c j (suc k) w ≡ after_outcome k (send (payment_request j) w)
  unfolding retry after_outcome
  retry-suc k w h = rw h (by_outcome (send (payment_request j) w))
    where
      by_outcome :
          (p : Outcome × World)
          → (elim p.0 [ succeeded preimage ↦ settle b j preimage p.1 | _ ↦ retry b c j k p.1 ])
            ≡ after_outcome k p
      by_outcome (succeeded p, w) = refl
      by_outcome (refused, w) = refl
      by_outcome (unsettled, w) = refl

  retry_stopped : (k : ℕ) (w : World) → c (suc k) ≡ true → retry b c j (suc k) w ≡ (nothing, w)
  unfolding retry
  retry_stopped k w h = rw h refl

  one_attempt :
      (k : ℕ) (w : World) (p : Outcome × World)
      → p.1.payments ≡ payment_request j ∷ w.payments
      → ((v : World) → SendsAtMost k j v (retry b c j k v).1)
      → SendsAtMost (suc k) j w (after_outcome k p).1
  unfolding after_outcome
  one_attempt k w (succeeded p, v) h ih = (1, omega arith, settle-payments b j p v ∙ h)
  one_attempt k w (refused, v) h ih =
      let (n, le, e) = ih v in (suc n, omega (arith, le), e ∙ sent_through n (payment_request j) h)
  one_attempt k w (unsettled, v) h ih =
      let (n, le, e) = ih v in (suc n, omega (arith, le), e ∙ sent_through n (payment_request j) h)

  retry-SendsAtMost : (k : ℕ) (w : World) → SendsAtMost k j w (retry b c j k w).1
  unfolding retry
  retry-SendsAtMost zero w = (0, omega arith, give_up-payments j w)
  retry-SendsAtMost (suc k) w = elim (Bool-cases (c (suc k))) [
    | inl e ↦ rw (retry_stopped k w e) (0, omega arith, refl)
    | inr e ↦ rw (retry-suc k w e) (
        one_attempt k w (send (payment_request j) w) (send-payments (payment_request j) w)
          (retry-SendsAtMost k))
  ]

  one_attempt-Settles :
      (k : ℕ) (w : World) (p : Outcome × World)
      → p.1.tasks ≡ w.tasks
      → ((v : World) → Settles b j v.tasks (retry b c j k v))
      → Settles b j w.tasks (after_outcome k p)
  unfolding after_outcome
  one_attempt-Settles k w (succeeded p, v) h ih =
      subst (λ old. Settles b j old (settle b j p v)) h (settle-Settles b j p v)
  one_attempt-Settles k w (refused, v) h ih =
      subst (λ old. Settles b j old (retry b c j k v)) h (ih v)
  one_attempt-Settles k w (unsettled, v) h ih =
      subst (λ old. Settles b j old (retry b c j k v)) h (ih v)

  retry-Settles : (k : ℕ) (w : World) → Settles b j w.tasks (retry b c j k w)
  unfolding retry
  retry-Settles zero w = give_up-Settles b j w
  retry-Settles (suc k) w = elim (Bool-cases (c (suc k))) [
    | inl e ↦ rw (retry_stopped k w e) (inl (refl, refl))
    | inr e ↦ rw (retry-suc k w e) (
        one_attempt-Settles k w (send (payment_request j) w) (send-tasks (payment_request j) w)
          (retry-Settles k))
  ]

  one_attempt-Unanswered :
      (k : ℕ) (w : World) (p : Outcome × World)
      → p.1.payments ≡ payment_request j ∷ w.payments
      → p.1.env ≡ w.env
      → IsOpen p.0
      → Unanswered w
      → ((v : World)
          → Unanswered v
          → (retry b c j k v).1.payments ≡ sent k (payment_request j) v.payments)
      → (after_outcome k p).1.payments ≡ sent (suc k) (payment_request j) w.payments
  unfolding after_outcome
  one_attempt-Unanswered k w (succeeded p, v) h e o u ih = elim o [ ]
  one_attempt-Unanswered k w (refused, v) h e o u ih =
      ih v (subst Answers (sym e) u) ∙ sent_through k (payment_request j) h
  one_attempt-Unanswered k w (unsettled, v) h e o u ih =
      ih v (subst Answers (sym e) u) ∙ sent_through k (payment_request j) h

  retry-Unanswered :
      ((n : ℕ) → c n ≡ false)
      → (k : ℕ) (w : World) → Unanswered w
      → (retry b c j k w).1.payments ≡ sent k (payment_request j) w.payments
  unfolding retry
  retry-Unanswered go zero w u = give_up-payments j w
  retry-Unanswered go (suc k) w u = rw (retry-suc k w (go (suc k))) (
      one_attempt-Unanswered k w (send (payment_request j) w) (send-payments (payment_request j) w)
        (send-env (payment_request j) w) (send-Unanswered (payment_request j) w u) u
        (retry-Unanswered go k))

-- Whatever the Lightning node answers and whenever the context ends, a job sends nothing but its
-- own payment request, at most four times.
pub process-SendsAtMost :
    (b : Bool) (c : ℕ → Bool) (j : PaymentJob) (w : World) → SendsAtMost 4 j w (process b c j w).1
unfolding process
process-SendsAtMost b c j w = retry-SendsAtMost b (λ k. if k == 4 then false else c k) j 4 w

-- A job leaves the task table alone, or marks its own pending row failed, or marks it paid with a
-- preimage; an Observer receipt follows only in the last case, with the same preimage.
pub process-Settles :
    (b : Bool) (c : ℕ → Bool) (j : PaymentJob) (w : World) → Settles b j w.tasks (process b c j w)
unfolding process
process-Settles b c j w = retry-Settles b (λ k. if k == 4 then false else c k) j 4 w

-- If the Lightning node answers every request with no result or with a status other than SUCCEEDED,
-- IN_FLIGHT included, and the context does not end, the request goes out four times.
pub process_unsettled :
    (b : Bool) (c : ℕ → Bool) (j : PaymentJob) (w : World)
    → ((n : ℕ) → c n ≡ false)
    → Unanswered w
    → (process b c j w).1.payments ≡ sent 4 (payment_request j) w.payments
unfolding process
process_unsettled b c j w go u =
    retry-Unanswered b (λ k. if k == 4 then false else c k) j
      (λ n. elim (Bool-cases (n == 4)) [ inl e ↦ rw e refl | inr e ↦ rw e (go n) ]) 4 w u
