-- ===== src/Payment/Workers.antt =====
-- The goroutines of `worker` (internal/payment/dispatcher.go), one step for each thing that another
-- goroutine can come between: taking a job, one call of `SendPayment`, one UPDATE.
pub mod Bounds
pub mod Rows
use open_world_model.Base.{ℕ, zero, suc, ◌<◌, ◌≡◌, Bool, List, ◌∷◌}
use open_world_model.Base.Text.{Text}
use open_world_model.World.{World, PaymentJob}
use open_world_model.Payment.Defs.{
  Outcome, refused, succeeded, unsettled, Followup, nothing, payment_request, send, settle, give_up,
}

abbrev pub num_workers : ℕ
num_workers = 10

-- The attempts of `process`'s loop.
abbrev pub max_attempts : ℕ
max_attempts = 4

-- Where a worker stands: before its `select`, in the loop with so many attempts left, after a
-- success with its preimage, or after its return.
pub data Worker : Type 0 where
  idle : Worker
  trying : PaymentJob → ℕ → Worker
  paying : PaymentJob → Text → Worker
  stopped : Worker

-- What one answer of `SendPayment` leads to.
abbrev pub after_send : PaymentJob → ℕ → Outcome → Worker
after_send j k (succeeded preimage) = paying j preimage
after_send j k refused = trying j k
after_send j k unsettled = trying j k

-- A step of one worker in a state: where it stood, what it leaves to the receipts' goroutine, where
-- it stands, and the state after it. `leave` is the context's end during the wait before a retry.
pub data Move (has_observer : Bool) (w : World) : Worker → Followup → Worker → World → Type 0 where
  take :
      (j : PaymentJob) {js : List PaymentJob}
      → w.queue ≡ j ∷ js
      → Move has_observer w idle nothing (trying j max_attempts) (record w { queue = js })
  stop : Move has_observer w idle nothing stopped w
  leave :
      (j : PaymentJob) (k : ℕ)
      → suc k < max_attempts
      → Move has_observer w (trying j (suc k)) nothing idle w
  attempt_payment :
      (j : PaymentJob) (k : ℕ)
      → Move has_observer w
          (trying j (suc k))
          nothing
          (after_send j k (send (payment_request j) w).0)
          (send (payment_request j) w).1
  record_payment :
      (j : PaymentJob) (preimage : Text)
      → Move has_observer w
          (paying j preimage)
          (settle has_observer j preimage w).0
          idle
          (settle has_observer j preimage w).1
  record_failure : (j : PaymentJob) → Move has_observer w (trying j zero) nothing idle (give_up j w)
