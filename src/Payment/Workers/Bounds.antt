-- ===== src/Payment/Workers/Bounds.antt =====
-- How one step of a worker moves the number of payments sent, and the work that is left.
use open_world_model.Base.{ℕ, suc, ◌+◌, ◌*◌, ◌≤◌, ◌≡◌, ap, Bool, arith, length}
use open_world_model.Base.Text.{Text}
use open_world_model.World.{World, PaymentJob}
use open_world_model.Payment.Defs.{
  Outcome, refused, succeeded, unsettled, Followup, payment_request, send, settle, give_up,
}
use open_world_model.Payment.Delivery.{send-payments, settle-payments, give_up-payments}
use open_world_model.Payment.Workers.{
  Worker, idle, trying, paying, stopped, after_send, Move, take, stop, leave, attempt_payment,
  record_payment, record_failure, max_attempts,
}

-- The requests that a worker may still send.
abbrev pub attempts_left : Worker → ℕ
attempts_left (trying j k) = k
attempts_left idle = 0
attempts_left (paying j p) = 0
attempts_left stopped = 0

-- The steps that a worker may still make without another job.
abbrev pub steps_left : Worker → ℕ
steps_left idle = 1
steps_left (trying j k) = 2 + k
steps_left (paying j p) = 2
steps_left stopped = 0

-- What is sent, and what the queue may still cost.
abbrev pub budget : World → ℕ
budget w = length w.payments + max_attempts * length w.queue

pub after_send-attempts_left :
    (j : PaymentJob) (k : ℕ) (o : Outcome) → attempts_left (after_send j k o) ≤ k
after_send-attempts_left j k refused = omega arith
after_send-attempts_left j k (succeeded p) = omega arith
after_send-attempts_left j k unsettled = omega arith

after_send-steps_left :
    (j : PaymentJob) (k : ℕ) (o : Outcome) → steps_left (after_send j k o) ≤ 2 + k
after_send-steps_left j k refused = omega arith
after_send-steps_left j k (succeeded p) = omega arith
after_send-steps_left j k unsettled = omega arith

pub send-queue : (j : PaymentJob) (w : World) → (send (payment_request j) w).1.queue ≡ w.queue
unfolding send
send-queue j w = ground arith

pub settle-queue :
    (b : Bool) (j : PaymentJob) (p : Text) (w : World) → (settle b j p w).1.queue ≡ w.queue
unfolding settle
settle-queue b j p w = ground arith

pub give_up-queue : (j : PaymentJob) (w : World) → (give_up j w).queue ≡ w.queue
unfolding give_up
give_up-queue j w = ground arith

-- A step takes what it sends from its worker's attempts, and those from the queue.
pub Move-budget :
    {b : Bool} {w v : World} {x y : Worker} {f : Followup}
    → Move b w x f y v
    → budget v + attempts_left y ≤ budget w + attempts_left x
Move-budget {w = w} (take j h) = omega (arith, ap length h)
Move-budget stop = omega arith
Move-budget (leave j k h) = omega arith
Move-budget {w = w} (attempt_payment j k) = omega (
  arith,
  ap length (send-payments (payment_request j) w),
  ap length (send-queue j w),
  after_send-attempts_left j k (send (payment_request j) w).0,
)
Move-budget {b} {w} (record_payment j p) =
    omega (arith, ap length (settle-payments b j p w), ap length (settle-queue b j p w))
Move-budget {w = w} (record_failure j) =
    omega (arith, ap length (give_up-payments j w), ap length (give_up-queue j w))

-- Every step uses up work: a job in the queue is worth six steps.
pub Move-steps_left :
    {b : Bool} {w v : World} {x y : Worker} {f : Followup}
    → Move b w x f y v
    → suc (steps_left y + 6 * length v.queue) ≤ steps_left x + 6 * length w.queue
Move-steps_left (take j h) = omega (arith, ap length h)
Move-steps_left stop = omega arith
Move-steps_left (leave j k h) = omega arith
Move-steps_left {w = w} (attempt_payment j k) =
    omega
      (arith, ap length (send-queue j w), after_send-steps_left j k (send (payment_request j) w).0)
Move-steps_left {b} {w} (record_payment j p) = omega (arith, ap length (settle-queue b j p w))
Move-steps_left {w = w} (record_failure j) = omega (arith, ap length (give_up-queue j w))
