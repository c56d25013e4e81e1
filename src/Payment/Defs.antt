-- ===== src/Payment/Defs.antt =====
-- `Enqueue`, `Start`, `process` and `submitObserverReceipt`. The ten workers take their jobs from
-- one channel; a round here is one worker's `process` of the job at the channel's head.
use open_world_model.Base.{
  ℕ, zero, suc, Bool, true, false, not, ◌&&◌, Option, none, some, List, [], ◌∷◌, ◌++◌, ◌==◌,
  if◌then◌else◌, ltb, length, find_where, update_first,
}
use open_world_model.Base.Int.{pos}
use open_world_model.Base.Text.{Text, codes, text_eq, is_empty, before, trim_space}
use open_world_model.World.{
  World, Task, TaskState, PaymentState, paid, payment_failed, PaymentJob, SendPaymentRequest,
  PaymentResult, payments_paid, payments_failed, payment_sats, receipts_success, receipts_failure,
  receipts_skipped, receipts_not_persisted, next,
}
use open_world_model.Scheduler.{is_task}

abbrev pub queue_size : ℕ
queue_size = 1000

-- parsePubkeyFromLNURI
found_at : Text → Option Text → Text
found_at uri none = trim_space uri
found_at uri (some key) = trim_space key

unfoldable pub parse_pubkey_from_ln_uri : Text → Text
unfolding found_at
parse_pubkey_from_ln_uri uri = found_at uri (before b'@' uri)

-- A send on the buffered channel, or the `default` case.
unfoldable pub enqueue : PaymentJob → World → World
enqueue j w = if ltb (length w.queue) queue_size then record w { queue = w.queue ++ j ∷ [] } else w

-- The rows of the recovery query: completed tasks that are not paid.
abbrev pub is_unpaid : Task → Bool
is_unpaid t =
    (elim t.payment_status [ PaymentState.payment_pending ↦ true | _ ↦ false ])
    && (elim t.status [ TaskState.completed ↦ true | _ ↦ false ])

abbrev pub job_of : Task → Text → PaymentJob
job_of t uri = record { task_id = t.task_id; node_ln_uri = uri; amount_sats = t.reward_sats }

-- One row, and what follows it: an error of `Scan` closes the rows, so a row of the query with no URI
-- ends the loop.
unfoldable pub recover_task : Task → Option Text → (World → World) → World → World
unfolding enqueue
recover_task t none rest w = if is_unpaid t then w else rest w
recover_task t (some uri) rest w = if is_unpaid t then rest (enqueue (job_of t uri) w) else rest w

unfoldable pub recover_from : List Task → World → World
unfolding recover_task
recover_from [] w = w
recover_from (t ∷ ts) w = recover_task t t.node_ln_uri (recover_from ts) w

-- The recovery of `Start`; a query that fails is logged.
unfoldable pub recover : World → World
unfolding recover_from
recover w = if w.env.fails w.tick then next w else recover_from w.tasks (next w)

-- What one attempt gave: an error, a success with its preimage, or any other result.
pub data Outcome : Type 0 where
  refused : Outcome
  succeeded : Text → Outcome
  unsettled : Outcome

unfoldable pub outcome_of : Option PaymentResult → Outcome
outcome_of none = unsettled
outcome_of (some r) =
    if text_eq r.status (codes "SUCCEEDED") then succeeded r.preimage else unsettled

abbrev pub payment_request : PaymentJob → SendPaymentRequest
payment_request j = record {
  dest_pubkey_hex = parse_pubkey_from_ln_uri j.node_ln_uri;
  amount_sats = j.amount_sats;
  timeout_secs = pos 60;
}

-- One call of `SendPayment`: whatever the client answers, the request went out.
unfoldable pub send : SendPaymentRequest → World → Outcome × World
unfolding outcome_of
send req w =
    let w' = record w { payments = req ∷ w.payments; tick = suc w.tick } in
    if w.env.fails w.tick then (refused, w') else (outcome_of (w.env.send_payment w.tick req), w')

abbrev pub is_payable : ℕ → Task → Bool
is_payable id t =
    t.task_id == id && (elim t.payment_status [ PaymentState.payment_pending ↦ true | _ ↦ false ])

abbrev pub pay_row : Text → Task → Task
pay_row preimage t = record t { payment_status = paid; payment_preimage = some preimage }

abbrev pub fail_row : Task → Task
fail_row t = record t { payment_status = payment_failed }

-- The receipt goes to a goroutine of its own: what is left to submit is the job and the preimage.
pub data Followup : Type 0 where
  nothing : Followup
  receipt : PaymentJob → Text → Followup

-- After a success. A failed UPDATE ends it; one that changes no row is a duplicate, and goes on.
unfoldable pub settle : Bool → PaymentJob → Text → World → Followup × World
settle has_observer j preimage w = if w.env.fails w.tick then (nothing, next w) else (
  (if has_observer then receipt j preimage else nothing),
  record w {
    tasks = update_first (is_payable j.task_id) (pay_row preimage) w.tasks;
    metrics = payment_sats j.amount_sats ∷ payments_paid ∷ w.metrics;
    tick = suc w.tick;
  },
)

-- After the last attempt; the UPDATE's error is dropped.
unfoldable pub give_up : PaymentJob → World → World
give_up j w = record w {
  tasks =
      if w.env.fails w.tick then w.tasks else update_first (is_payable j.task_id) fail_row w.tasks;
  metrics = payments_failed ∷ w.metrics;
  tick = suc w.tick;
}

-- The loop, by the attempts that are left. `cancelled k` is the context's end during the wait that
-- precedes the attempt with k attempts left.
unfoldable pub retry : Bool → (ℕ → Bool) → PaymentJob → ℕ → World → Followup × World
unfolding settle give_up send
retry has_observer cancelled j zero w = (nothing, give_up j w)
retry has_observer cancelled j (suc k) w =
    let again = retry has_observer cancelled j k (send (payment_request j) w).1 in
    let settled = settle has_observer j in
    if cancelled (suc k) then (nothing, w) else (elim (send (payment_request j) w).0 [
      | succeeded preimage ↦ settled preimage (send (payment_request j) w).1
      | _ ↦ again
    ])

-- `process`: four attempts, the first without a wait.
unfoldable pub process : Bool → (ℕ → Bool) → PaymentJob → World → Followup × World
unfolding retry
process has_observer cancelled j w =
    retry has_observer (λ k. if k == 4 then false else cancelled k) j 4 w

-- observer.Receipt, before the client signs it
pub record ReceiptDraft : Type 0 where
  pub settlement_reference : Text
  pub receiver_pubkey_hash : Text
  pub amount_bucket : Text

-- The receipt that the task has, with a query's error, NULL and no row dropped.
unfoldable pub existing_receipt : Option Task → Text
existing_receipt none = []
existing_receipt (some t) = elim t.observer_receipt_id [ none ↦ [] | some r ↦ r ]

abbrev pub receipt_row : Text → Task → Task
receipt_row id t = record t { observer_receipt_id = some id }

-- The UPDATE of the receipt id, by what it found.
unfoldable pub store_receipt : ℕ → Text → Option Task → World → World
store_receipt task id none w = record w { metrics = receipts_not_persisted ∷ w.metrics }
store_receipt task id (some t) w = record w {
  tasks = update_first (is_task task) (receipt_row id) w.tasks;
  metrics = receipts_success ∷ w.metrics;
}

-- `submitFn`'s answer: `none` is an error. `submit` stands for the Observer Registry at a call.
abbrev pub Submit : Type 0
Submit = ℕ → ReceiptDraft → Option Text

unfoldable pub record_answer : ℕ → Option Text → World → World
unfolding store_receipt
record_answer task none w = record w { metrics = receipts_failure ∷ w.metrics }
record_answer task (some []) w = record w { metrics = receipts_failure ∷ w.metrics }
record_answer task (some (b ∷ id)) w =
    if w.env.fails w.tick
    then record w { metrics = receipts_failure ∷ w.metrics; tick = suc w.tick }
    else store_receipt task (b ∷ id) (find_where (is_task task) w.tasks) (next w)

-- `submitObserverReceipt` with a database and a submit function.
unfoldable pub submit_observer_receipt : Submit → ReceiptDraft → ℕ → World → World
unfolding existing_receipt record_answer
submit_observer_receipt submit draft task w =
    if not (w.env.fails w.tick)
      && not (is_empty (existing_receipt (find_where (is_task task) w.tasks)))
    then record w { metrics = receipts_skipped ∷ w.metrics; tick = suc w.tick }
    else record_answer task (submit (suc w.tick) draft) (next (next w))
