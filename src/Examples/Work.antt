-- ===== src/Examples/Work.antt =====
-- Tasks, payments and rounds in one state.
use open_world_model.Base.{
  ◌≤◌, ◌+◌, ◌*◌, arith, count_where, ℕ, ◌≡◌, refl, true, ◌⊎◌, some, [], ◌∷◌, find_where,
}
use open_world_model.Base.Int.{pos}
use open_world_model.Base.Text.{codes, text_eq}
use open_world_model.World.{
  running, World, inference, PaymentJob, SendPaymentRequest, receipts_success, receipts_skipped,
  aggregating, ok,
}
use open_world_model.Scheduler.Requeue.{IsRequeued, requeue_timed_out-IsRequeued}
use open_world_model.Scheduler.{requeue_timed_out, schedule, is_task}
use open_world_model.Scheduler.Eligibility.{IsAssigned, schedule-IsAssigned}
use open_world_model.Payment.{
  outcome_of, unsettled, submit_observer_receipt, receipt_row, ReceiptDraft, Submit,
}
use open_world_model.Payment.Receipts.{submit_observer_receipt-twice}
use open_world_model.Fl.{
  GradientSubmission, submit_gradient, try_aggregate, no_storage, is_row_of, IsAdmitted,
  submit_gradient-IsAdmitted, IsAggregated, IsIdle, try_aggregate-IsAggregated,
  try_aggregate-IsIdle,
}
use open_world_model.Fl.Anomaly.{ObjectStore, anomaly_filter, look_up, threshold}
use open_world_model.Fl.Statistics.{median, l2_norm, stddev}
use open_world_model.Fl.Filtering.{IsFiltered, anomaly_filter-IsFiltered}
use open_world_model.Rpc.{TaskResult, submit_task_result, GradientUpdate, submit_gradient_rpc}
use open_world_model.Rpc.Access.{IsKeyed, submit_gradient_rpc-IsKeyed}
use open_world_model.Rpc.Results.{IsSigned, IsUnpaid, submit_task_result-IsSigned}
use open_world_model.Examples.Fixtures.{milli, milli-Laws, world, round, task, gradient_of}

abbrev result : TaskResult
result = record {
  task_id = codes "t";
  node_id = codes "n";
  output_hash = codes "out";
  signature = codes "sig";
  exec_ms = pos 20;
}

submit_task_result-IsSigned_example :
    IsSigned world result ⊎ IsUnpaid world (submit_task_result milli true result world).1
submit_task_result-IsSigned_example = submit_task_result-IsSigned milli true result world

abbrev update : GradientUpdate
update = record {
  node_id = codes "n";
  round_number = pos 4;
  gradient_hash = codes "h";
  s3_url = codes "gradients/4/n.bin";
}

submit_gradient_rpc-IsKeyed_example : IsKeyed update world (submit_gradient_rpc update world)
submit_gradient_rpc-IsKeyed_example = submit_gradient_rpc-IsKeyed update world

abbrev job : PaymentJob
job = record { task_id = 7; node_ln_uri = codes "02ab@host:9735"; amount_sats = pos 12 }

in_flight :
    (n : ℕ) (req : SendPaymentRequest) → outcome_of (world.env.send_payment n req) ≡ unsettled
unfolding outcome_of text_eq
in_flight n req = refl

abbrev draft : ReceiptDraft
draft = record {
  settlement_reference = codes "ref";
  receiver_pubkey_hash = codes "r";
  amount_bucket = codes "1-100";
}

abbrev answer : Submit
answer n d = some (codes "id")

submit_observer_receipt-twice_example :
    (find_where (is_task 7) (submit_observer_receipt answer draft 7 world).tasks
      ≡ some (receipt_row (codes "id") task))
    × ((submit_observer_receipt answer draft 7 (submit_observer_receipt answer draft 7 world)).tasks
        ≡ (submit_observer_receipt answer draft 7 world).tasks)
    × ((submit_observer_receipt answer draft 7
          (submit_observer_receipt answer draft 7 world)).metrics
        ≡ receipts_skipped ∷ receipts_success ∷ [])
submit_observer_receipt-twice_example =
    submit_observer_receipt-twice answer draft 7 world (λ n. refl) refl refl refl

schedule-IsAssigned_example :
    IsAssigned world inference
      (codes "in")
      (schedule milli (λ k. 500) true inference (codes "in") 60 world)
schedule-IsAssigned_example =
    schedule-IsAssigned milli (λ k. 500) true inference (codes "in") 60 world

-- The task runs past its deadline.
abbrev late : World
late = record world { tasks = record task { status = running } ∷ [] }

requeue_timed_out-IsRequeued_example : IsRequeued late (requeue_timed_out late)
requeue_timed_out-IsRequeued_example = requeue_timed_out-IsRequeued late

try_aggregate-IsAggregated_example : IsAggregated 4 (try_aggregate no_storage 4 world)
try_aggregate-IsAggregated_example = try_aggregate-IsAggregated no_storage 4 world

abbrev claimed_world : World
claimed_world = record world { rounds = record round { status = aggregating } ∷ [] }

try_aggregate-IsIdle_example : IsIdle claimed_world (try_aggregate no_storage 4 claimed_world)
try_aggregate-IsIdle_example = try_aggregate-IsIdle no_storage 4 claimed_world refl

abbrev submission : GradientSubmission
submission = record { node_id = 7; round_number = 4; gradient_hash = codes "h"; s3_url = codes "k" }

one_row : (round : ℕ) → count_where (is_row_of round submission.node_id) world.participants ≤ 1
one_row round = ground arith

submit_gradient-IsAdmitted_example :
    IsAdmitted submission world
      (submit_gradient submission world).0
      (submit_gradient submission world).1
submit_gradient-IsAdmitted_example = submit_gradient-IsAdmitted submission world one_row

-- The gradients have one number, which grows from call to call.
abbrev store : ObjectStore milli
store = record {
  get_object = λ n key. some ((1000 + 4000 * n) ∷ []);
  unmarshal = λ blob. some ((codes "layer", blob) ∷ []);
}

-- The third gradient is out of the limit.
anomaly_filter_test :
    (anomaly_filter milli store 10 4 world.participants world).0
    ≡ ok (gradient_of 7 ∷ gradient_of 8 ∷ [])
unfolding anomaly_filter look_up threshold median l2_norm stddev
anomaly_filter_test = refl

anomaly_filter-IsFiltered_example :
    IsFiltered milli store 10 world.participants world
      (anomaly_filter milli store 10 4 world.participants world)
anomaly_filter-IsFiltered_example =
    anomaly_filter-IsFiltered milli milli-Laws store 10 4 world.participants world
