-- ===== src/World/State.antt =====
-- The state, and what the program does not implement: which calls to an outside service fail, what
-- the clock and the id generator return, the Lightning node, the object store and Ed25519.
use open_world_model.Base.{ℕ, Bool, Option, List}
use open_world_model.Base.Int.{ℤ}
use open_world_model.Base.Text.{Text}
use open_world_model.World.Rows.{
  Tier, NodeStatus, TaskType, TaskState, RoundStatus, Node, Stake, Signal, SlashEvent, Task, Round,
  Participant, Heartbeat,
}

-- lightning.Channel
pub record Channel : Type 0 where
  pub channel_id : Text
  pub remote_pubkey : Text
  pub capacity_sats : ℤ
  pub local_balance_sats : ℤ
  pub is_active : Bool

-- lightning.SendPaymentRequest, less the memo, which no caller sets
pub record SendPaymentRequest : Type 0 where
  pub dest_pubkey_hex : Text
  pub amount_sats : ℤ
  pub timeout_secs : ℤ

-- lightning.PaymentResult, with the fields that the dispatcher reads
pub record PaymentResult : Type 0 where
  pub preimage : Text
  pub status : Text
  pub failure_reason : Text

-- payment.paymentJob
pub record PaymentJob : Type 0 where
  pub task_id : ℕ
  pub node_ln_uri : Text
  pub amount_sats : ℤ

-- One increment of a counter of package metrics, by its label.
pub data Metric : Type 0 where
  stake_verification_fail stake_verification_ok : Metric
  slash_event : Tier → Metric
  tasks_total : TaskType → TaskState → Metric
  fl_rounds_total : RoundStatus → Metric
  payments_paid payments_failed : Metric
  payment_sats : ℤ → Metric
  receipts_success receipts_failure receipts_skipped receipts_not_persisted : Metric
  task_duration : ℤ → Metric

-- The n-th call of an outside service sees the n-th value of each function.
pub record Env : Type 0 where
  pub fails : ℕ → Bool
  pub clock : ℕ → ℕ
  pub uuid : ℕ → ℕ
  -- the channels of the Lightning node whose remote key is the given one
  pub channels : ℕ → Text → List Channel
  pub send_payment : ℕ → SendPaymentRequest → Option PaymentResult
  -- ed25519.Verify: key, message, signature
  pub verify : Text → Text → Text → Bool
  -- uuid.Parse and the path of url.Parse; `none` is an error
  pub parse_uuid : Text → Option ℕ
  pub url_path : Text → Option Text

pub record World : Type 0 where
  pub nodes : List Node
  pub stakes : List Stake
  pub signals : List Signal
  pub events : List SlashEvent
  pub tasks : List Task
  pub rounds : List Round
  pub participants : List Participant
  pub heartbeats : List Heartbeat
  -- metrics.OwmNodesTotal, and the increments of the other metrics, latest first
  pub nodes_total : Tier → NodeStatus → ℤ
  pub metrics : List Metric
  pub queue : List PaymentJob
  -- what was sent out: channels force-closed, payments, task messages; latest first
  pub closed_channels : List Text
  pub payments : List SendPaymentRequest
  pub published : List ℕ
  -- the objects that were put into the object store, by key, latest first
  pub uploads : List (Text × Text)
  pub tick : ℕ
  pub env : Env
