-- ===== src/World/Rows.antt =====
-- The rows of the tables (registry.Node, migrations 000001 to 000011) and the enumerations that
-- their CHECK constraints name. Ids are numbers; a time is in nanoseconds; a float64 that is only
-- carried is its bit pattern; a NUMERIC column is its value in units of the last digit.
use open_world_model.Base.{ℕ, Bool, true, false, Option, List}
use open_world_model.Base.Int.{ℤ}
use open_world_model.Base.Text.{Text, codes, text_eq}

-- A tier string: the three that the maps of the source have as keys, or any other.
pub data Tier : Type 0 where
  t1 t2 t3 : Tier
  other_tier : Text → Tier

abbrev pub tier_text : Tier → Text
tier_text t1 = codes "t1"
tier_text t2 = codes "t2"
tier_text t3 = codes "t3"
tier_text (other_tier s) = s

abbrev pub tier_eq : Tier → Tier → Bool
tier_eq t1 t1 = true
tier_eq t2 t2 = true
tier_eq t3 t3 = true
tier_eq (other_tier s) (other_tier t) = text_eq s t
tier_eq _ _ = false

-- The CHECK constraint of `nodes.tier`.
abbrev pub is_known_tier : Tier → Bool
is_known_tier (other_tier s) = false
is_known_tier _ = true

pub data NodeStatus : Type 0 where
  pending active degraded suspended : NodeStatus

abbrev pub status_eq : NodeStatus → NodeStatus → Bool
status_eq pending pending = true
status_eq active active = true
status_eq degraded degraded = true
status_eq suspended suspended = true
status_eq _ _ = false

pub data TaskType : Type 0 where
  inference fl_round gradient_agg data_ingest audit_repo embed_data : TaskType
  other_task : Text → TaskType

abbrev pub task_type_eq : TaskType → TaskType → Bool
task_type_eq inference inference = true
task_type_eq fl_round fl_round = true
task_type_eq gradient_agg gradient_agg = true
task_type_eq data_ingest data_ingest = true
task_type_eq audit_repo audit_repo = true
task_type_eq embed_data embed_data = true
task_type_eq (other_task s) (other_task t) = text_eq s t
task_type_eq _ _ = false

pub record Hardware : Type 0 where
  pub vram_gb : ℕ
  pub ram_gb : ℕ
  pub bandwidth_mbps : ℕ

-- A row as `Register` writes it: the columns that may be NULL and that it sets have a value.
pub record Node : Type 0 where
  pub node_id : ℕ
  pub public_key : Text
  pub ln_node_uri : Text
  pub onion_address : Text
  pub tier : Tier
  pub hardware : Hardware
  pub supported_task_types : List TaskType
  pub reliability : ℕ  -- NUMERIC(5,4)
  pub total_tasks : ℕ
  pub total_sats : ℕ
  pub status : NodeStatus
  pub registered_at : ℕ
  pub last_heartbeat : Option ℕ

pub data StakeState : Type 0 where
  stake_active stake_degraded force_closed : StakeState

pub record Stake : Type 0 where
  pub node_id : ℕ
  pub channel_id : Text
  pub channel_capacity : ℤ
  pub local_balance : ℤ
  pub tier_minimum : ℤ
  pub bonus_multiplier : ℕ  -- NUMERIC(4,3)
  pub stake_status : StakeState
  pub last_verified_at : ℕ
  pub degraded_since : Option ℕ

pub record Signal : Type 0 where
  pub node_id : ℕ
  pub signal_type : Text
  pub evidence_hash : Text
  pub slashing_event : Option ℕ

pub record SlashEvent : Type 0 where
  pub event_id : ℕ
  pub node_id : ℕ
  pub channel_id : Text
  pub tier : Tier
  pub reason : Text
  pub evidence_hash : Text
  pub signal_count : ℕ
  pub cooldown_expires_at : ℕ

pub data TaskState : Type 0 where
  task_pending running completed failed timeout : TaskState

pub data PaymentState : Type 0 where
  payment_pending paid payment_failed : PaymentState

pub record Task : Type 0 where
  pub task_id : ℕ
  pub task_type : TaskType
  pub assigned_node : Option ℕ
  pub node_ln_uri : Option Text
  pub status : TaskState
  pub input_hash : Text
  pub output_hash : Option Text
  pub reward_sats : ℤ
  pub payment_status : PaymentState
  pub payment_preimage : Option Text
  pub submitted_at : ℕ
  pub started_at : Option ℕ
  pub completed_at : Option ℕ
  pub timeout_seconds : ℕ
  pub observer_receipt_id : Option Text

pub data RoundStatus : Type 0 where
  round_open aggregating complete round_failed : RoundStatus

pub record Round : Type 0 where
  pub round_id : ℕ
  pub round_number : ℕ
  pub status : RoundStatus
  pub model_version : Text
  pub checkpoint_hash : Option Text
  pub ots_proof_path : Option Text
  pub started_at : ℕ
  pub completed_at : Option ℕ

pub record Participant : Type 0 where
  pub round_id : ℕ
  pub node_id : ℕ
  pub gradient_hash : Text
  pub s3_url : Text
  pub anomaly_flagged : Bool

pub record Heartbeat : Type 0 where
  pub node_id : ℕ
  pub recorded_at : ℕ
