-- ===== src/Rpc/Handlers.antt =====
-- `RegisterNode`, `Heartbeat`, `DeregisterNode`, `SubmitTaskResult` and `SubmitGradient`.
use open_world_model.Base.{ℕ, Bool, true, false, ◌||◌, Option, none, some, [], ◌∷◌, find_where}
use open_world_model.Base.Int.{ℤ, pos_part}
use open_world_model.Base.Text.{Text, is_empty, encode_hex}
use open_world_model.World.{
  Tier, Node, Task, suspended, task_duration, M, Result, ok, err, Error, invalid_argument,
  permission_denied, internal, pure, raise, or_raise, raise_if, attempt, modify, branch, call,
  count_metric, ◌>>=◌, ◌>>◌,
}
use open_world_model.Float64.{Float64}
use open_world_model.Registry.{
  NodeCapabilities, register, activate, record_heartbeat, update_status, update_reliability, has_id,
}
use open_world_model.Stake.{Verifier, StakeResult, verify_stake, persist_stake}
use open_world_model.Scheduler.{is_task, mark_complete}
use open_world_model.Payment.{enqueue}
use open_world_model.Fl.{GradientSubmission, submit_gradient}
use open_world_model.Rpc.Checks.{
  validate_timestamp, verify_task_result_sig, stake_min_sats, gradient_key,
}

pub record RegisterRequest : Type 0 where
  pub public_key : Text
  pub ln_node_uri : Text
  pub onion_address : Text
  pub capabilities : Option NodeCapabilities
  pub signature : Text
  pub timestamp : ℤ

-- RegisterNodeResponse: pending with the minimum to stake, or active with the stake and its bonus.
pub data RegisterResponse (A : Type 0) : Type 0 where
  pending_stake : ℕ → ℤ → RegisterResponse A
  activated : ℕ → ℤ → A → RegisterResponse A

pub record TaskResult : Type 0 where
  pub task_id : Text
  pub node_id : Text
  pub output_hash : Text
  pub signature : Text
  pub exec_ms : ℤ

pub data PaymentStatus : Type 0 where
  payment_queued payment_not_queued : PaymentStatus

-- TaskResultAck
pub data TaskResultAck : Type 0 where
  accepted : PaymentStatus → TaskResultAck
  rejected : TaskResultAck

pub record GradientUpdate : Type 0 where
  pub node_id : Text
  pub round_number : ℤ
  pub gradient_hash : Text
  pub s3_url : Text

pub data GradientAck : Type 0 where
  gradient_accepted : GradientAck
  gradient_rejected : Error → GradientAck

-- A gRPC status in place of the error.
abbrev pub or_status : {A : Type 0} → Error → Result A → M A
or_status e (ok a) = pure a
or_status e (err x) = raise e

abbrev pub parse_id : Text → M ℕ
parse_id s w = (elim (w.env.parse_uuid s) [ none ↦ err invalid_argument | some id ↦ ok id ], w)

module _ (fp : Float64) where
  -- What follows the check of the stake: its error gives a pending answer, and any result at all is
  -- stored and activates the node.
  unfoldable pub admit : ℕ → Tier → Result (StakeResult fp.F) → M (RegisterResponse fp.F)
  admit id tier (err e) = pure (pending_stake id (stake_min_sats tier))
  admit id tier (ok r) = do
    stored ← attempt (persist_stake fp id r)
    done ← attempt (activate id)
    nothing ← or_status internal done
    pure (activated id r.capacity_sats r.bonus_multiplier)

  register_with : Verifier → RegisterRequest → NodeCapabilities → M (RegisterResponse fp.F)
  unfolding admit
  register_with v req caps = do
    registered ←
        attempt (
          register req.public_key req.ln_node_uri req.onion_address caps req.signature
            req.timestamp)
    node ← or_status permission_denied registered
    stake ← attempt (verify_stake fp v req.public_key caps.tier)
    admit node.node_id caps.tier stake

  unfoldable pub register_node : Verifier → RegisterRequest → M (RegisterResponse fp.F)
  unfolding register_with
  register_node v req = do
    checked ← attempt (validate_timestamp req.timestamp)
    nothing ← or_status invalid_argument checked
    raise_if (is_empty req.public_key || is_empty req.ln_node_uri) invalid_argument
    caps ← or_raise req.capabilities invalid_argument
    register_with v req caps

  unfoldable pub heartbeat : Text → ℤ → M Unit
  heartbeat id ts = do
    checked ← attempt (validate_timestamp ts)
    nothing ← or_status invalid_argument checked
    node ← parse_id id
    recorded ← attempt (record_heartbeat node)
    n ← or_status internal recorded
    pure tt

  unfoldable pub deregister_node : Text → ℤ → M Unit
  deregister_node id ts = do
    checked ← attempt (validate_timestamp ts)
    nothing ← or_status invalid_argument checked
    node ← parse_id id
    updated ← attempt (update_status node suspended)
    or_status internal updated

  -- The public key of the node that the result names.
  unfoldable pub found_key : Option Node → M Text
  found_key none = raise permission_denied
  found_key (some n) = pure n.public_key

  unfoldable pub select_key : ℕ → M Text
  unfolding found_key
  select_key id w = found_key (find_where (has_id id) w.nodes) w

  -- A bad signature costs the named node reliability before the request is refused.
  unfoldable pub require_signature : ℕ → Option Error → M Unit
  require_signature node none = pure tt
  require_signature node (some e) = do
    done ← attempt (update_reliability fp node false)
    raise permission_denied

  -- The payment of a task row, by what its query found; NULL does not scan.
  unfoldable pub pay_uri : ℕ → Task → Option Text → M PaymentStatus
  pay_uri id t none = pure payment_not_queued
  pay_uri id t (some []) = pure payment_not_queued
  pay_uri id t (some (b ∷ uri)) = do
    modify (enqueue (record { task_id = id; node_ln_uri = b ∷ uri; amount_sats = t.reward_sats }))
    pure payment_queued

  unfoldable pub pay_found : ℕ → Option Task → M PaymentStatus
  unfolding pay_uri
  pay_found id none = pure payment_not_queued
  pay_found id (some t) = pay_uri id t t.node_ln_uri

  unfoldable pub select_task : ℕ → M (Option Task)
  select_task id w = (ok (find_where (is_task id) w.tasks), w)

  unfoldable pub queue_payment : ℕ → Result (Option Task) → M PaymentStatus
  unfolding pay_found
  queue_payment id (err e) = pure payment_not_queued
  queue_payment id (ok t) = pay_found id t

  -- What follows the update of the task's row; `has_dispatcher` is `s.disp != nil`.
  unfoldable pub acknowledge : Bool → ℕ → ℕ → ℤ → Result (Unit {0}) → M TaskResultAck
  unfolding select_task queue_payment
  acknowledge has_dispatcher task node exec_ms (err e) = pure rejected
  acknowledge has_dispatcher task node exec_ms (ok done) = do
    updated ← attempt (update_reliability fp node true)
    status ←
        branch has_dispatcher (do row ← attempt (call (select_task task)); queue_payment task row)
          (pure payment_queued)
    count_metric (task_duration exec_ms)
    pure (accepted status)

  unfoldable pub submit_task_result : Bool → TaskResult → M TaskResultAck
  unfolding select_key require_signature acknowledge
  submit_task_result has_dispatcher r = do
    task ← parse_id r.task_id
    node ← parse_id r.node_id
    raise_if (is_empty r.signature) invalid_argument
    read ← attempt (call (select_key node))
    key ← or_status permission_denied read
    verdict ← (λ w. (ok (verify_task_result_sig w.env key r.task_id r.output_hash r.signature), w))
    require_signature node verdict
    done ← attempt (mark_complete task (encode_hex r.output_hash))
    acknowledge has_dispatcher task node r.exec_ms done

-- The round number is not negative in a key that matches, so the submission carries its value.
abbrev pub submission : ℕ → GradientUpdate → Text → GradientSubmission
submission node g key = record {
  node_id = node;
  round_number = pos_part g.round_number;
  gradient_hash = g.gradient_hash;
  s3_url = key;
}

abbrev pub gradient_ack : Result (Unit {0}) → GradientAck
gradient_ack (ok done) = gradient_accepted
gradient_ack (err e) = gradient_rejected e

unfoldable pub submit_gradient_rpc : GradientUpdate → M GradientAck
submit_gradient_rpc g = do
  node ← parse_id g.node_id
  checked ← (λ w. (ok (gradient_key w.env g.round_number g.node_id g.s3_url), w))
  key ← or_raise checked invalid_argument
  done ← attempt (submit_gradient (submission node g key))
  pure (gradient_ack done)
