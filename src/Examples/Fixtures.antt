-- ===== src/Examples/Fixtures.antt =====
-- Fixed-point numbers in the place of float64, a toy cryptography, and one state of the service.
use open_world_model.Base.{
  ℕ, zero, suc, ◌+◌, ◌-◌, ◌*◌, ◌/◌, ◌≤◌, ◌<◌, ◌≡◌, refl, true, false, none, some, [], ◌∷◌, arith,
  ltb, leb, ltb→lt, length, All, if◌then◌else◌, ◌&&◌,
}
use native.Mathlib.Nat.{mul-le-mul_right, le-div_iff_mul-le, div-mul-le_self}
use open_world_model.Base.Int.{pos, pos_part}
use open_world_model.Base.Text.{Text, codes}
use open_world_model.World.{
  Channel, Env, World, Node, Stake, Signal, Task, Round, Participant, t1, active, stake_active,
  inference, completed, payment_pending, round_open, NodeStatus, tier_eq, status_eq,
}
use open_world_model.Float64.{Float64, Laws}
use open_world_model.Observer.Crypto.{Crypto}

-- Thousandths, rounded down; there are no negative numbers.
abbrev pub milli : Float64
milli = record {
  F = ℕ;
  of_int = λ z. 1000 * pos_part z;
  ratio = λ n d. 1000 * n / d;
  add = λ x y. x + y;
  sub = λ x y. x - y;
  mul = λ x y. x * y / 1000;
  div = λ x y. 1000 * x / y;
  sqrt = λ x. x;
  lt = ltb;
  le = leb;
  truncate = λ x. pos (x / 1000);
  to_numeric = λ k x. x;
  of_numeric = λ k n. n;
}

not_below : (x y : ℕ) → x ≤ y → ltb y x ≡ false
not_below x y h = ground arith

below : (x y : ℕ) → ltb y x ≡ false → x ≤ y
below x y h = ground arith

lower_mul : (c x y : ℕ) → x ≤ y → x * c / 1000 ≤ y * c / 1000
lower_mul c x y h = omega (arith, mul-le-mul_right c h)

lower_div : (d x y : ℕ) → 0 < d → x ≤ y → 1000 * x / d ≤ 1000 * y / d
lower_div d x y p h = (le-div_iff_mul-le p).1 (omega (arith, div-mul-le_self (1000 * x) d, h))

pub milli-Laws : Laws milli
milli-Laws = record {
  lt_irrefl = λ x. not_below x x (omega arith);
  lt_asymm = λ x y h. not_below x y (omega (arith, ltb→lt x y h));
  lt_trans = λ x y z h k. ground arith;
  of_int_mono = λ a b h. not_below _ _ (ground arith);
  of_int_pos = λ n h. ground arith;
  of_int_nonneg = λ n. not_below _ _ (omega arith);
  ratio_nonneg = λ n d. not_below _ _ (omega arith);
  one_lt_two = refl;
  zero_lt_one = refl;
  zero_lt_three = refl;
  tenth_le_one = refl;
  le_of_lt = λ x y h. ground arith;
  add_mono = λ c x y h. not_below _ _ (omega (arith, below x y h));
  add_nonneg = λ c x h. not_below _ _ (omega arith);
  mul_mono = λ c x y p h. not_below _ _ (lower_mul c x y (below x y h));
  mul_nonneg = λ x y p q. not_below _ _ (omega arith);
  div_mono = λ d x y p h. not_below _ _ (lower_div d x y (ltb→lt 0 d p) (below x y h));
  div_nonneg = λ d x p h. not_below _ _ (omega arith);
}

abbrev pub zeros : ℕ → Text
zeros zero = []
zeros (suc n) = 0 ∷ zeros n

-- Hashes and signatures of zeros, under which every signature verifies.
abbrev pub toy : Crypto
toy = record {
  sha256 = λ s. zeros 32;
  sign = λ key s. zeros 64;
  public_of = λ key. zeros 32;
  key_from_seed = λ seed. zeros 64;
  verify = λ key s sig. true;
  pem_key = λ s. none;
  json_string = λ s. s;
}

zeros-IsBytes : (n : ℕ) → All (λ c. c < 256) (zeros n)
zeros-IsBytes zero = tt
zeros-IsBytes (suc n) = (omega arith, zeros-IsBytes n)

pub toy-sizes : (n : ℕ) → (length (zeros n) ≡ n) × All (λ c. c < 256) (zeros n)
toy-sizes zero = (refl, tt)
toy-sizes (suc n) = let (l, b) = toy-sizes n in (omega (arith, l), (omega arith, b))

abbrev pub pubkey : Text
pubkey = codes "0000000000000000000000000000000000000000000000000000000000000000"

abbrev pub channel : Text → ℕ → Channel
channel id balance = record {
  channel_id = id;
  remote_pubkey = pubkey;
  capacity_sats = pos 3000000;
  local_balance_sats = pos balance;
  is_active = true;
}

-- No call fails, every signature verifies, and every id parses to 7.
abbrev pub calm : Env
calm = record {
  fails = λ n. false;
  clock = λ n. 5000000000000;
  uuid = λ n. 100 + n;
  channels = λ n key. channel (codes "small") 60000 ∷ channel (codes "large") 150000 ∷ [];
  send_payment = λ n req.
      some
        (record { preimage = codes "preimage"; status = codes "IN_FLIGHT"; failure_reason = [] });
  verify = λ key msg sig. true;
  parse_uuid = λ s. some 7;
  url_path = λ s. some s;
}

abbrev pub node : ℕ → NodeStatus → Node
node id s = record {
  node_id = id;
  public_key = pubkey;
  ln_node_uri = codes "02ab@host:9735";
  onion_address = codes "abc.onion";
  tier = t1;
  hardware = record { vram_gb = 8; ram_gb = 32; bandwidth_mbps = 100 };
  supported_task_types = [];
  reliability = 9000;
  total_tasks = 3;
  total_sats = 0;
  status = s;
  registered_at = 1000;
  last_heartbeat = none;
}

abbrev pub stake : Stake
stake = record {
  node_id = 7;
  channel_id = codes "large";
  channel_capacity = pos 3000000;
  local_balance = pos 150000;
  tier_minimum = pos 100000;
  bonus_multiplier = 1250;
  stake_status = stake_active;
  last_verified_at = 2000;
  degraded_since = none;
}

abbrev pub signal : Signal
signal = record {
  node_id = 7;
  signal_type = codes "bad_gradient";
  evidence_hash = codes "00";
  slashing_event = none;
}

abbrev pub task : Task
task = record {
  task_id = 7;
  task_type = inference;
  assigned_node = some 7;
  node_ln_uri = some (codes "02ab@host:9735");
  status = completed;
  input_hash = codes "aa";
  output_hash = some (codes "bb");
  reward_sats = pos 12;
  payment_status = payment_pending;
  payment_preimage = none;
  submitted_at = 3000;
  started_at = some 3000;
  completed_at = some 4000;
  timeout_seconds = 60;
  observer_receipt_id = none;
}

abbrev pub round : Round
round = record {
  round_id = 4;
  round_number = 4;
  status = round_open;
  model_version = codes "v1";
  checkpoint_hash = none;
  ots_proof_path = none;
  started_at = 1000;
  completed_at = none;
}

abbrev pub gradient_of : ℕ → Participant
gradient_of id = record {
  round_id = 4;
  node_id = id;
  gradient_hash = codes "cc";
  s3_url = codes "k";
  anomaly_flagged = false;
}

-- One active node with its stake, a signal against it, its task, and a round with three gradients.
abbrev pub world : World
world = record {
  nodes = node 7 active ∷ [];
  stakes = stake ∷ [];
  signals = signal ∷ [];
  events = [];
  tasks = task ∷ [];
  rounds = round ∷ [];
  participants = gradient_of 7 ∷ gradient_of 8 ∷ gradient_of 9 ∷ [];
  heartbeats = [];
  nodes_total = λ t s. if tier_eq t1 t && status_eq active s then pos 1 else pos 0;
  metrics = [];
  queue = [];
  closed_channels = [];
  payments = [];
  published = [];
  uploads = [];
  tick = 0;
  env = calm;
}
