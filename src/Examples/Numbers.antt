-- ===== src/Examples/Numbers.antt =====
-- Bounds, encodings and settings at concrete values.
use open_world_model.Base.{ℕ, ◌≡◌, refl, true, false, none, some, []}
use open_world_model.Base.Int.{pos}
use open_world_model.Base.Text.{Text, codes, text_eq, to_lower, trim_space}
use open_world_model.Config.{Config, ServerConfig, validate, normal_backend}
use open_world_model.Observer.Crypto.{Laws}
use open_world_model.Observer.Receipt.{Receipt}
use open_world_model.Observer.{client_key, sign_receipt, fields_for_hash, verify_signature}
use open_world_model.Observer.Signing.{client_key-sign_receipt}
use open_world_model.Examples.Fixtures.{milli, toy, toy-sizes}

abbrev server : ServerConfig
server = record {
  grpc_addr = [];
  http_addr = [];
  tls_cert_file = codes "c";
  tls_key_file = codes "k";
  ca_cert_file = codes "a";
}

abbrev keyless : ServerConfig
keyless = record {
  grpc_addr = [];
  http_addr = [];
  tls_cert_file = codes "c";
  tls_key_file = [];
  ca_cert_file = codes "a";
}

abbrev pub config : Config ℕ
config = record {
  dev_mode = false;
  dsn = codes "postgres://";
  max_open_conns = pos 25;
  max_idle_conns = pos 5;
  migrations_dir = [];
  server = server;
  redis_addr = [];
  redis_password = [];
  redis_db = pos 0;
  lightning = record {
    backend = codes "lnd";
    lnd_host = codes "h";
    payment_macaroon_path = codes "p";
    readonly_macaroon_path = codes "r";
    slashing_macaroon_path = codes "s";
    tls_cert_path = codes "t";
    cln = record { base_url = []; api_key = [] };
  };
  s3 = record { endpoint = []; bucket = []; access_key = []; secret_key = []; region = [] };
  fl = record {
    round_interval_minutes = pos 60;
    min_participants = pos 3;
    gradient_l2_clip_norm = 1000;
    anomaly_std_dev_threshold = 3000;
    top_k_sparsification_pct = 1000;
  };
  stake = record {
    t1_minimum_sats = pos 100000;
    t2_minimum_sats = pos 500000;
    t3_minimum_sats = pos 2000000;
    verify_interval_hours = pos 6;
    degraded_grace_period_hours = pos 72;
    slash_cooldown_days = pos 30;
    t1_auto_slash_signals = pos 3;
    t2t3_maintainer_acks = pos 2;
  };
  tor = record {
    enabled = true;
    local_bind_addr = [];
    socks5_addr = [];
    hidden_service_dir = codes "/tor";
  };
  log = record { level = codes "info"; format = codes "json" };
  observer = record { enabled = false; api_endpoint = []; signing_key_path = [] };
}

pub config-valid : validate milli config ≡ none
unfolding validate text_eq normal_backend to_lower trim_space
config-valid = refl

pub toy-Laws : Laws toy
toy-Laws = record {
  sha256_length = λ s. refl;
  sha256_bytes = λ s. (toy-sizes 32).1;
  sign_length = λ key s. refl;
  sign_bytes = λ key s. (toy-sizes 64).1;
  sign_verifies = λ seed s h. refl;
  seed_length = λ seed h. refl;
}

abbrev pub receipt : Receipt
receipt = record {
  payment_rail = codes "lightning";
  settlement_reference = codes "ref";
  sender_public_key_hash = codes "s";
  receiver_public_key_hash = codes "r";
  amount_bucket = codes "1-100";
  receipt_hash = [];
  signature = [];
}

abbrev pub seed : Text
seed = codes "a secret seed of thirty-two byte"

pub accepted_seed : client_key toy seed ≡ some (toy.key_from_seed seed)
unfolding client_key
accepted_seed = refl

client_key-sign_receipt_example :
    (s : Receipt) × (sign_receipt toy (toy.key_from_seed seed) receipt ≡ some s)
    × (fields_for_hash toy s ≡ fields_for_hash toy receipt)
    × (verify_signature toy s (toy.public_of (toy.key_from_seed seed)) ≡ true)
client_key-sign_receipt_example =
    client_key-sign_receipt toy toy-Laws seed (toy.key_from_seed seed) receipt accepted_seed
      (seed, refl, refl)
