-- ===== src/Config/Defs.antt =====
-- The fields of `Config` that `validate` or the start of the coordinator reads.
use open_world_model.Base.{Bool}
use open_world_model.Base.Int.{ℤ}
use open_world_model.Base.Text.{Text}

pub record ServerConfig : Type 0 where
  pub grpc_addr : Text
  pub http_addr : Text
  pub tls_cert_file : Text
  pub tls_key_file : Text
  pub ca_cert_file : Text

pub record ClnConfig : Type 0 where
  pub base_url : Text
  pub api_key : Text

pub record LightningConfig : Type 0 where
  pub backend : Text
  pub lnd_host : Text
  pub payment_macaroon_path : Text
  pub readonly_macaroon_path : Text
  pub slashing_macaroon_path : Text
  pub tls_cert_path : Text
  pub cln : ClnConfig

pub record S3Config : Type 0 where
  pub endpoint : Text
  pub bucket : Text
  pub access_key : Text
  pub secret_key : Text
  pub region : Text

-- The map `TierMinimumSats` at its three keys; a missing key reads 0.
pub record StakeConfig : Type 0 where
  pub t1_minimum_sats : ℤ
  pub t2_minimum_sats : ℤ
  pub t3_minimum_sats : ℤ
  pub verify_interval_hours : ℤ
  pub degraded_grace_period_hours : ℤ
  pub slash_cooldown_days : ℤ
  pub t1_auto_slash_signals : ℤ
  pub t2t3_maintainer_acks : ℤ

pub record ObserverConfig : Type 0 where
  pub enabled : Bool
  pub api_endpoint : Text
  pub signing_key_path : Text

pub record TorConfig : Type 0 where
  pub enabled : Bool
  pub local_bind_addr : Text
  pub socks5_addr : Text
  pub hidden_service_dir : Text

pub record LogConfig : Type 0 where
  pub level : Text
  pub format : Text

pub record FlConfig (A : Type 0) : Type 0 where
  pub round_interval_minutes : ℤ
  pub min_participants : ℤ
  pub gradient_l2_clip_norm : A
  pub anomaly_std_dev_threshold : A
  pub top_k_sparsification_pct : A

pub record Config (A : Type 0) : Type 0 where
  pub dev_mode : Bool
  pub dsn : Text
  pub max_open_conns : ℤ
  pub max_idle_conns : ℤ
  pub migrations_dir : Text
  pub server : ServerConfig
  pub redis_addr : Text
  pub redis_password : Text
  pub redis_db : ℤ
  pub lightning : LightningConfig
  pub s3 : S3Config
  pub fl : FlConfig A
  pub stake : StakeConfig
  pub tor : TorConfig
  pub observer : ObserverConfig
  pub log : LogConfig

pub data ConfigError : Type 0 where
  dsn_required : ConfigError
  lnd_host_required lnd_tls_cert_required : ConfigError
  payment_macaroon_required readonly_macaroon_required slashing_macaroon_required : ConfigError
  cln_base_url_required cln_api_key_required unknown_backend : ConfigError
  ca_cert_required signing_key_required api_endpoint_required : ConfigError
  tier_floor_t1 tier_floor_t2 tier_floor_t3 tier_order : ConfigError
  verify_interval grace_period cooldown_days auto_slash_signals maintainer_acks : ConfigError
  fl_participants fl_clip_norm fl_threshold fl_interval fl_top_k : ConfigError
  s3_partial : ConfigError
