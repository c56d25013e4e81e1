-- ===== src/Config/Settings.antt =====
-- config.go: the settings of `Load`, by the sections of the configuration. Of Viper the lookup of a
-- setting is modelled: the environment's value, unless it is empty, before the file's, before the
-- default. Reading the file and converting a value are its own.
use open_world_model.Base.{
  ℕ, Bool, false, Option, none, some, [], ◌∷◌, ◌++◌, ◌==◌, map, if◌then◌else◌,
}
use open_world_model.Base.Int.{ℤ, pos}
use open_world_model.Base.Text.{Text, codes, to_upper}
use open_world_model.Config.Defs.{
  ServerConfig, LightningConfig, S3Config, StakeConfig, ObserverConfig, TorConfig, LogConfig,
}

pub data Value (A : Type 0) : Type 0 where
  text : Text → Value A
  int : ℤ → Value A
  float : A → Value A
  flag : Bool → Value A
  other_value : Value A

-- The environment, the file at a path by its settings' keys, and the conversions of `Unmarshal`;
-- `none` is a variable that is not set, a file or a setting that is not there, or an error.
pub record Sources (A : Type 0) : Type 0 where
  pub environment : Text → Option Text
  pub config_file : Text → Option (Text → Option (Value A))
  pub as_text : Value A → Option Text
  pub as_int : Value A → Option ℤ
  pub as_float : Value A → Option A
  pub as_flag : Value A → Option Bool
  pub as_duration : Value A → Option ℕ

-- The replacer of "." by "_".
abbrev underscore : ℕ → ℕ
underscore c = if c == b'.' then b'_' else c

unfoldable pub env_name : Text → Text
unfolding to_upper
env_name key = codes "OWM_" ++ to_upper (map underscore key)

abbrev pub no_file : {A : Type 0} → Text → Option (Value A)
no_file key = none

infixl 5 ◌>>=◌
abbrev pub ◌>>=◌ : {X Y : Type 0} → Option X → (X → Option Y) → Option Y
none >>= f = none
(some x) >>= f = f x

module _ {A : Type 0} (s : Sources A) where
  -- A value that is set, before another.
  abbrev or_value : Option (Value A) → Value A → Value A
  or_value none v = v
  or_value (some u) v = u

  abbrev pub or_env : Option Text → Value A → Value A
  or_env none v = v
  or_env (some []) v = v
  or_env (some (b ∷ t)) v = text (b ∷ t)

  unfoldable pub setting : (Text → Option (Value A)) → Text → Value A → Value A
  unfolding env_name
  setting file key v = or_env (s.environment (env_name key)) (or_value (file key) v)

  module _ (file : Text → Option (Value A)) where
    abbrev pub text_of : Text → Text → Option Text
    text_of key v = s.as_text (setting file key (text v))

    abbrev pub int_of : Text → ℤ → Option ℤ
    int_of key v = s.as_int (setting file key (int v))

    abbrev pub float_of : Text → A → Option A
    float_of key v = s.as_float (setting file key (float v))

    abbrev pub flag_of : Text → Bool → Option Bool
    flag_of key v = s.as_flag (setting file key (flag v))

    -- The shutdown's timeout, which nothing reads, is converted and dropped.
    unfoldable pub read_server : Option ServerConfig
    unfolding setting
    read_server = do
      grpc ← text_of (codes "server.grpc_addr") (codes ":9000")
      http ← text_of (codes "server.http_addr") (codes ":9001")
      timeout ← s.as_duration (setting file (codes "server.shutdown_timeout") (text (codes "30s")))
      cert ← text_of (codes "server.tls_cert_file") []
      key ← text_of (codes "server.tls_key_file") []
      ca ← text_of (codes "server.ca_cert_file") []
      some (record {
        grpc_addr = grpc;
        http_addr = http;
        tls_cert_file = cert;
        tls_key_file = key;
        ca_cert_file = ca;
      })

    unfoldable pub read_lightning : Option LightningConfig
    unfolding setting
    read_lightning = do
      backend ← text_of (codes "lightning.backend") (codes "lnd")
      host ← text_of (codes "lightning.lnd_host") []
      readonly ← text_of (codes "lightning.readonly_macaroon_path") []
      payment ← text_of (codes "lightning.payment_macaroon_path") []
      slashing ← text_of (codes "lightning.slashing_macaroon_path") []
      cert ← text_of (codes "lightning.tls_cert_path") []
      url ← text_of (codes "lightning.cln.base_url") []
      key ← text_of (codes "lightning.cln.api_key") []
      some (record {
        backend = backend;
        lnd_host = host;
        payment_macaroon_path = payment;
        readonly_macaroon_path = readonly;
        slashing_macaroon_path = slashing;
        tls_cert_path = cert;
        cln = record { base_url = url; api_key = key };
      })

    unfoldable pub read_s3 : Option S3Config
    unfolding setting
    read_s3 = do
      endpoint ← text_of (codes "s3.endpoint") []
      bucket ← text_of (codes "s3.bucket") []
      access ← text_of (codes "s3.access_key") []
      secret ← text_of (codes "s3.secret_key") []
      region ← text_of (codes "s3.region") []
      some (record {
        endpoint = endpoint;
        bucket = bucket;
        access_key = access;
        secret_key = secret;
        region = region;
      })

    unfoldable pub read_stake : Option StakeConfig
    unfolding setting
    read_stake = do
      t1 ← int_of (codes "stake.tier_minimum_sats.t1") (pos 100000)
      t2 ← int_of (codes "stake.tier_minimum_sats.t2") (pos 500000)
      t3 ← int_of (codes "stake.tier_minimum_sats.t3") (pos 2000000)
      interval ← int_of (codes "stake.verify_interval_hours") (pos 6)
      grace ← int_of (codes "stake.degraded_grace_period_hours") (pos 24)
      cooldown ← int_of (codes "stake.slash_cooldown_days") (pos 30)
      signals ← int_of (codes "stake.t1_auto_slash_signals") (pos 3)
      acks ← int_of (codes "stake.t2t3_maintainer_acks") (pos 2)
      some (record {
        t1_minimum_sats = t1;
        t2_minimum_sats = t2;
        t3_minimum_sats = t3;
        verify_interval_hours = interval;
        degraded_grace_period_hours = grace;
        slash_cooldown_days = cooldown;
        t1_auto_slash_signals = signals;
        t2t3_maintainer_acks = acks;
      })

    unfoldable pub read_tor : Option TorConfig
    unfolding setting
    read_tor = do
      enabled ← flag_of (codes "tor.enabled") false
      bind ← text_of (codes "tor.local_bind_addr") (codes "127.0.0.1:9002")
      socks ← text_of (codes "tor.socks5_addr") (codes "127.0.0.1:9050")
      dir ← text_of (codes "tor.hidden_service_dir") (codes "/var/lib/tor/owm-coordinator")
      some (record {
        enabled = enabled;
        local_bind_addr = bind;
        socks5_addr = socks;
        hidden_service_dir = dir;
      })

    unfoldable pub read_observer : Option ObserverConfig
    unfolding setting
    read_observer = do
      enabled ← flag_of (codes "observer.enabled") false
      api ← text_of (codes "observer.api_endpoint") (codes "https://api.observerprotocol.org")
      path ← text_of (codes "observer.signing_key_path") []
      some (record { enabled = enabled; api_endpoint = api; signing_key_path = path })

    unfoldable pub read_log : Option LogConfig
    unfolding setting
    read_log = do
      level ← text_of (codes "log.level") (codes "info")
      format ← text_of (codes "log.format") (codes "json")
      some (record { level = level; format = format })
