-- ===== src/Config/Defaults.antt =====
-- What `Load` gives with little set.
use open_world_model.Base.{
  ℕ, ◌≡◌, refl, Bool, true, false, inl, inr, Option, none, some, [], ◌∷◌, if◌then◌else◌,
}
use open_world_model.Base.Int.{ℤ, pos}
use open_world_model.Base.Text.{Text, codes, text_eq, trim_space, to_lower, to_upper}
use open_world_model.Float64.{Float64, Laws}
use open_world_model.Config.Defs.{Config, lnd_host_required}
use open_world_model.Config.Validate.{validate, validated, check_fl, normal_backend}
use open_world_model.Config.Settings.{text, int, float, flag, Sources, setting, env_name, no_file}
use open_world_model.Config.Load.{invalid_config, load, unmarshal, checked}

-- The conversions leave a value that has the type already, and a text is converted to a flag as
-- `read_flag` says.
pub record Converts {A : Type 0} (s : Sources A) : Type 0 where
  pub texts : (t : Text) → s.as_text (text t) ≡ some t
  pub ints : (n : ℤ) → s.as_int (int n) ≡ some n
  pub floats : (x : A) → s.as_float (float x) ≡ some x
  pub flags : (b : Bool) → s.as_flag (flag b) ≡ some b
  pub durations : (d : ℕ) × (s.as_duration (text (codes "30s")) ≡ some d)

-- An environment with the DSN and, as a text, the mode.
abbrev pub dsn_and_mode : Text → Text → Text → Option Text
dsn_and_mode dsn mode name =
    if text_eq name (codes "OWM_DATABASE_DSN")
    then some dsn
    else if text_eq name (codes "OWM_DEV_MODE")
    then some mode
    else none

abbrev pub with_environment : {A : Type 0} → (Text → Option Text) → Sources A → Sources A
with_environment env s = record s { environment = env }

module _ (fp : Float64) where
  -- The defaults.
  abbrev pub default_config : Bool → Text → Config fp.F
  default_config dev dsn = record {
    dev_mode = dev;
    dsn = dsn;
    max_open_conns = pos 25;
    max_idle_conns = pos 5;
    migrations_dir = codes "migrations";
    server = record {
      grpc_addr = codes ":9000";
      http_addr = codes ":9001";
      tls_cert_file = [];
      tls_key_file = [];
      ca_cert_file = [];
    };
    redis_addr = [];
    redis_password = [];
    redis_db = pos 0;
    lightning = record {
      backend = codes "lnd";
      lnd_host = [];
      payment_macaroon_path = [];
      readonly_macaroon_path = [];
      slashing_macaroon_path = [];
      tls_cert_path = [];
      cln = record { base_url = []; api_key = [] };
    };
    s3 = record { endpoint = []; bucket = []; access_key = []; secret_key = []; region = [] };
    fl = record {
      round_interval_minutes = pos 60;
      min_participants = pos 3;
      gradient_l2_clip_norm = fp.ratio 1 1;
      anomaly_std_dev_threshold = fp.ratio 3 1;
      top_k_sparsification_pct = fp.ratio 10 100;
    };
    stake = record {
      t1_minimum_sats = pos 100000;
      t2_minimum_sats = pos 500000;
      t3_minimum_sats = pos 2000000;
      verify_interval_hours = pos 6;
      degraded_grace_period_hours = pos 24;
      slash_cooldown_days = pos 30;
      t1_auto_slash_signals = pos 3;
      t2t3_maintainer_acks = pos 2;
    };
    tor = record {
      enabled = false;
      local_bind_addr = codes "127.0.0.1:9002";
      socks5_addr = codes "127.0.0.1:9050";
      hidden_service_dir = codes "/var/lib/tor/owm-coordinator";
    };
    observer = record {
      enabled = false;
      api_endpoint = codes "https://api.observerprotocol.org";
      signing_key_path = [];
    };
    log = record { level = codes "info"; format = codes "json" };
  }

  default_fl : Laws fp → (dev : Bool) (dsn : Text) → check_fl fp (default_config dev dsn).fl ≡ none
  unfolding check_fl
  default_fl l dev dsn =
      rw
        (
          l.le_of_lt _ _ l.zero_lt_one,
          l.le_of_lt _ _ l.zero_lt_three,
          l.ratio_nonneg 10 100,
          l.tenth_le_one,
        )
        refl

  validate_default :
      (dev : Bool) (b : ℕ) (dsn : Text)
      → Laws fp
      → validate fp (default_config dev (b ∷ dsn)) ≡ (if dev then none else some lnd_host_required)
  unfolding validate text_eq trim_space to_lower normal_backend
  validate_default true b dsn l = rw (default_fl l true (b ∷ dsn)) refl
  validate_default false b dsn l = refl

  unmarshal_default :
      (s : Sources fp.F) (b m : ℕ) (dsn mode : Text) (dev : Bool)
      → Converts s
      → s.as_flag (text (m ∷ mode)) ≡ some dev
      → unmarshal fp (with_environment (dsn_and_mode (b ∷ dsn) (m ∷ mode)) s) no_file
        ≡ some (default_config dev (b ∷ dsn))
  unfolding unmarshal setting env_name to_upper text_eq
  unmarshal_default s b m dsn mode dev c conv =
      simp (conv, c.texts, c.ints, c.floats, c.flags, c.durations.1)

  -- Where the conversions leave a value of the right type and arithmetic is correctly rounded: with
  -- no file and nothing set but a DSN and the mode, each to a text that is not empty, dev mode loads
  -- the defaults with this DSN, and production mode is refused for want of LND's host.
  pub load_default :
      (l : Laws fp) (s : Sources fp.F) (b m : ℕ) (dsn mode : Text) (dev : Bool)
      → Converts s
      → s.as_flag (text (m ∷ mode)) ≡ some dev
      → load fp (with_environment (dsn_and_mode (b ∷ dsn) (m ∷ mode)) s) [] ≡ (
          if dev
          then inr (default_config true (b ∷ dsn))
          else inl (invalid_config lnd_host_required))
  unfolding load validated normal_backend text_eq trim_space to_lower
  load_default l s b m dsn mode dev c conv =
      rw (unmarshal_default s b m dsn mode dev c conv, validate_default dev b dsn l) (by_mode dev)
    where
      by_mode :
          (dev : Bool)
          → checked fp s
              (default_config dev (b ∷ dsn))
              (if dev then none else some lnd_host_required)
            ≡ (if dev
                then inr (default_config true (b ∷ dsn))
                else inl (invalid_config lnd_host_required))
      by_mode true = refl
      by_mode false = refl
