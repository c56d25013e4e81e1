-- ===== src/Config/Load.antt =====
-- config.go: `Load`, the settings, read and checked.
use open_world_model.Base.{false, ◌⊎◌, inl, inr, Option, none, some, [], if◌then◌else◌}
use open_world_model.Base.Int.{pos}
use open_world_model.Base.Text.{Text, codes, is_empty}
use open_world_model.Float64.{Float64}
use open_world_model.Config.Defs.{Config, ConfigError, FlConfig}
use open_world_model.Config.Validate.{validate, validated}
use open_world_model.Config.Settings.{
  Value, Sources, no_file, setting, ◌>>=◌, text_of, int_of, float_of, flag_of, read_server,
  read_lightning, read_s3, read_stake, read_tor, read_observer, read_log,
}

pub data LoadError : Type 0 where
  reading_config_file unmarshalling : LoadError
  invalid_config : ConfigError → LoadError

module _ (fp : Float64) (s : Sources fp.F) where
  unfoldable pub read_fl : (Text → Option (Value fp.F)) → Option (FlConfig fp.F)
  unfolding setting
  read_fl file = do
    interval ← int_of s file (codes "fl.round_interval_minutes") (pos 60)
    participants ← int_of s file (codes "fl.min_participants") (pos 3)
    clip ← float_of s file (codes "fl.gradient_l2_clip_norm") (fp.ratio 1 1)
    threshold ← float_of s file (codes "fl.anomaly_std_dev_threshold") (fp.ratio 3 1)
    top_k ← float_of s file (codes "fl.top_k_sparsification_pct") (fp.ratio 10 100)
    some (record {
      round_interval_minutes = interval;
      min_participants = participants;
      gradient_l2_clip_norm = clip;
      anomaly_std_dev_threshold = threshold;
      top_k_sparsification_pct = top_k;
    })

  unfoldable pub unmarshal : (Text → Option (Value fp.F)) → Option (Config fp.F)
  unfolding setting read_server read_lightning read_s3 read_fl read_stake read_tor read_observer
      read_log
  unmarshal file = do
    dev ← flag_of s file (codes "dev_mode") false
    dsn ← text_of s file (codes "database.dsn") []
    open_conns ← int_of s file (codes "database.max_open_conns") (pos 25)
    idle_conns ← int_of s file (codes "database.max_idle_conns") (pos 5)
    migrations ← text_of s file (codes "database.migrations_dir") (codes "migrations")
    server ← read_server s file
    redis ← text_of s file (codes "redis.addr") []
    password ← text_of s file (codes "redis.password") []
    db ← int_of s file (codes "redis.db") (pos 0)
    lightning ← read_lightning s file
    s3 ← read_s3 s file
    fl ← read_fl file
    stake ← read_stake s file
    tor ← read_tor s file
    observer ← read_observer s file
    log ← read_log s file
    some (record {
      dev_mode = dev;
      dsn = dsn;
      max_open_conns = open_conns;
      max_idle_conns = idle_conns;
      migrations_dir = migrations;
      server = server;
      redis_addr = redis;
      redis_password = password;
      redis_db = db;
      lightning = lightning;
      s3 = s3;
      fl = fl;
      stake = stake;
      tor = tor;
      observer = observer;
      log = log;
    })

  abbrev pub checked : Config fp.F → Option ConfigError → LoadError ⊎ Config fp.F
  checked c none = inr (validated fp c)
  checked c (some e) = inl (invalid_config e)

  abbrev pub check_config : Option (Config fp.F) → LoadError ⊎ Config fp.F
  check_config none = inl unmarshalling
  check_config (some c) = checked c (validate fp c)

  abbrev pub load_from : Option (Text → Option (Value fp.F)) → LoadError ⊎ Config fp.F
  load_from none = inl reading_config_file
  load_from (some file) = check_config (unmarshal file)

  unfoldable pub load : Text → LoadError ⊎ Config fp.F
  unfolding unmarshal
  load path = load_from (if is_empty path then some no_file else s.config_file path)
