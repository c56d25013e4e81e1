-- ===== src/Process/Logging.antt =====
-- cmd/coordinator/main.go: the logger and the host name that it logs.
use open_world_model.Base.{Option, none, some, [], if◌then◌else◌}
use open_world_model.Base.Text.{Text, codes, text_eq, trim_space}

-- zapcore.Level
pub data Level : Type 0 where
  debug_level info_level warn_level error_level dpanic_level panic_level fatal_level : Level

pub data Encoder : Type 0 where
  console_encoder json_encoder : Encoder

abbrev or_info : Option Level → Level
or_info none = info_level
or_info (some l) = l

-- `parse` is the level's UnmarshalText.
unfoldable pub build_logger : (Text → Option Level) → Text → Text → Level × Encoder
build_logger parse level format = (
  or_info (parse level),
  (if text_eq format (codes "console") then console_encoder else json_encoder),
)

abbrev trimmed : Option Text → Text
trimmed none = []
trimmed (some data_read) = trim_space data_read

-- `join` is filepath.Join.
unfoldable pub read_onion_hostname : (Text → Text → Text) → (Text → Option Text) → Text → Text
unfolding trim_space
read_onion_hostname join read_file hidden_service_dir =
    trimmed (read_file (join hidden_service_dir (codes "hostname")))
