-- ===== src/Examples/Living.antt =====
-- The life of a process from its settings to its end, and the lists that others see of it.
use open_world_model.Base.{
  ◌↔◌, ◌≡◌, refl, true, inr, Option, none, some, List, [], ◌∷◌, arith, Memᴰ,
}
use open_world_model.Base.Int.{pos}
use open_world_model.Base.Text.{Text, codes, decimal}
use open_world_model.Config.Settings.{Sources, text, int, float, flag, other_value}
use open_world_model.Config.Load.{load}
use open_world_model.Config.Defaults.{
  Converts, dsn_and_mode, with_environment, default_config, load_default,
}
use open_world_model.Process.{Outside, applied, signalled, run}
use open_world_model.Process.Phases.{down, phase_after}
use open_world_model.Process.Lifetime.{run-IsReleased}
use open_world_model.Process.Migrating.{OnlyMigrates, run-OnlyMigrates}
use open_world_model.Lightning.{LndChannel, lnd_to_channel}
use open_world_model.Lightning.Closing.{
  CloseRequest, CloseEvent, update, end_of_stream, close_loop, lnd_force_close_chan,
}
use open_world_model.Lightning.Closed.{ClosesWell, lnd_force_close_chan-listed}
use open_world_model.Examples.Fixtures.{milli, milli-Laws, toy}
use open_world_model.Examples.Starting.{host}

-- No variable is set and no file is there; "true" is the flag, and no other text.
abbrev sources : Sources milli.F
sources = record {
  environment = λ name. none;
  config_file = λ path. none;
  as_text = λ v. elim v [
    | text t ↦ some t
    | int n ↦ none
    | float x ↦ none
    | flag b ↦ none
    | other_value ↦ none
  ];
  as_int = λ v. elim v [
    | text t ↦ none
    | int n ↦ some n
    | float x ↦ none
    | flag b ↦ none
    | other_value ↦ none
  ];
  as_float = λ v. elim v [
    | text t ↦ none
    | int n ↦ none
    | float x ↦ some x
    | flag b ↦ none
    | other_value ↦ none
  ];
  as_flag = λ v. elim v [
    | text t ↦ some true
    | int n ↦ none
    | float x ↦ none
    | flag b ↦ some b
    | other_value ↦ none
  ];
  as_duration = λ v. some 30;
}

sources-Converts : Converts sources
sources-Converts = record {
  texts = λ t. refl;
  ints = λ n. refl;
  floats = λ x. refl;
  flags = λ b. refl;
  durations = (30, refl);
}

abbrev in_dev_mode : Sources milli.F
in_dev_mode = with_environment (dsn_and_mode (codes "postgres://db") (codes "true")) sources

load_default_example :
    load milli in_dev_mode [] ≡ inr (default_config milli true (codes "postgres://db"))
load_default_example =
    load_default milli milli-Laws sources b'p' b't' (codes "ostgres://db") (codes "rue") true
      sources-Converts refl

abbrev outside : Outside milli.F
outside = record {
  sources = in_dev_mode;
  host = host;
  connects = λ dsn. true;
  pings = true;
  opens_migrations = λ dir dsn. true;
  migrates = applied;
  listens = λ addr. true;
  ending = signalled;
}

run-IsReleased_example : phase_after down (run milli toy outside []).0 ≡ some down
run-IsReleased_example = run-IsReleased milli toy outside []

run-OnlyMigrates_example : OnlyMigrates (run milli toy outside (codes "--migrate-only" ∷ []))
run-OnlyMigrates_example =
    run-OnlyMigrates milli toy outside (codes "--migrate-only" ∷ []) (Memᴰ.head refl)

abbrev stream : CloseRequest → Option (List CloseEvent)
stream q = some (update ∷ update ∷ end_of_stream ∷ [])

abbrev row : LndChannel
row = record {
  channel_point = codes "ab:7";
  chan_id = 5;
  remote_pubkey = codes "02";
  capacity = pos 9;
  local_balance = pos 4;
  is_active = true;
}

lnd_force_close_chan-listed_example :
    (lnd_force_close_chan stream (lnd_to_channel row).channel_id ≡ true)
    ↔ ClosesWell (stream (record { funding_txid = codes "ab"; output_index = 7; force = true }))
unfolding decimal close_loop
lnd_force_close_chan-listed_example =
    lnd_force_close_chan-listed stream row (codes "ab") 7 refl
      ((λ h. ground arith), ((λ h. ground arith), tt)) (omega arith)

abbrev fields : List (Text × Text)
fields = (codes "b", codes "2") ∷ (codes "a", codes "1") ∷ []

abbrev swapped : List (Text × Text)
swapped = (codes "a", codes "1") ∷ (codes "b", codes "2") ∷ []
