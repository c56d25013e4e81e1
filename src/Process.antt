-- ===== src/Process.antt =====
-- cmd/coordinator/main.go: `run` as a whole, by what it does to the world outside, in its order.
pub mod Phases
pub mod Lifetime
pub mod Migrating
pub mod Logging
pub mod Success
use open_world_model.Base.{
  ℕ, zero, suc, ◌*◌, Bool, true, false, ◌⊎◌, inl, inr, Option, none, some, List, [], ◌∷◌, ◌++◌,
  if◌then◌else◌,
}
use open_world_model.Base.Text.{Text, codes, is_empty}
use open_world_model.Float64.{Float64}
use open_world_model.Config.{Config}
use open_world_model.Config.Settings.{Sources}
use open_world_model.Config.Load.{LoadError, load}
use open_world_model.Observer.Crypto.{Crypto}
use open_world_model.Startup.{Host, StartError, start, read_args}

-- The tickers of `run`, and their intervals in seconds.
pub data Ticker : Type 0 where
  requeue_timed_out stake_reverify fl_expire_rounds : Ticker

abbrev pub interval : Ticker → ℕ
interval requeue_timed_out = 60
interval stake_reverify = 6 * 3600
interval fl_expire_rounds = 5 * 60

-- What `run` opens, starts, stops and closes.
pub data Action : Type 0 where
  open_pool close_pool : Action
  open_migrations close_migrations apply_migrations : Action
  make_services : Action
  listen_grpc listen_tor : Text → Action
  serve_http : Text → Action
  serve_tor serve_grpc : Action
  start_dispatcher : Action
  start_ticker : Ticker → Action
  cancel_background shut_http stop_grpc : Action

pub data RunError : Type 0 where
  loading_config : LoadError → RunError
  connecting_to_database database_ping opening_migrations migrating_up : RunError
  starting : StartError → RunError
  listening listening_tor : RunError
  grpc_serve : RunError

pub data MigrateResult : Type 0 where
  applied no_change migrate_failed : MigrateResult

-- What the `select` at the end receives.
pub data Ending : Type 0 where
  signalled serve_failed : Ending

-- The answers from outside.
pub record Outside (A : Type 0) : Type 0 where
  pub sources : Sources A
  pub host : Host
  pub connects : Text → Bool
  pub pings : Bool
  pub opens_migrations : Text → Text → Bool
  pub migrates : MigrateResult
  pub listens : Text → Bool
  pub ending : Ending

-- The actions, and the error or the result.
abbrev pub Traced : Type 0 → Type 0
Traced A = List Action × (RunError ⊎ A)

abbrev pub and_then : {A B : Type 0} → List Action → (RunError ⊎ A) → (A → Traced B) → Traced B
and_then t (inl e) f = (t, inl e)
and_then t (inr a) f = (t ++ (f a).0, (f a).1)

infixl 5 ◌>>=◌ ◌>>◌
abbrev pub ◌>>=◌ : {A B : Type 0} → Traced A → (A → Traced B) → Traced B
m >>= f = and_then m.0 m.1 f

abbrev pub ◌>>◌ : {A B : Type 0} → Traced A → Traced B → Traced B
m >> k = m >>= λ _. k

abbrev pub return : {A : Type 0} → A → Traced A
return a = ([], inr a)

abbrev pub act : Action → Traced (Unit {0})
act a = (a ∷ [], inr tt)

abbrev pub fail_unless : Bool → RunError → Traced (Unit {0})
fail_unless good e = ([], if good then inr tt else inl e)

abbrev pub or_fail : {E A : Type 0} → (E → RunError) → E ⊎ A → Traced A
or_fail f (inl e) = ([], inl (f e))
or_fail f (inr a) = ([], inr a)

-- `defer`: the action follows the body, whatever that returns.
abbrev pub deferred : {A : Type 0} → Action → Traced A → Traced A
deferred a (t, r) = (t ++ a ∷ [], r)

abbrev pub or_default : Text → Text → Text
or_default s d = if is_empty s then d else s

unfoldable pub migrate : MigrateResult → Traced (Unit {0})
migrate applied = act apply_migrations
migrate no_change = act apply_migrations
migrate migrate_failed = ([], inl migrating_up)

-- From the end of the `select`. The deferred cancel follows.
unfoldable pub shut_down : Ending → Traced (Unit {0})
shut_down signalled = do act cancel_background; act shut_http; act stop_grpc
shut_down serve_failed = ([], inl grpc_serve)

-- The dispatcher, the tickers, and the wait for the end.
unfoldable pub run_background : Ending → Traced (Unit {0})
unfolding shut_down
run_background ending = do
  act start_dispatcher
  deferred cancel_background (do
    act (start_ticker requeue_timed_out)
    act (start_ticker stake_reverify)
    act (start_ticker fl_expire_rounds)
    act serve_grpc
    shut_down ending)

-- After the migrations, unless they are all that was asked for.
abbrev pub unless_only : Bool → Traced (Unit {0}) → Traced (Unit {0})
unless_only true m = return tt
unless_only false m = m

abbrev pub file_from_env : Option Text → Text
file_from_env none = []
file_from_env (some path) = path

module _ (fp : Float64) (crypto : Crypto) (o : Outside fp.F) where
  unfoldable pub listen_on_tor : Bool → Text → Traced (Unit {0})
  listen_on_tor false addr = return tt
  listen_on_tor true addr = do
    fail_unless (o.listens addr) listening_tor
    act (listen_tor addr)
    act serve_tor

  -- What follows the listener of the gRPC server.
  unfoldable pub serve_on : Text → Config fp.F → Traced (Unit {0})
  unfolding listen_on_tor run_background
  serve_on addr c = do
    act (listen_grpc addr)
    act (serve_http (or_default c.server.http_addr (codes ":9001")))
    listen_on_tor c.tor.enabled (or_default c.tor.local_bind_addr (codes "127.0.0.1:9002"))
    run_background o.ending

  unfoldable pub serve : Config fp.F → Traced (Unit {0})
  unfolding serve_on
  serve c = do
    fail_unless (o.listens (or_default c.server.grpc_addr (codes ":9000"))) listening
    serve_on (or_default c.server.grpc_addr (codes ":9000")) c

  unfoldable pub run_services : Config fp.F → Traced (Unit {0})
  unfolding serve
  run_services c = do
    services ← or_fail starting (start fp crypto o.host c)
    act make_services
    serve c

  -- What follows the opening of the migrations, before they are closed.
  unfoldable pub run_opened : Bool → Config fp.F → Traced (Unit {0})
  unfolding migrate run_services
  run_opened only c = do migrate o.migrates; unless_only only (run_services c)

  unfoldable pub run_migrated : Bool → Config fp.F → Traced (Unit {0})
  unfolding run_opened
  run_migrated only c = do
    fail_unless (o.opens_migrations (or_default c.migrations_dir (codes "migrations")) c.dsn)
        opening_migrations
    act open_migrations
    deferred close_migrations (run_opened only c)

  -- What follows the opening of the pool, before it is closed.
  unfoldable pub run_connected : Bool → Config fp.F → Traced (Unit {0})
  unfolding run_migrated
  run_connected only c = do fail_unless o.pings database_ping; run_migrated only c

  unfoldable pub run_pooled : Bool → Config fp.F → Traced (Unit {0})
  unfolding run_connected
  run_pooled only c = do
    fail_unless (o.connects c.dsn) connecting_to_database
    act open_pool
    deferred close_pool (run_connected only c)

  -- `args` are the arguments after the command's name.
  unfoldable pub run : List Text → Traced (Unit {0})
  unfolding run_pooled read_args
  run args = do
    let (path, only) =
        read_args args (file_from_env (o.sources.environment (codes "OWM_CONFIG_FILE")), false)
    c ← or_fail loading_config (load fp o.sources path)
    run_pooled only c

-- What a ticker's `select` receives.
pub data TickEvent : Type 0 where
  tick done : TickEvent

-- How often `runTicker` calls its function.
unfoldable pub run_ticker : List TickEvent → ℕ
run_ticker [] = 0
run_ticker (done ∷ es) = 0
run_ticker (tick ∷ es) = suc (run_ticker es)
