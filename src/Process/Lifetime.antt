-- ===== src/Process/Lifetime.antt =====
-- That the process goes through its phases in order, and closes what it opens.
use open_world_model.Base.{◌≡◌, refl, Bool, true, false, ◌⊎◌, inl, inr, some, List}
use open_world_model.Base.Text.{Text, codes}
use open_world_model.Float64.{Float64}
use open_world_model.Config.{Config}
use open_world_model.Observer.Crypto.{Crypto}
use open_world_model.Startup.{StartError, Coordinator, start, read_args}
use open_world_model.Config.Load.{LoadError, load}
use open_world_model.Process.{
  open_pool, close_pool, open_migrations, close_migrations, make_services, listen_tor, serve_tor,
  loading_config, connecting_to_database, database_ping, opening_migrations, starting, listening,
  listening_tor, MigrateResult, applied, no_change, migrate_failed, Ending, signalled, serve_failed,
  Outside, Traced, ◌>>=◌, ◌>>◌, act, fail_unless, or_fail, deferred, or_default, migrate,
  run_background, listen_on_tor, serve_on, serve, run_services, unless_only, file_from_env,
  run_opened, run_connected, run_migrated, run_pooled, run,
}
use open_world_model.Process.Phases.{
  Phase, down, pooled, migrating, migrated, up, stopping, next, phase_after, After,
  fail_unless-After, deferred-After,
}

-- The phases from which the migrations can be closed, so that nothing runs in the background.
abbrev Quiescent : {A : Type 0} → A → Phase → Type 0
Quiescent r p = next p close_migrations ≡ some pooled

run_background-After : (e : Ending) → After up Quiescent (run_background e)
unfolding run_background phase_after
run_background-After signalled = (stopping, refl, refl)
run_background-After serve_failed = (stopping, refl, refl)

migrate-After :
    (r : MigrateResult) (m : Traced (Unit {0}))
    → After migrated Quiescent m
    → After migrating Quiescent (migrate r >>= λ u. m)
unfolding migrate phase_after
migrate-After applied m h = h
migrate-After no_change m h = h
migrate-After migrate_failed m h = (migrating, refl, refl)

unless_only-After :
    (only : Bool) (m : Traced (Unit {0}))
    → After migrated Quiescent m
    → After migrated Quiescent (unless_only only m)
unfolding phase_after
unless_only-After true m h = (migrated, refl, refl)
unless_only-After false m h = h

-- At the end of a part, the pool alone is open; or nothing.
abbrev IsPooled : {A : Type 0} → A → Phase → Type 0
IsPooled r p = p ≡ pooled

abbrev IsDown : {A : Type 0} → A → Phase → Type 0
IsDown r p = p ≡ down

module _ (fp : Float64) (crypto : Crypto) (o : Outside fp.F) where
  listen_on_tor-After :
      (enabled : Bool) (addr : Text) (m : Traced (Unit {0}))
      → After up Quiescent m
      → After up Quiescent (listen_on_tor fp crypto o enabled addr >>= λ u. m)
  unfolding listen_on_tor phase_after
  listen_on_tor-After false addr m h = h
  listen_on_tor-After true addr m h = by_listen (o.listens addr)
    where
      by_listen :
          (b : Bool)
          → After up Quiescent
              ((do fail_unless b listening_tor; act (listen_tor addr); act serve_tor) >>= λ u. m)
      by_listen true = h
      by_listen false = (up, refl, refl)

  serve_on-After :
      (addr : Text) (c : Config fp.F) → After up Quiescent (serve_on fp crypto o addr c)
  unfolding serve_on phase_after
  serve_on-After addr c =
      listen_on_tor-After c.tor.enabled _ (run_background o.ending) (run_background-After o.ending)

  run_services-After : (c : Config fp.F) → After migrated Quiescent (run_services fp crypto o c)
  unfolding run_services serve phase_after
  run_services-After c = by_start (start fp crypto o.host c)
    where
      addr : Text
      addr = or_default c.server.grpc_addr (codes ":9000")

      by_start :
          (r : StartError ⊎ Coordinator fp)
          → After migrated Quiescent
              (or_fail starting r >>= λ k. do act make_services; serve fp crypto o c)
      by_start (inl e) = (migrated, refl, refl)
      by_start (inr k) =
          fail_unless-After up (o.listens addr) listening Quiescent (serve_on fp crypto o addr c)
            refl (serve_on-After addr c)

  run_opened-After :
      (only : Bool) (c : Config fp.F) → After migrating Quiescent (run_opened fp crypto o only c)
  unfolding run_opened
  run_opened-After only c =
      migrate-After o.migrates (unless_only only (run_services fp crypto o c))
        (unless_only-After only (run_services fp crypto o c) (run_services-After c))

  run_migrated-After :
      (only : Bool) (c : Config fp.F) → After pooled IsPooled (run_migrated fp crypto o only c)
  unfolding run_migrated phase_after
  run_migrated-After only c =
      fail_unless-After pooled _ opening_migrations IsPooled
        (do act open_migrations; deferred close_migrations (run_opened fp crypto o only c)) refl
        (deferred-After migrating close_migrations IsPooled (run_opened fp crypto o only c)
          (let (q, h, k) = run_opened-After only c in (q, h, (pooled, k, refl))))

  run_pooled-After :
      (only : Bool) (c : Config fp.F) → After down IsDown (run_pooled fp crypto o only c)
  unfolding run_pooled run_connected phase_after
  run_pooled-After only c =
      fail_unless-After down _ connecting_to_database IsDown
        (do act open_pool; deferred close_pool (run_connected fp crypto o only c)) refl
        (deferred-After pooled close_pool IsDown (run_connected fp crypto o only c) (
          let (q, h, k) =
            fail_unless-After pooled o.pings database_ping IsPooled
              (run_migrated fp crypto o only c) refl (run_migrated-After only c) in
          (q, h, (down, rw k refl, refl))))

  run_loaded-After :
      (only : Bool) (r : LoadError ⊎ Config fp.F)
      → After down IsDown (or_fail loading_config r >>= run_pooled fp crypto o only)
  unfolding phase_after
  run_loaded-After only (inl e) = (down, refl, refl)
  run_loaded-After only (inr c) = run_pooled-After only c

  -- Whatever the arguments, the configuration, the host and the database answer, and however the
  -- process ends, each thing that `run` does is one that its phase allows: nothing is served and no
  -- ticker runs before the migrations are applied and the services made, the migrations are closed
  -- before the pool and only once the background context is cancelled, if the dispatcher was
  -- started; and at the end, after an error as after a signal, the pool and the migrations are
  -- closed if they were opened.
  pub run-IsReleased : (args : List Text) → phase_after down (run fp crypto o args).0 ≡ some down
  unfolding run
  run-IsReleased args =
      let (path, only) =
        read_args args (file_from_env (o.sources.environment (codes "OWM_CONFIG_FILE")), false) in
      let (q, h, k) = run_loaded-After only (load fp o.sources path) in rw k at h
