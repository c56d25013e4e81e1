-- ===== src/Process/Migrating.antt =====
-- What the process does with --migrate-only.
use open_world_model.Base.{
  ◌≡◌, refl, sym, Bool, true, false, ◌⊎◌, inl, inr, List, [], ◌∷◌, All, Memᴰ, cases_cons,
  Bool-cases,
}
use open_world_model.Base.Text.{Text, codes, text_eq, text_eq_refl}
use open_world_model.Float64.{Float64}
use open_world_model.Config.{Config}
use open_world_model.Config.Load.{LoadError, load}
use open_world_model.Observer.Crypto.{Crypto}
use open_world_model.Startup.{read_args}
use open_world_model.Process.{
  Action, open_pool, close_pool, open_migrations, close_migrations, apply_migrations,
  loading_config, connecting_to_database, database_ping, opening_migrations, MigrateResult, applied,
  no_change, migrate_failed, Outside, Traced, ◌>>=◌, ◌>>◌, return, act, fail_unless, or_fail,
  deferred, or_default, migrate, file_from_env, run_opened, run_connected, run_migrated, run_pooled,
  run,
}

-- The actions on the database and on the migrations.
abbrev pub is_migration : Action → Bool
is_migration open_pool = true
is_migration close_pool = true
is_migration open_migrations = true
is_migration close_migrations = true
is_migration apply_migrations = true
is_migration a = false

abbrev pub OnlyMigrates : {A : Type 0} → Traced A → Type 0
OnlyMigrates m = All (λ a. is_migration a ≡ true) m.0

read_args-set : (args : List Text) (path : Text) → (read_args args (path, true)).1 ≡ true
unfolding read_args
read_args-set [] path = refl
read_args-set (a ∷ args) path = elim (Bool-cases (text_eq a (codes "--migrate-only"))) [
  | inl e ↦ rw e (read_args-set args path)
  | inr e ↦ rw e (read_args-set args a)
]

read_args-flag :
    (args : List Text) (path : Text) (only : Bool)
    → Memᴰ (codes "--migrate-only") args
    → (read_args args (path, only)).1 ≡ true
unfolding read_args
read_args-flag [] path only m = elim m [ ]
read_args-flag (a ∷ args) path only m = elim (cases_cons m) [
  | inl e ↦ rw (sym e, text_eq_refl (codes "--migrate-only")) (read_args-set args path)
  | inr i ↦ elim (Bool-cases (text_eq a (codes "--migrate-only"))) [
    | inl e ↦ rw e (read_args-set args path)
    | inr e ↦ rw e (read_args-flag args a only i)
  ]
]

module _ (fp : Float64) (crypto : Crypto) (o : Outside fp.F) where
  run_pooled-OnlyMigrates : (c : Config fp.F) → OnlyMigrates (run_pooled fp crypto o true c)
  unfolding run_pooled run_connected run_migrated run_opened migrate
  run_pooled-OnlyMigrates c =
      by_answers (o.connects c.dsn) o.pings
        (o.opens_migrations (or_default c.migrations_dir (codes "migrations")) c.dsn) o.migrates
    where
      by_answers :
          (connects pings opens : Bool) (r : MigrateResult)
          → OnlyMigrates (do
            fail_unless connects connecting_to_database
            act open_pool
            deferred close_pool (do
              fail_unless pings database_ping
              fail_unless opens opening_migrations
              act open_migrations
              deferred close_migrations (do migrate r; return tt)))
      by_answers false pings opens r = tt
      by_answers true false opens r = (refl, (refl, tt))
      by_answers true true false r = (refl, (refl, tt))
      by_answers true true true applied = (refl, (refl, (refl, (refl, (refl, tt)))))
      by_answers true true true no_change = (refl, (refl, (refl, (refl, (refl, tt)))))
      by_answers true true true migrate_failed = (refl, (refl, (refl, (refl, tt))))

  run_loaded-OnlyMigrates :
      (r : LoadError ⊎ Config fp.F)
      → OnlyMigrates (or_fail loading_config r >>= run_pooled fp crypto o true)
  run_loaded-OnlyMigrates (inl e) = tt
  run_loaded-OnlyMigrates (inr c) = run_pooled-OnlyMigrates c

  -- With --migrate-only among the arguments, wherever it stands, `run` does nothing but open and
  -- close the pool and the migrations and apply these: it makes no service, listens nowhere, serves
  -- nothing and starts neither the dispatcher nor a ticker.
  pub run-OnlyMigrates :
      (args : List Text) → Memᴰ (codes "--migrate-only") args → OnlyMigrates (run fp crypto o args)
  unfolding run
  run-OnlyMigrates args m =
      let env : Text = file_from_env (o.sources.environment (codes "OWM_CONFIG_FILE")) in
      rw (read_args-flag args env false m)
        (run_loaded-OnlyMigrates (load fp o.sources (read_args args (env, false)).0))
