-- ===== src/Process/Success.antt =====
-- That a process with a configuration that `Load` returns runs until it is told to stop.
use open_world_model.Base.{◌≡◌, true, false, ◌⊎◌, inr}
use open_world_model.Base.Text.{Text, codes}
use open_world_model.Float64.{Float64}
use open_world_model.Config.{Config}
use open_world_model.Observer.Crypto.{Crypto}
use open_world_model.Process.{applied, no_change, signalled, Outside, Traced, ◌>>◌, or_default}

-- What the configuration names can be reached: the database, the migrations, which apply or have
-- nothing to change, and the addresses to listen on; and the process ends by a signal.
pub record Serves {A : Type 0} (o : Outside A) (c : Config A) : Type 0 where
  pub connects : o.connects c.dsn ≡ true
  pub pings : o.pings ≡ true
  pub opens : o.opens_migrations (or_default c.migrations_dir (codes "migrations")) c.dsn ≡ true
  pub migrates : (o.migrates ≡ applied) ⊎ (o.migrates ≡ no_change)
  pub listens : o.listens (or_default c.server.grpc_addr (codes ":9000")) ≡ true
  pub listens_tor :
      (c.tor.enabled ≡ false)
      ⊎ (o.listens (or_default c.tor.local_bind_addr (codes "127.0.0.1:9002")) ≡ true)
  pub signals : o.ending ≡ signalled

-- A result, and no error.
abbrev pub EndsWell : {A : Type 0} → Traced A → Type 0
EndsWell {A} m = (a : A) × (m.1 ≡ inr a)
