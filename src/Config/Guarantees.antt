-- ===== src/Config/Guarantees.antt =====
-- What a configuration that passes `validate` is known to satisfy, and how the gRPC server that
-- is started from it is protected.
use open_world_model.Base.{
  ◌≡◌, refl, Bool, true, false, ◌⊎◌, inl, inr, Option, none, some, arith, Bool-cases,
}
use open_world_model.Base.Int.{pos, ◌≤ℤ◌}
use open_world_model.Base.Text.{Text, codes, text_eq, is_empty}
use open_world_model.Float64.{Float64}
use open_world_model.Config.Defs.{
  Config, ConfigError, StakeConfig, LightningConfig, ServerConfig, S3Config,
}
use open_world_model.Config.Validate.{
  ◌then_check◌, validate, check_stake, check_lightning, check_server, check_s3, normal_backend,
  s3_count,
}

-- The tier floors, their order, and the bounds of SRS-STAKE-04 and of the intervals.
pub record IsSound (s : StakeConfig) : Type 0 where
  pub t1_floor : pos 100000 ≤ℤ s.t1_minimum_sats
  pub t2_floor : pos 500000 ≤ℤ s.t2_minimum_sats
  pub t3_floor : pos 2000000 ≤ℤ s.t3_minimum_sats
  pub t1_t2 : s.t1_minimum_sats ≤ℤ s.t2_minimum_sats
  pub t2_t3 : s.t2_minimum_sats ≤ℤ s.t3_minimum_sats
  pub interval : pos 1 ≤ℤ s.verify_interval_hours
  pub grace : pos 1 ≤ℤ s.degraded_grace_period_hours
  pub cooldown : pos 1 ≤ℤ s.slash_cooldown_days
  pub signals : pos 3 ≤ℤ s.t1_auto_slash_signals
  pub acks : pos 2 ≤ℤ s.t2t3_maintainer_acks

check_stake-IsSound : (s : StakeConfig) → check_stake s ≡ none → IsSound s
unfolding check_stake
check_stake-IsSound s h = ground arith

IsSound-check_stake : (s : StakeConfig) → IsSound s → check_stake s ≡ none
unfolding check_stake
IsSound-check_stake s h = ground arith

-- A Lightning backend with the settings that it needs.
abbrev pub IsConnected : Text → LightningConfig → Type 0
IsConnected backend l =
    ((text_eq backend (codes "lnd") ≡ true)
      × (is_empty l.lnd_host ≡ false)
      × (is_empty l.tls_cert_path ≡ false)
      × (is_empty l.payment_macaroon_path ≡ false)
      × (is_empty l.readonly_macaroon_path ≡ false)
      × (is_empty l.slashing_macaroon_path ≡ false))
    ⊎ ((text_eq backend (codes "cln") ≡ true)
        × (is_empty l.cln.base_url ≡ false)
        × (is_empty l.cln.api_key ≡ false))

check_lightning-IsConnected :
    (dev_mode : Bool) (backend : Text) (l : LightningConfig)
    → check_lightning dev_mode backend l ≡ none
    → (dev_mode ≡ true) ⊎ IsConnected backend l
unfolding check_lightning
check_lightning-IsConnected true backend l h = inl refl
check_lightning-IsConnected false backend l h = elim (Bool-cases (text_eq backend (codes "lnd"))) [
  | inl lnd ↦ inr (inl (ground arith))
  | inr other ↦ elim (Bool-cases (text_eq backend (codes "cln"))) [
    | inl cln ↦ inr (inr (ground arith))
    | inr unknown ↦ absurd (ground arith)
  ]
]

check_s3_count : (s : S3Config) → check_s3 s ≡ none → (s3_count s ≡ 0) ⊎ (s3_count s ≡ 4)
unfolding check_s3
check_s3_count s h = ground arith

check_server_ca :
    (dev_mode : Bool) (s : ServerConfig)
    → check_server dev_mode s ≡ none
    → (dev_mode ≡ true) ⊎ ((is_empty s.tls_cert_file ≡ true) ⊎ (is_empty s.ca_cert_file ≡ false))
unfolding check_server
check_server_ca true s h = inl refl
check_server_ca false s h = elim (Bool-cases (is_empty s.tls_cert_file)) [
  | inl e ↦ inr (inl e)
  | inr e ↦ inr (inr (ground arith))
]

split : (a b : Option ConfigError) → (a then_check b) ≡ none → (a ≡ none) × (b ≡ none)
split none b h = (refl, h)
split (some e) b h = absurd (cc)

-- A configuration that passes has sound stake settings, a connected Lightning backend unless it is
-- in dev mode, a CA where it names a certificate outside dev mode, and all of the S3 settings or none.
pub validate_guarantees :
    (fp : Float64) (c : Config fp.F)
    → validate fp c ≡ none
    → IsSound c.stake
      × ((c.dev_mode ≡ true) ⊎ IsConnected (normal_backend c.lightning.backend) c.lightning)
      × ((c.dev_mode ≡ true)
          ⊎ ((is_empty c.server.tls_cert_file ≡ true) ⊎ (is_empty c.server.ca_cert_file ≡ false)))
      × ((s3_count c.s3 ≡ 0) ⊎ (s3_count c.s3 ≡ 4))
unfolding validate
validate_guarantees fp c h =
    let (dsn, h₁) = split _ _ h in
    let (ln, h₂) = split _ _ h₁ in
    let (srv, h₃) = split _ _ h₂ in
    let (obs, h₄) = split _ _ h₃ in
    let (stk, h₅) = split _ _ h₄ in
    let (fl, s3) = split _ _ h₅ in
    (
      check_stake-IsSound c.stake stk,
      check_lightning-IsConnected c.dev_mode (normal_backend c.lightning.backend) c.lightning ln,
      check_server_ca c.dev_mode c.server srv,
      check_s3_count c.s3 s3,
    )
