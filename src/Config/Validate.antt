-- ===== src/Config/Validate.antt =====
-- `validate`: the checks in the order of the source; the first that fails is the error.
use open_world_model.Base.{ℕ, ◌+◌, Bool, not, ◌&&◌, ◌||◌, Option, none, some, if◌then◌else◌, ltb}
use open_world_model.Base.Int.{pos, ltb_ℤ}
use open_world_model.Base.Text.{Text, codes, text_eq, is_empty, trim_space, to_lower}
use open_world_model.Float64.{Float64}
use open_world_model.Config.Defs.{
  Config, ServerConfig, LightningConfig, S3Config, StakeConfig, ObserverConfig, FlConfig,
  ConfigError, dsn_required, lnd_host_required, lnd_tls_cert_required, payment_macaroon_required,
  readonly_macaroon_required, slashing_macaroon_required, cln_base_url_required,
  cln_api_key_required, unknown_backend, ca_cert_required, signing_key_required,
  api_endpoint_required, tier_floor_t1, tier_floor_t2, tier_floor_t3, tier_order, verify_interval,
  grace_period, cooldown_days, auto_slash_signals, maintainer_acks, fl_participants, fl_clip_norm,
  fl_threshold, fl_interval, fl_top_k, s3_partial,
}

-- A check that fails ends the validation.
infixr 6 ◌then_check◌
abbrev pub ◌then_check◌ : Option ConfigError → Option ConfigError → Option ConfigError
none then_check next = next
(some e) then_check next = some e

abbrev pub reject_if : Bool → ConfigError → Option ConfigError
reject_if bad e = if bad then some e else none

-- The backend's name in lower case without spaces, `lnd` if it is empty.
abbrev or_lnd : Text → Text
or_lnd s = if is_empty s then codes "lnd" else s

unfoldable pub normal_backend : Text → Text
normal_backend s = or_lnd (to_lower (trim_space s))

unfoldable pub check_lnd : LightningConfig → Option ConfigError
check_lnd l =
    reject_if (is_empty l.lnd_host) lnd_host_required
    then_check reject_if (is_empty l.tls_cert_path) lnd_tls_cert_required
    then_check reject_if (is_empty l.payment_macaroon_path) payment_macaroon_required
    then_check reject_if (is_empty l.readonly_macaroon_path) readonly_macaroon_required
    then_check reject_if (is_empty l.slashing_macaroon_path) slashing_macaroon_required

unfoldable pub check_cln : LightningConfig → Option ConfigError
check_cln l =
    reject_if (is_empty l.cln.base_url) cln_base_url_required
    then_check reject_if (is_empty l.cln.api_key) cln_api_key_required

unfoldable pub check_lightning : Bool → Text → LightningConfig → Option ConfigError
unfolding check_lnd check_cln
check_lightning dev_mode backend l =
    if dev_mode
    then none
    else if text_eq backend (codes "lnd")
    then check_lnd l
    else if text_eq backend (codes "cln")
    then check_cln l
    else some unknown_backend

unfoldable pub check_server : Bool → ServerConfig → Option ConfigError
check_server dev_mode s =
    reject_if (not (is_empty s.tls_cert_file) && not dev_mode && is_empty s.ca_cert_file)
      ca_cert_required

unfoldable pub check_observer : ObserverConfig → Option ConfigError
check_observer o =
    reject_if (o.enabled && is_empty o.signing_key_path) signing_key_required
    then_check reject_if (o.enabled && is_empty (trim_space o.api_endpoint)) api_endpoint_required

unfoldable pub check_stake : StakeConfig → Option ConfigError
check_stake s =
    reject_if (ltb_ℤ s.t1_minimum_sats (pos 100000)) tier_floor_t1
    then_check reject_if (ltb_ℤ s.t2_minimum_sats (pos 500000)) tier_floor_t2
    then_check reject_if (ltb_ℤ s.t3_minimum_sats (pos 2000000)) tier_floor_t3
    then_check reject_if
        (ltb_ℤ s.t2_minimum_sats s.t1_minimum_sats || ltb_ℤ s.t3_minimum_sats s.t2_minimum_sats)
        tier_order
    then_check reject_if (ltb_ℤ s.verify_interval_hours (pos 1)) verify_interval
    then_check reject_if (ltb_ℤ s.degraded_grace_period_hours (pos 1)) grace_period
    then_check reject_if (ltb_ℤ s.slash_cooldown_days (pos 1)) cooldown_days
    then_check reject_if (ltb_ℤ s.t1_auto_slash_signals (pos 3)) auto_slash_signals
    then_check reject_if (ltb_ℤ s.t2t3_maintainer_acks (pos 2)) maintainer_acks

abbrev pub one_if_set : Text → ℕ
one_if_set s = if is_empty s then 0 else 1

unfoldable pub s3_count : S3Config → ℕ
s3_count s =
    one_if_set s.endpoint + one_if_set s.bucket + one_if_set s.access_key + one_if_set s.secret_key

unfoldable pub check_s3 : S3Config → Option ConfigError
unfolding s3_count
check_s3 s = reject_if (ltb 0 (s3_count s) && ltb (s3_count s) 4) s3_partial

module _ (fp : Float64) where
  abbrev pub not_positive : fp.F → Bool
  not_positive x = fp.le x (fp.ratio 0 1)

  unfoldable pub check_fl : FlConfig fp.F → Option ConfigError
  check_fl f =
      reject_if (ltb_ℤ f.min_participants (pos 2)) fl_participants
      then_check reject_if (not_positive f.gradient_l2_clip_norm) fl_clip_norm
      then_check reject_if (not_positive f.anomaly_std_dev_threshold) fl_threshold
      then_check reject_if (ltb_ℤ f.round_interval_minutes (pos 1)) fl_interval
      then_check reject_if
          (fp.lt f.top_k_sparsification_pct (fp.ratio 0 1)
            || fp.lt (fp.ratio 1 1) f.top_k_sparsification_pct)
          fl_top_k

  -- `validate` also writes the backend's normal name back.
  unfoldable pub validate : Config fp.F → Option ConfigError
  unfolding check_lightning check_server check_observer check_stake check_fl check_s3
  validate c =
      reject_if (is_empty c.dsn) dsn_required
      then_check check_lightning c.dev_mode (normal_backend c.lightning.backend) c.lightning
      then_check check_server c.dev_mode c.server
      then_check check_observer c.observer
      then_check check_stake c.stake
      then_check check_fl c.fl
      then_check check_s3 c.s3

  unfoldable pub validated : Config fp.F → Config fp.F
  unfolding normal_backend
  validated c = if is_empty c.dsn then c else record c {
    lightning = record c.lightning { backend = normal_backend c.lightning.backend };
  }
