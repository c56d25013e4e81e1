-- ===== src/Startup/Success.antt =====
-- That a configuration which passes `validate` starts.
use open_world_model.Base.{
  ◌≡◌, refl, sym, ◌∙◌, ap, Bool, true, false, ◌⊎◌, inl, inr, Option, none, some, arith, Bool-cases,
  if◌then◌else◌,
}
use mathlib.Core.Path.{subst}
use open_world_model.Base.Text.{Text, codes, text_eq, is_empty}
use open_world_model.Float64.{Float64}
use open_world_model.Config.{
  Config, LightningConfig, S3Config, ServerConfig, validate, validated, normal_backend,
}
use open_world_model.Config.Settings.{Sources, Value, no_file}
use open_world_model.Config.Load.{load, load_from, check_config, checked, unmarshal}
use open_world_model.Config.{ConfigError}
use open_world_model.Config.Guarantees.{IsConnected, validate_guarantees}
use open_world_model.Config.Transport.{Transport, mutual_tls, server_tls, plaintext, grpc_transport}
use open_world_model.Lightning.Lnd.{refuses_plaintext}
use open_world_model.Observer.Crypto.{Crypto}
use open_world_model.Startup.{
  Host, LightningClients, LndClient, StartError, or_error, error_unless, ◌>>=◌, new_lnd_client,
  lnd_clients, lightning_clients, new_s3_client, start_storage, start_observer, load_transport,
  start,
}

-- Every file can be read, and every call of the TLS and gRPC packages succeeds.
pub record Works (h : Host) : Type 0 where
  pub reads : (path : Text) → (content : Text) × (h.read_file path ≡ some content)
  pub connects : (host cert : Text) → h.dials host cert ≡ true
  pub parses : (ca : Text) → h.has_certs ca ≡ true
  pub pairs : (cert key : Text) → h.has_key_pair cert key ≡ true

abbrev pub Succeeds : {A : Type 0} → StartError ⊎ A → Type 0
Succeeds {A} r = (a : A) × (r ≡ inr a)

bind-Succeeds :
    {A B : Type 0} (f : A → StartError ⊎ B) (r : StartError ⊎ A)
    → Succeeds r
    → ((a : A) → Succeeds (f a))
    → Succeeds (r >>= f)
bind-Succeeds f r (a, e) h = rw e (h a)

or_error-Succeeds :
    {A : Type 0} (e : StartError) (o : Option A)
    → ((a : A) × (o ≡ some a))
    → Succeeds (or_error e o)
or_error-Succeeds e o (a, h) = rw h (a, refl)

error_unless-Succeeds : (b : Bool) (e : StartError) → b ≡ true → Succeeds (error_unless b e)
error_unless-Succeeds b e h = rw h (tt, refl)

new_lnd_client-Succeeds :
    (h : Host) (host cert macaroon : Text)
    → Works h
    → is_empty cert ≡ false
    → (client : LndClient) × (new_lnd_client h host cert macaroon ≡ some client)
unfolding new_lnd_client refuses_plaintext
new_lnd_client-Succeeds h host cert macaroon works has_cert =
    elim (Bool-cases (is_empty macaroon)) [
      | inl e ↦ rw (has_cert, works.connects host cert, e) (_, refl)
      | inr e ↦ rw (has_cert, works.connects host cert, e) (_, refl)
    ]

lnd_clients-Succeeds :
    (h : Host) (l : LightningConfig)
    → Works h
    → is_empty l.tls_cert_path ≡ false
    → Succeeds (lnd_clients h l)
unfolding lnd_clients
lnd_clients-Succeeds h l works cert =
    bind-Succeeds _ _ (or_error-Succeeds _ _ (works.reads l.readonly_macaroon_path)) λ r.
      bind-Succeeds _ _ (or_error-Succeeds _ _ (works.reads l.payment_macaroon_path)) λ p.
        bind-Succeeds _ _ (or_error-Succeeds _ _ (works.reads l.slashing_macaroon_path)) λ s.
          bind-Succeeds _ _
            (or_error-Succeeds _ _ (new_lnd_client-Succeeds h l.lnd_host _ r works cert))
            λ cr.
              bind-Succeeds _ _
                (or_error-Succeeds _ _ (new_lnd_client-Succeeds h l.lnd_host _ p works cert))
                λ cp.
                  bind-Succeeds _ _
                    (or_error-Succeeds _ _ (new_lnd_client-Succeeds h l.lnd_host _ s works cert))
                    λ cs. (_, refl)

-- The backend's name is its normal name.
lightning_clients-Succeeds :
    (h : Host) (dev_mode : Bool) (l : LightningConfig)
    → Works h
    → (dev_mode ≡ true) ⊎ IsConnected l.backend l
    → Succeeds (lightning_clients h dev_mode l)
unfolding lightning_clients
lightning_clients-Succeeds h true l works c = (_, refl)
lightning_clients-Succeeds h false l works (inl e) = absurd (ground arith)
lightning_clients-Succeeds h false l works (inr (inr (is_cln, url, key))) = rw is_cln (_, refl)
lightning_clients-Succeeds h false l works (inr (inl (is_lnd, host, cert, p, r, s))) =
    elim (Bool-cases (text_eq l.backend (codes "cln"))) [
      | inl e ↦ rw e (_, refl)
      | inr e ↦ rw e (lnd_clients-Succeeds h l works cert)
    ]

start_storage-Succeeds : (c : S3Config) → Succeeds (start_storage c)
unfolding start_storage new_s3_client
start_storage-Succeeds c = elim (Bool-cases (is_empty c.bucket)) [
  | inl e ↦ rw e (_, refl)
  | inr e ↦ rw e (_, refl)
]

load_transport-Succeeds :
    (h : Host) (s : ServerConfig) (t : Transport) → Works h → Succeeds (load_transport h s t)
unfolding load_transport
load_transport-Succeeds h s mutual_tls works =
    bind-Succeeds _ _ (or_error-Succeeds _ _ (works.reads s.ca_cert_file)) λ ca.
      bind-Succeeds _ _ (error_unless-Succeeds _ _ (works.parses ca)) λ u.
        bind-Succeeds _ _ (error_unless-Succeeds _ _ (works.pairs s.tls_cert_file s.tls_key_file))
          λ v. (_, refl)
load_transport-Succeeds h s server_tls works =
    bind-Succeeds _ _ (error_unless-Succeeds _ _ (works.pairs s.tls_cert_file s.tls_key_file))
      λ v. (_, refl)
load_transport-Succeeds h s (plaintext warned) works = (_, refl)

start_with-Succeeds :
    (fp : Float64) (crypto : Crypto) (h : Host) (c : Config fp.F)
    → (c.dev_mode ≡ true) ⊎ IsConnected c.lightning.backend c.lightning
    → Works h
    → c.observer.enabled ≡ false
    → Succeeds (start fp crypto h c)
unfolding start start_observer
start_with-Succeeds fp crypto h c connected works off =
    bind-Succeeds _ _ (lightning_clients-Succeeds h c.dev_mode c.lightning works connected) λ cs.
      bind-Succeeds _ _ (start_storage-Succeeds c.s3) λ s.
        bind-Succeeds _ (start_observer crypto h c.observer cs.readonly) (no_observer cs) λ o.
          bind-Succeeds _ _
            (load_transport-Succeeds h c.server (grpc_transport c.dev_mode c.server) works)
            λ t. (_, refl)
  where
    no_observer :
        (cs : LightningClients) → Succeeds (start_observer crypto h c.observer cs.readonly)
    no_observer cs = (none, rw off refl)

has_dsn : (fp : Float64) (c : Config fp.F) → validate fp c ≡ none → is_empty c.dsn ≡ false
unfolding validate
has_dsn fp c valid = elim (Bool-cases (is_empty c.dsn)) [
  | inl e ↦ absurd (ground (arith, e, valid))
  | inr e ↦ e
]

-- With the observer disabled, a configuration that passes `validate` starts: if the files can be read
-- and the calls of the TLS and gRPC packages succeed, no setting makes `run` end with an error, in
-- dev mode or with either backend, however its name is written.
pub start-Succeeds :
    (fp : Float64) (crypto : Crypto) (h : Host) (c : Config fp.F)
    → validate fp c ≡ none
    → Works h
    → c.observer.enabled ≡ false
    → Succeeds (start fp crypto h (validated fp c))
unfolding validated
start-Succeeds fp crypto h c valid works off =
    subst (λ d. Succeeds (start fp crypto h d))
      (sym (ap (λ b. if b then c else with_normal_backend) (has_dsn fp c valid)))
      (start_with-Succeeds fp crypto h with_normal_backend (validate_guarantees fp c valid).1 works
        off)
  where
    with_normal_backend : Config fp.F
    with_normal_backend = record c {
      lightning = record c.lightning { backend = normal_backend c.lightning.backend };
    }

load-IsValid :
    (fp : Float64) (s : Sources fp.F) (path : Text) (c : Config fp.F)
    → load fp s path ≡ inr c
    → (d : Config fp.F) × (validate fp d ≡ none) × (validated fp d ≡ c)
unfolding load
load-IsValid fp s path c = by_file (if is_empty path then some no_file else s.config_file path)
  where
    by_check :
        (d : Config fp.F) (o : Option ConfigError)
        → validate fp d ≡ o
        → checked fp s d o ≡ inr c
        → (d : Config fp.F) × (validate fp d ≡ none) × (validated fp d ≡ c)
    by_check d none v h = (d, v, cc)
    by_check d (some e) v h = absurd cc

    by_config :
        (o : Option (Config fp.F))
        → check_config fp s o ≡ inr c
        → (d : Config fp.F) × (validate fp d ≡ none) × (validated fp d ≡ c)
    by_config none h = absurd cc
    by_config (some d) h = by_check d (validate fp d) refl h

    by_file :
        (o : Option (Text → Option (Value fp.F)))
        → load_from fp s o ≡ inr c
        → (d : Config fp.F) × (validate fp d ≡ none) × (validated fp d ≡ c)
    by_file none h = absurd cc
    by_file (some file) h = by_config (unmarshal fp s file) h

validated-observer :
    (fp : Float64) (d : Config fp.F) → (validated fp d).observer.enabled ≡ d.observer.enabled
unfolding validated
validated-observer fp d = by_dsn (is_empty d.dsn)
  where
    by_dsn :
        (b : Bool)
        → (let v : Config fp.F = if b then d else record d {
          lightning = record d.lightning { backend = normal_backend d.lightning.backend };
        } in
            v.observer.enabled ≡ d.observer.enabled)
    by_dsn true = refl
    by_dsn false = refl

-- With a configuration that `Load` returns and the observer disabled, the services are made, from the
-- Lightning clients to the options of the gRPC server, if the files can be read and the calls of the
-- TLS and gRPC packages succeed, in dev mode or with either backend.
pub load-Succeeds :
    (fp : Float64) (s : Sources fp.F) (path : Text) (crypto : Crypto) (h : Host) (c : Config fp.F)
    → load fp s path ≡ inr c
    → Works h
    → c.observer.enabled ≡ false
    → Succeeds (start fp crypto h c)
load-Succeeds fp s path crypto h c loaded works off =
    let (d, valid, same) = load-IsValid fp s path c loaded in
    subst (λ (e : Config fp.F). Succeeds (start fp crypto h e)) same
      (start-Succeeds fp crypto h d valid works
        (sym (validated-observer fp d) ∙ ap (λ (e : Config fp.F). e.observer.enabled) same ∙ off))
