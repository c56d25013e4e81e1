-- ===== src/Startup.antt =====
-- cmd/coordinator/main.go, `run`: the clients and services that are made from the configuration,
-- once the database is migrated.
pub mod Roles
pub mod Treasury
pub mod Success
use open_world_model.Base.{
  ◌≡◌, Bool, true, false, ◌⊎◌, inl, inr, Option, none, some, List, [], ◌∷◌, ◌&&◌, ◌*◌, not,
  if◌then◌else◌,
}
use open_world_model.Base.Int.{pos}
use open_world_model.Base.Text.{Text, codes, text_eq, is_empty}
use open_world_model.Float64.{Float64}
use open_world_model.Stake.{Verifier}
use open_world_model.Fl.Checkpoint.{OrchestratorConfig, new_with_config}
use open_world_model.Config.{Config, LightningConfig, S3Config, ObserverConfig, ServerConfig}
use open_world_model.Config.Transport.{Transport, mutual_tls, server_tls, plaintext, grpc_transport}
use open_world_model.Lightning.{MockClient, new_mock, hex_encode_macaroon}
use open_world_model.Lightning.Cln.{ClnClient, Server, Json, new_cln_client, cln_get_info}
use open_world_model.Lightning.Invoices.{mock_get_info}
use open_world_model.Lightning.Lnd.{refuses_plaintext}
use open_world_model.Observer.{pubkey_hash_hex}
use open_world_model.Observer.Crypto.{Crypto}
use open_world_model.Observer.Client.{Client, new_client, set_sender_pubkey_hash}

-- The gRPC connection to LND, with the macaroon that goes with each call.
pub record LndClient : Type 0 where
  pub host : Text
  pub tls_cert_path : Text
  pub macaroon_hex : Text

-- lightning.Client
pub data LightningClient : Type 0 where
  mock : MockClient → LightningClient
  cln : ClnClient → LightningClient
  lnd : LndClient → LightningClient

-- The files, the crypto/tls and grpc packages, CLN's server with the decoders of its answers, and the
-- public key of LND's GetInfo call; `none` is an error.
pub record Host : Type 0 where
  pub read_file : Text → Option Text
  pub dials : Text → Text → Bool
  pub has_certs : Text → Bool
  pub has_key_pair : Text → Text → Bool
  pub cln_server : Server
  pub cln_json : Json
  pub cln_id : Text → Option Text
  pub lnd_info : LndClient → Option Text

-- The public key of `GetInfo`.
unfoldable pub get_info : Host → LightningClient → Option Text
unfolding cln_get_info
get_info h (mock m) = some mock_get_info.pubkey_hex
get_info h (cln c) = cln_get_info h.cln_json h.cln_id h.cln_server c
get_info h (lnd c) = h.lnd_info c

-- The errors of `run`.
pub data StartError : Type 0 where
  reading_readonly_macaroon reading_payment_macaroon reading_slashing_macaroon : StartError
  lnd_readonly_client lnd_payment_client lnd_slashing_client : StartError
  s3_client_error : StartError
  observer_signing_key observer_client treasury_pubkey empty_sender_hash : StartError
  reading_ca_cert parsing_ca_cert loading_server_tls loading_tls_credentials : StartError

infixl 5 ◌>>=◌
abbrev pub ◌>>=◌ : {A B : Type 0} → StartError ⊎ A → (A → StartError ⊎ B) → StartError ⊎ B
(inl e) >>= f = inl e
(inr a) >>= f = f a

abbrev pub or_error : {A : Type 0} → StartError → Option A → StartError ⊎ A
or_error e none = inl e
or_error e (some a) = inr a

abbrev pub error_unless : Bool → StartError → StartError ⊎ Unit {0}
error_unless good e = if good then inr tt else inl e

-- The loop over the arguments: the path of the configuration, and whether to migrate only.
unfoldable pub read_args : List Text → Text × Bool → Text × Bool
read_args [] r = r
read_args (a ∷ args) (path, migrate_only) =
    if text_eq a (codes "--migrate-only")
    then read_args args (path, true)
    else read_args args (a, migrate_only)

-- The clients of the stake verifier's two roles and of the payment dispatcher.
pub record LightningClients : Type 0 where
  pub readonly : LightningClient
  pub payment : LightningClient
  pub slashing : LightningClient

unfoldable pub new_lnd_client : Host → Text → Text → Text → Option LndClient
unfolding refuses_plaintext
new_lnd_client h host cert macaroon =
    if refuses_plaintext cert macaroon
    then none
    else if h.dials host cert
    then some
        (record { host = host; tls_cert_path = cert; macaroon_hex = hex_encode_macaroon macaroon })
    else none

unfoldable pub lnd_clients : Host → LightningConfig → StartError ⊎ LightningClients
unfolding new_lnd_client
lnd_clients h l = do
  readonly_mac ← or_error reading_readonly_macaroon (h.read_file l.readonly_macaroon_path)
  payment_mac ← or_error reading_payment_macaroon (h.read_file l.payment_macaroon_path)
  slashing_mac ← or_error reading_slashing_macaroon (h.read_file l.slashing_macaroon_path)
  readonly ← or_error lnd_readonly_client (new_lnd_client h l.lnd_host l.tls_cert_path readonly_mac)
  payment ← or_error lnd_payment_client (new_lnd_client h l.lnd_host l.tls_cert_path payment_mac)
  slash ← or_error lnd_slashing_client (new_lnd_client h l.lnd_host l.tls_cert_path slashing_mac)
  inr (record { readonly = lnd readonly; payment = lnd payment; slashing = lnd slash })

-- One client in all of the roles.
abbrev pub all_roles : LightningClient → LightningClients
all_roles c = record { readonly = c; payment = c; slashing = c }

unfoldable pub lightning_clients : Host → Bool → LightningConfig → StartError ⊎ LightningClients
unfolding lnd_clients new_cln_client
lightning_clients h dev_mode l =
    if dev_mode
    then inr (all_roles (mock new_mock))
    else if text_eq l.backend (codes "cln")
    then inr (all_roles (cln (new_cln_client l.cln.base_url l.cln.api_key)))
    else lnd_clients h l

-- The verifier's `SlashConfig`; thirty days in nanoseconds.
abbrev pub new_verifier : Verifier
new_verifier = record {
  has_readonly = true;
  has_slash = true;
  t1_auto_slash_signals = pos 3;
  t2t3_maintainer_acks = pos 2;
  cooldown_duration = 30 * 24 * 3600 * 1000000000;
}

-- The options of the S3 SDK's client.
pub record S3Client : Type 0 where
  pub bucket : Text
  pub region : Text
  pub static_credentials : Option (Text × Text)
  pub base_endpoint : Option Text

unfoldable pub new_s3_client : S3Config → Option S3Client
new_s3_client c =
    if is_empty c.bucket
    then none
    else some (record {
      bucket = c.bucket;
      region = if is_empty c.region then codes "us-east-1" else c.region;
      static_credentials =
          if not (is_empty c.access_key) && not (is_empty c.secret_key)
          then some (c.access_key, c.secret_key)
          else none;
      base_endpoint = if is_empty c.endpoint then none else some c.endpoint;
    })

abbrev pub present : {A : Type 0} → StartError ⊎ A → StartError ⊎ Option A
present r = do a ← r; inr (some a)

unfoldable pub start_storage : S3Config → StartError ⊎ Option S3Client
unfolding new_s3_client
start_storage c =
    if is_empty c.bucket then inr none else present (or_error s3_client_error (new_s3_client c))

module _ (crypto : Crypto) where
  -- The client with the hash of the treasury's public key as its sender.
  unfoldable pub with_sender : Text → Client → StartError ⊎ Client
  with_sender pubkey client =
      let hash = pubkey_hash_hex crypto pubkey in
      if is_empty hash
      then inl empty_sender_hash
      else inr (set_sender_pubkey_hash crypto hash client)

  unfoldable pub new_observer : Host → ObserverConfig → LightningClient → StartError ⊎ Client
  unfolding with_sender get_info
  new_observer h o readonly = do
    key ← or_error observer_signing_key (h.read_file o.signing_key_path)
    client ← or_error observer_client (new_client crypto o.api_endpoint key)
    pubkey ← or_error treasury_pubkey (get_info h readonly)
    with_sender pubkey client

  unfoldable pub start_observer :
      Host → ObserverConfig → LightningClient → StartError ⊎ Option Client
  unfolding new_observer
  start_observer h o readonly = if o.enabled then present (new_observer h o readonly) else inr none

-- The files that the transport needs.
unfoldable pub load_transport : Host → ServerConfig → Transport → StartError ⊎ Transport
load_transport h s mutual_tls = do
  ca ← or_error reading_ca_cert (h.read_file s.ca_cert_file)
  certs ← error_unless (h.has_certs ca) parsing_ca_cert
  pair ← error_unless (h.has_key_pair s.tls_cert_file s.tls_key_file) loading_server_tls
  inr mutual_tls
load_transport h s server_tls = do
  pair ← error_unless (h.has_key_pair s.tls_cert_file s.tls_key_file) loading_tls_credentials
  inr server_tls
load_transport h s (plaintext warned) = inr (plaintext warned)

pub record Coordinator (fp : Float64) : Type 0 where
  pub lightning : LightningClients
  pub verifier : Verifier
  pub has_redis : Bool
  pub storage : Option S3Client
  pub orchestrator : OrchestratorConfig fp
  pub observer : Option Client
  pub transport : Transport

-- From the Lightning clients to the gRPC server's options.
unfoldable pub start : (fp : Float64) → Crypto → Host → Config fp.F → StartError ⊎ Coordinator fp
unfolding lightning_clients start_storage start_observer load_transport
start fp crypto h c = do
  clients ← lightning_clients h c.dev_mode c.lightning
  storage ← start_storage c.s3
  observer ← start_observer crypto h c.observer clients.readonly
  transport ← load_transport h c.server (grpc_transport c.dev_mode c.server)
  inr (record {
    lightning = clients;
    verifier = new_verifier;
    has_redis = not (is_empty c.redis_addr);
    storage = storage;
    orchestrator = new_with_config fp (
        some (record {
          gradient_l2_clip_norm = c.fl.gradient_l2_clip_norm;
          anomaly_std_dev_threshold = c.fl.anomaly_std_dev_threshold;
          ots_calendars = [];
        }));
    observer = observer;
    transport = transport;
  })
