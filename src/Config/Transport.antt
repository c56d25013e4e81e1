-- ===== src/Config/Transport.antt =====
-- cmd/coordinator/main.go: the credentials of the gRPC server, by the configuration.
use open_world_model.Base.{
  Bool, true, false, not, ◌&&◌, ◌≡◌, ◌⊎◌, inl, inr, none, arith, if◌then◌else◌,
}
use open_world_model.Base.Text.{is_empty}
use open_world_model.Float64.{Float64}
use open_world_model.Config.Defs.{Config, ServerConfig}
use open_world_model.Config.Validate.{validate}
use open_world_model.Config.Guarantees.{validate_guarantees}

pub data Transport : Type 0 where
  mutual_tls server_tls : Transport
  -- no credentials, and whether a warning is logged
  plaintext : Bool → Transport

unfoldable pub grpc_transport : Bool → ServerConfig → Transport
grpc_transport dev_mode s =
    if not (is_empty s.tls_cert_file) && not (is_empty s.tls_key_file) && not dev_mode
    then mutual_tls
    else if not (is_empty s.tls_cert_file) && not (is_empty s.tls_key_file) && dev_mode
    then server_tls
    else plaintext (is_empty s.tls_cert_file)

-- A configuration that passes and names a certificate and a key outside dev mode is served over
-- mutual TLS, with a CA to check clients by.
pub grpc_transport_mutual :
    (fp : Float64) (c : Config fp.F)
    → validate fp c ≡ none
    → c.dev_mode ≡ false
    → is_empty c.server.tls_cert_file ≡ false
    → is_empty c.server.tls_key_file ≡ false
    → (grpc_transport c.dev_mode c.server ≡ mutual_tls) × (is_empty c.server.ca_cert_file ≡ false)
unfolding grpc_transport
grpc_transport_mutual fp c h d cert key = (ground arith, ca (validate_guarantees fp c h).2)
  where
    ca :
        (c.dev_mode ≡ true)
          ⊎ ((is_empty c.server.tls_cert_file ≡ true) ⊎ (is_empty c.server.ca_cert_file ≡ false))
        → is_empty c.server.ca_cert_file ≡ false
    ca (inl dev) = ground arith
    ca (inr (inl no_cert)) = ground arith
    ca (inr (inr has_ca)) = has_ca

-- With a certificate and no key the server has no credentials, and no warning is logged, in dev mode
-- or not.
pub grpc_transport_without_key :
    (dev_mode : Bool) (s : ServerConfig)
    → is_empty s.tls_cert_file ≡ false
    → is_empty s.tls_key_file ≡ true
    → grpc_transport dev_mode s ≡ plaintext false
unfolding grpc_transport
grpc_transport_without_key dev_mode s cert key = ground arith
