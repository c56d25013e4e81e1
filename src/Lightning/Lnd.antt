-- ===== src/Lightning/Lnd.antt =====
-- lnd_client.go: the loop over the updates of a payment, and the channel point of a close.
use open_world_model.Base.{Bool, false, Option, none, some, List, [], ◌∷◌, if◌then◌else◌}
use open_world_model.Base.Int.{ℤ, pos, leb_ℤ, int32_of}
use open_world_model.Base.Text.{Text, codes, encode_hex, is_empty}
use open_world_model.World.{SendPaymentRequest, PaymentResult}
use open_world_model.Lightning.Hex.{decode_hex}

-- lnrpc.Payment.Status
pub data LndStatus : Type 0 where
  unknown in_flight succeeded failed initiated : LndStatus

-- lnrpc.Payment, with the fields that the client reads; the preimage is a hexadecimal string.
pub record Update : Type 0 where
  pub status : LndStatus
  pub payment_preimage : Text
  pub failure_reason : Text

-- routerrpc.SendPaymentRequest; a destination that does not decode is nil, as an empty one.
pub record RouterRequest : Type 0 where
  pub dest : Text
  pub amt : ℤ
  pub timeout_seconds : ℤ

abbrev or_nil : Option Text → Text
or_nil none = []
or_nil (some b) = b

unfoldable pub router_request : SendPaymentRequest → RouterRequest
unfolding decode_hex int32_of
router_request req = record {
  dest = or_nil (decode_hex req.dest_pubkey_hex);
  amt = req.amount_sats;
  timeout_seconds = int32_of (if leb_ℤ req.timeout_secs (pos 0) then pos 60 else req.timeout_secs);
}

-- The loop; the end of the updates is an error of `Recv`. `%x` of a string is the hexadecimal form of
-- its characters.
unfoldable pub payment_loop : List Update → Option PaymentResult
payment_loop [] = none
payment_loop (u ∷ us) =
    let rest = payment_loop us in
    elim u.status [
      | succeeded ↦ some (record {
        preimage = encode_hex u.payment_preimage;
        status = codes "SUCCEEDED";
        failure_reason = [];
      })
      | failed ↦
          some
            (record { preimage = []; status = codes "FAILED"; failure_reason = u.failure_reason })
      | _ ↦ rest
    ]

abbrev from_stream : Option (List Update) → Option PaymentResult
from_stream none = none
from_stream (some us) = payment_loop us

-- `SendPayment`, by the updates that the router streams for a request; `none` is an error.
unfoldable pub lnd_send_payment :
    (RouterRequest → Option (List Update)) → SendPaymentRequest → Option PaymentResult
unfolding payment_loop router_request
lnd_send_payment router req = from_stream (router (router_request req))

-- NewLNDClient's first check: a macaroon does not go over plaintext.
unfoldable pub refuses_plaintext : Text → Text → Bool
refuses_plaintext tls_cert_path macaroon =
    if is_empty macaroon then false else is_empty tls_cert_path
