-- ===== src/Lightning/Cln.antt =====
-- cln_client.go: the exchange with CLNRest. The JSON decoder of encoding/json at each struct is a
-- function that may fail.
use open_world_model.Base.{
  ℕ, suc, ◌-◌, ◌*◌, Bool, true, false, not, ◌&&◌, ◌||◌, Option, none, some, List, [], ◌∷◌, ◌++◌,
  ◌==◌, if◌then◌else◌,
}
use open_world_model.Base.Int.{ℤ, pos, negsuc}
use open_world_model.Base.Text.{Text, codes, text_eq, is_empty, trim_space, decimal}
use open_world_model.World.{Channel, SendPaymentRequest, PaymentResult}
use open_world_model.Lightning.Hex.{normalize_node_pubkey_hex}
use open_world_model.Lightning.Channels.{
  ClnChannelRow, cln_row_to_channel, cln_channels_of, normalize_cln_pay_status,
}

pub record ClnClient : Type 0 where
  pub base_url : Text
  pub api_key : Text

-- strings.TrimSuffix with "/"
abbrev trim_slash : Text → Text
trim_slash [] = []
trim_slash (b ∷ []) = if b == b'/' then [] else b ∷ []
trim_slash (b ∷ c ∷ s) = b ∷ trim_slash (c ∷ s)

unfoldable pub new_cln_client : Text → Text → ClnClient
new_cln_client url key = record { base_url = trim_slash (trim_space url); api_key = key }

-- A POST, with the value of the Rune header, if it is set.
pub record ClnRequest : Type 0 where
  pub url : Text
  pub rune : Option Text
  pub params : List (Text × Text)

pub record ClnAnswer : Type 0 where
  pub status_code : ℕ
  pub body : Text

-- The server's answer: `none` is an error of the exchange.
abbrev pub Server : Type 0
Server = ClnRequest → Option ClnAnswer

abbrev pub cln_request : ClnClient → Text → List (Text × Text) → ClnRequest
cln_request c method params = record {
  url = c.base_url ++ codes "/v1/" ++ method;
  rune = if is_empty c.api_key then none else some c.api_key;
  params = params;
}

abbrev accepted : Option ClnAnswer → Option Text
accepted none = none
accepted (some a) =
    if a.status_code == 200 || a.status_code == 201 || a.status_code == 202
    then some a.body
    else none

unfoldable pub cln_req : Server → ClnClient → Text → List (Text × Text) → Option Text
cln_req server c method params = accepted (server (cln_request c method params))

-- The wrapper {"result": …, "error": …}; the message of no error is `none`.
pub record Wrapper : Type 0 where
  pub result : Text
  pub error : Option Text

-- res of `SendPayment`
pub record PayResult : Type 0 where
  pub payment_hash : Text
  pub status : Text
  pub payment_preimage : Text

-- pay of `SendPayment`
pub record Pay : Type 0 where
  pub result : PayResult
  pub error : Option Text

pub record Json : Type 0 where
  pub wrapper : Text → Option Wrapper
  pub flat : Text → Option (List ClnChannelRow)
  pub nested : Text → Option (List (Text × List ClnChannelRow))
  pub pay : Text → Option Pay
  pub pay_result : Text → Option PayResult

has_message : Option Text → Bool
has_message none = false
has_message (some m) = not (is_empty m)

abbrev from_wrapper : {A : Type 0} → (Text → Option A) → Text → Option Wrapper → Option A
from_wrapper dest body none = dest body
from_wrapper dest body (some w) =
    if has_message w.error
    then none
    else if not (is_empty w.result) && not (text_eq w.result (codes "null"))
    then dest w.result
    else dest body

module _ (json : Json) where
  unfoldable pub cln_decode_payload : {A : Type 0} → (Text → Option A) → Text → Option A
  unfolding has_message
  cln_decode_payload dest body = from_wrapper dest body (json.wrapper body)

  with_peer : Text → List ClnChannelRow → List Channel
  with_peer peer [] = []
  with_peer peer (row ∷ rows) =
      cln_row_to_channel (record row { peer_id = peer }) ∷ with_peer peer rows

  -- The loops over a nested answer.
  unfoldable pub nested_channels_of : Text → List (Text × List ClnChannelRow) → List Channel
  unfolding with_peer
  nested_channels_of key [] = []
  nested_channels_of key ((peer, rows) ∷ ps) =
      let rest = nested_channels_of key ps in
      if text_eq (normalize_node_pubkey_hex peer) (normalize_node_pubkey_hex key)
      then with_peer peer rows ++ rest
      else rest

  abbrev pub read_nested : Text → Option (List (Text × List ClnChannelRow)) → Option (List Channel)
  read_nested key none = none
  read_nested key (some ps) = some (nested_channels_of key ps)

  unfoldable pub read_flat : Text → Text → Option (List ClnChannelRow) → Option (List Channel)
  unfolding nested_channels_of
  read_flat key body none = none
  read_flat key body (some (row ∷ rows)) = some (cln_channels_of key (row ∷ rows))
  read_flat key body (some []) = read_nested key (cln_decode_payload json.nested body)

  unfoldable pub read_channels : Text → Option Text → Option (List Channel)
  unfolding read_flat nested_channels_of
  read_channels key none = none
  read_channels key (some body) = read_flat key body (cln_decode_payload json.flat body)

  -- `ListChannels`; `none` is an error.
  unfoldable pub cln_list_channels : Server → ClnClient → Text → Option (List Channel)
  unfolding cln_req read_channels
  cln_list_channels server c key =
      read_channels key (cln_req server c (codes "listpeerchannels") ((codes "id", key) ∷ []))

  -- A thousand times a number of satoshis.
  abbrev pub millisats : ℤ → ℤ
  millisats (pos n) = pos (1000 * n)
  millisats (negsuc n) = negsuc (1000 * suc n - 1)

  abbrev or_self : Option PayResult → PayResult → PayResult
  or_self none r = r
  or_self (some s) r = s

  -- With nothing under "result", the fields are looked for beside it.
  unfoldable pub pay_fields : Text → PayResult → PayResult
  pay_fields body r =
      if is_empty r.payment_hash && is_empty r.status && is_empty r.payment_preimage
      then or_self (json.pay_result body) r
      else r

  unfoldable pub pay_answer : PayResult → PaymentResult
  pay_answer r =
      let st = normalize_cln_pay_status r.status in
      record {
        preimage =
            if is_empty r.payment_preimage && text_eq st (codes "SUCCEEDED")
            then codes "unknown"
            else r.payment_preimage;
        status = st;
        failure_reason = [];
      }

  unfoldable pub read_error : Text → PayResult → Option Text → PaymentResult
  unfolding pay_answer pay_fields
  read_error body r none = pay_answer (pay_fields body r)
  read_error body r (some message) = record {
    preimage = [];
    status = codes "FAILED";
    failure_reason = message;
  }

  abbrev pub read_pay : Text → Option Pay → Option PaymentResult
  read_pay body none = none
  read_pay body (some p) = some (read_error body p.result p.error)

  unfoldable pub read_payment : Option Text → Option PaymentResult
  unfolding read_error
  read_payment none = none
  read_payment (some body) = read_pay body (json.pay body)

  -- `SendPayment`; `none` is an error.
  unfoldable pub cln_send_payment : Server → ClnClient → SendPaymentRequest → Option PaymentResult
  unfolding cln_req read_payment
  cln_send_payment server c req = read_payment (
      cln_req server c (codes "pay") (
        (codes "destination", req.dest_pubkey_hex)
        ∷ (codes "amount_msat", decimal (millisats req.amount_sats) ++ codes "msat")
        ∷ []))

  -- Whether `ForceCloseChan` returns no error.
  abbrev no_error : Option Text → Bool
  no_error none = false
  no_error (some body) = true

  unfoldable pub cln_force_close_chan : Server → ClnClient → Text → Bool
  unfolding cln_req
  cln_force_close_chan server c id = no_error (
      cln_req server c (codes "close")
        ((codes "id", id) ∷ (codes "unilateraltimeout", codes "1") ∷ []))

  abbrev decoded : {A : Type 0} → (Text → Option A) → Option Text → Option A
  decoded dest none = none
  decoded dest (some body) = cln_decode_payload dest body

  -- The public key of `GetInfo`, by the decoder of its struct; `none` is an error.
  unfoldable pub cln_get_info : (Text → Option Text) → Server → ClnClient → Option Text
  unfolding cln_req
  cln_get_info id server c = decoded id (cln_req server c (codes "getinfo") [])
