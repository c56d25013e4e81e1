-- ===== src/Lightning/Invoices.antt =====
-- `AddInvoice` and `GetInfo` of the three clients.
use open_world_model.Base.{
  ℕ, ◌+◌, ◌-◌, ◌*◌, ◌%◌, ◌^◌, Option, none, some, [], ◌∷◌, ◌++◌, if◌then◌else◌, ltb,
}
use open_world_model.Base.Int.{ℤ, pos, negsuc, ◌+ℤ◌}
use open_world_model.Base.Text.{Text, codes, is_empty, decimal, encode_hex, trim_space}
use open_world_model.Base.Decimal.{is_digit}
use open_world_model.Float64.{Float64}
use open_world_model.Lightning.Cln.{Json, Server, ClnClient, cln_req, cln_decode_payload, millisats}

pub record Invoice : Type 0 where
  pub payment_request : Text
  pub payment_hash : Text
  pub expires_at : ℤ

pub record NodeInfo : Type 0 where
  pub pubkey_hex : Text
  pub alias : Text
  pub block_height : ℕ  -- uint32

-- lnrpc.Invoice and lnrpc.AddInvoiceResponse
pub record LndInvoice : Type 0 where
  pub value : ℤ
  pub memo : Text
  pub expiry : ℤ

pub record LndInvoiceAnswer : Type 0 where
  pub r_hash : Text
  pub payment_request : Text

-- `time` is the clock in seconds.
abbrev lnd_invoice : ℤ → ℤ → Option LndInvoiceAnswer → Option Invoice
lnd_invoice time expiry none = none
lnd_invoice time expiry (some a) = some (record {
  payment_request = a.payment_request;
  payment_hash = if is_empty a.r_hash then [] else encode_hex a.r_hash;
  expires_at = time +ℤ expiry;
})

unfoldable pub lnd_add_invoice :
    (LndInvoice → Option LndInvoiceAnswer) → ℤ → ℤ → Text → ℤ → Option Invoice
lnd_add_invoice lnd time amount memo expiry =
    lnd_invoice time expiry (lnd (record { value = amount; memo = memo; expiry = expiry }))

-- lnrpc.GetInfoResponse
pub record LndInfo : Type 0 where
  pub identity_pubkey : Text
  pub alias : Text
  pub block_height : ℕ

unfoldable pub lnd_get_info : Option LndInfo → Option NodeInfo
lnd_get_info none = none
lnd_get_info (some i) = some (record {
  pubkey_hex = i.identity_pubkey;
  alias = i.alias;
  block_height = i.block_height % 2 ^ 32;
})

-- inv of `AddInvoice`
pub record ClnInvoice : Type 0 where
  pub bolt11 : Text
  pub payment_hash : Text
  pub invoice : Text

abbrev cln_invoice : ℤ → ℤ → Option ClnInvoice → Option Invoice
cln_invoice time expiry none = none
cln_invoice time expiry (some i) = some (record {
  payment_request = if is_empty i.bolt11 then i.invoice else i.bolt11;
  payment_hash = i.payment_hash;
  expires_at = time +ℤ expiry;
})

-- What an answer decodes to; `none` is an error.
abbrev decoded : {A : Type 0} → Json → (Text → Option A) → Option Text → Option A
decoded json dest none = none
decoded json dest (some body) = cln_decode_payload json dest body

unfoldable pub cln_add_invoice :
    Json → (Text → Option ClnInvoice) → Server → ClnClient → ℤ → ℤ → Text → ℤ → Option Invoice
unfolding cln_req cln_decode_payload
cln_add_invoice json dest server c time amount memo expiry = cln_invoice time expiry (
    decoded json dest (
      cln_req server c (codes "invoice") (
        (codes "amount_msat", decimal (millisats json amount) ++ codes "msat")
        ∷ (codes "description", memo)
        ∷ (codes "expiry", decimal expiry)
        ∷ [])))

-- strconv.ParseUint(s, 10, 32) with its error dropped: the largest value where the number is too
-- large, 0 where the text is no number.
unfoldable pub parse_uint32 : ℕ → Text → ℕ
parse_uint32 acc [] = acc
parse_uint32 acc (c ∷ s) =
    let n = acc * 10 + (c - 48) in
    let rest = parse_uint32 n s in
    if is_digit c then (if ltb n (2 ^ 32) then rest else 2 ^ 32 - 1) else 0

-- uint32 of an integer
abbrev uint32_of : ℤ → ℕ
uint32_of (pos n) = n % 2 ^ 32
uint32_of (negsuc n) = 2 ^ 32 - 1 - n % 2 ^ 32

module _ (fp : Float64) where
  -- What encoding/json leaves in an interface.
  pub data Height : Type 0 where
    float64 : fp.F → Height
    number : ℤ → Height
    string : Text → Height
    other_value : Height

  -- info of `GetInfo`
  pub record ClnInfo : Type 0 where
    pub id : Text
    pub alias : Text
    pub block_height : Height

  -- The integer part is what amd64 gives for a float in the range of int64.
  unfoldable pub height_of : Height → ℕ
  unfolding parse_uint32
  height_of (float64 v) = uint32_of (fp.truncate v)
  height_of (number n) = uint32_of n
  height_of (string s) = parse_uint32 0 (trim_space s)
  height_of other_value = 0

  abbrev node_info : Option ClnInfo → Option NodeInfo
  node_info none = none
  node_info (some i) =
      some (record { pubkey_hex = i.id; alias = i.alias; block_height = height_of i.block_height })

  unfoldable pub cln_get_node_info :
      Json → (Text → Option ClnInfo) → Server → ClnClient → Option NodeInfo
  unfolding cln_req height_of cln_decode_payload
  cln_get_node_info json dest server c =
      node_info (decoded json dest (cln_req server c (codes "getinfo") []))

abbrev pub mock_add_invoice : Invoice
mock_add_invoice = record {
  payment_request = codes "mock-bolt11-invoice";
  payment_hash = codes "mock-invoice-hash";
  expires_at = pos 0;
}

abbrev pub mock_get_info : NodeInfo
mock_get_info = record {
  pubkey_hex = codes "02b7b2e205e27f236b1d2b2e2b2e2b2e2b2e2b2e2b2e2b2e2b2e2b2e2b2e2b2e2b2e";
  alias = codes "owm-mock-dev";
  block_height = 0;
}
