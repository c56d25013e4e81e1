-- ===== src/Lightning/Channels.antt =====
-- The channels of a node as both clients list them, and the status words of CLN's payments.
use open_world_model.Base.{
  ℕ, suc, ◌-◌, ◌/◌, ◌^◌, Bool, true, false, not, ◌&&◌, Option, none, some, List, [], ◌∷◌, ◌==◌,
  if◌then◌else◌, ltb,
}
use open_world_model.Base.Int.{ℤ, pos, negsuc}
use open_world_model.Base.Text.{
  Text, codes, text_eq, is_empty, trim_space, to_lower, to_upper, parse_int, decimal,
}
use open_world_model.World.{Channel}
use open_world_model.Lightning.Hex.{normalize_node_pubkey_hex}

-- strings.TrimSuffix with "msat"
trim_msat : Text → Text
trim_msat [] = []
trim_msat (c ∷ s) = if text_eq (c ∷ s) (codes "msat") then [] else c ∷ trim_msat s

-- Go's integer division goes towards zero.
abbrev thousandth : ℤ → ℤ
thousandth (pos n) = pos (n / 1000)
thousandth (negsuc n) = if ltb (suc n) 1000 then pos 0 else negsuc (suc n / 1000 - 1)

abbrev or_zero : Option ℤ → ℤ
or_zero none = pos 0
or_zero (some n) = thousandth n

-- An empty text is no number, so it gives 0 too.
unfoldable pub parse_msat_string_to_sats : Text → ℤ
unfolding trim_msat
parse_msat_string_to_sats s = or_zero (parse_int (trim_space (trim_msat (to_lower (trim_space s)))))

-- clnChannelRow
pub record ClnChannelRow : Type 0 where
  pub channel_id : Text
  pub peer_id : Text
  pub state : Text
  pub total_satoshis : ℕ  -- uint64
  pub to_us_satoshis : ℕ  -- uint64
  pub total_msat : Text
  pub to_us_msat : Text

-- int64 of a uint64
abbrev pub int64_of : ℕ → ℤ
int64_of n = if ltb n (2 ^ 63) then pos n else negsuc (2 ^ 64 - n - 1)

abbrev is_zero : ℤ → Bool
is_zero (pos n) = n == 0
is_zero (negsuc n) = false

abbrev pub sats_of : ℕ → Text → ℤ
sats_of sats msat =
    if is_zero (int64_of sats) && not (is_empty msat)
    then parse_msat_string_to_sats msat
    else int64_of sats

unfoldable pub cln_row_to_channel : ClnChannelRow → Channel
unfolding parse_msat_string_to_sats
cln_row_to_channel ch = record {
  channel_id = ch.channel_id;
  remote_pubkey = ch.peer_id;
  capacity_sats = sats_of ch.total_satoshis ch.total_msat;
  local_balance_sats = sats_of ch.to_us_satoshis ch.to_us_msat;
  is_active = text_eq (to_lower ch.state) (to_lower (codes "CHANNELD_NORMAL"));
}

-- The loop over a flat answer of `listpeerchannels`.
unfoldable pub cln_channels_of : Text → List ClnChannelRow → List Channel
cln_channels_of key [] = []
cln_channels_of key (row ∷ rows) =
    let rest = cln_channels_of key rows in
    if text_eq (normalize_node_pubkey_hex row.peer_id) (normalize_node_pubkey_hex key)
    then cln_row_to_channel row ∷ rest
    else rest

-- lnrpc.Channel, with the fields that the client reads
pub record LndChannel : Type 0 where
  pub channel_point : Text
  pub chan_id : ℕ
  pub remote_pubkey : Text
  pub capacity : ℤ
  pub local_balance : ℤ
  pub is_active : Bool

abbrev lnd_channel_id : LndChannel → Text
lnd_channel_id ch =
    if is_empty ch.channel_point && not (ch.chan_id == 0)
    then decimal (pos ch.chan_id)
    else ch.channel_point

abbrev pub lnd_to_channel : LndChannel → Channel
lnd_to_channel ch = record {
  channel_id = lnd_channel_id ch;
  remote_pubkey = ch.remote_pubkey;
  capacity_sats = ch.capacity;
  local_balance_sats = ch.local_balance;
  is_active = ch.is_active;
}

-- The loop of `LNDClient.ListChannels`.
unfoldable pub lnd_channels_of : Text → List LndChannel → List Channel
lnd_channels_of key [] = []
lnd_channels_of key (ch ∷ chs) =
    let rest = lnd_channels_of key chs in
    if text_eq (normalize_node_pubkey_hex ch.remote_pubkey) (normalize_node_pubkey_hex key)
    then lnd_to_channel ch ∷ rest
    else rest

abbrev is_one_of : Text → List Text → Bool
is_one_of s [] = false
is_one_of s (t ∷ ts) = if text_eq s t then true else is_one_of s ts

abbrev in_flight : Text
in_flight = codes "IN_FLIGHT"

unfoldable pub normalize_cln_pay_status : Text → Text
normalize_cln_pay_status s =
    let word = to_lower (trim_space s) in
    if is_one_of word (
      codes "complete"
      ∷ codes "completed"
      ∷ codes "succeeded"
      ∷ codes "success"
      ∷ codes "paid"
      ∷ [])
    then codes "SUCCEEDED"
    else if is_one_of word (codes "failed" ∷ codes "failure" ∷ [])
    then codes "FAILED"
    else if is_one_of word (codes "pending" ∷ codes "pending_state" ∷ [])
    then in_flight
    else if is_empty s
    then in_flight
    else to_upper (trim_space s)
