-- ===== src/Lightning/Mock.antt =====
-- lightning/mock/client.go. The lock makes each method one step.
use open_world_model.Base.{
  Bool, true, false, Option, none, some, List, [], ◌∷◌, ◌≡◌, refl, arith, if◌then◌else◌,
}
use open_world_model.Base.Int.{pos}
use open_world_model.Base.Text.{Text, codes, text_eq, text_eq_iff}
use open_world_model.World.{Channel, PaymentResult}

pub record MockClient : Type 0 where
  pub channels : List (Text × List Channel)
  pub fail_payments : Bool
  pub fail_force_close : Bool

abbrev pub new_mock : MockClient
new_mock = record { channels = []; fail_payments = false; fail_force_close = false }

put : Text → List Channel → List (Text × List Channel) → List (Text × List Channel)
put key chs [] = (key, chs) ∷ []
put key chs ((k, old) ∷ m) = if text_eq k key then (key, chs) ∷ m else (k, old) ∷ put key chs m

get : Text → List (Text × List Channel) → Option (List Channel)
get key [] = none
get key ((k, chs) ∷ m) = if text_eq k key then some chs else get key m

unfoldable pub set_channels : Text → List Channel → MockClient → MockClient
unfolding put
set_channels key chs c = record c { channels = put key chs c.channels }

abbrev pub synthetic_channel : Text → Channel
synthetic_channel key = record {
  channel_id = codes "mock-dev-channel";
  remote_pubkey = key;
  capacity_sats = pos 2500000;
  local_balance_sats = pos 2500000;
  is_active = true;
}

abbrev or_synthetic : Text → Option (List Channel) → List Channel
or_synthetic key none = synthetic_channel key ∷ []
or_synthetic key (some chs) = chs

unfoldable pub list_channels : Text → MockClient → List Channel
unfolding get
list_channels key c = or_synthetic key (get key c.channels)

-- `none` is the error.
unfoldable pub send_payment : MockClient → Option PaymentResult
send_payment c =
    if c.fail_payments
    then none
    else some (record {
      preimage = codes "mock-preimage";
      status = codes "SUCCEEDED";
      failure_reason = [];
    })

-- Whether `ForceCloseChan` returns no error.
unfoldable pub force_close_chan : MockClient → Bool
force_close_chan c = if c.fail_force_close then false else true

get-put :
    (key k : Text) (chs : List Channel) (m : List (Text × List Channel))
    → get k (put key chs m) ≡ (if text_eq key k then some chs else get k m)
unfolding get put
get-put key k chs [] = refl
get-put key k chs ((j, old) ∷ m) =
    ground (arith, text_eq_iff j key, text_eq_iff j k, text_eq_iff key k, get-put key k chs m)

-- The channels that were set for a key are those listed for it, and the other keys keep theirs.
pub list_channels-set_channels :
    (key k : Text) (chs : List Channel) (c : MockClient)
    → list_channels k (set_channels key chs c) ≡ (if text_eq key k then chs else list_channels k c)
unfolding list_channels set_channels
list_channels-set_channels key k chs c = rw (get-put key k chs c.channels) (ground arith)
