-- ===== src/Examples/Exchanges.antt =====
-- Exchanges with clients, nodes and the services that the coordinator calls.
use open_world_model.Base.{zero, ◌≡◌, refl, true, Option, none, some, List, [], ◌∷◌, ltb}
use open_world_model.Base.Int.{pos}
use open_world_model.Base.Text.{Text, codes, trim_space, text_eq, to_lower}
use open_world_model.World.{SendPaymentRequest}
use open_world_model.Payment.{outcome_of, succeeded}
use open_world_model.Rpc.Queries.{ModelVersion}
use open_world_model.Rpc.Stream.{StreamTaskPayload, Event, message, channel_closed, stream_loop}
use open_world_model.Rpc.Delivered.{IsDelivered, stream_loop-IsDelivered}
use open_world_model.Observer.Client.{Client, Registry}
use open_world_model.Lightning.{ClnChannelRow, normalize_cln_pay_status}
use open_world_model.Lightning.Cln.{Json, Server, ClnClient, cln_send_payment}
use open_world_model.Lightning.Lnd.{Update, LndStatus, lnd_send_payment}
use open_world_model.Lightning.Settled.{IsSettled, lnd_send_payment-IsSettled}
use open_world_model.Examples.Fixtures.{zeros, pubkey}

abbrev version : ModelVersion
version = record {
  version_id = codes "v1";
  round_number = pos 4;
  created_at = pos 1000;
  btc_block = pos 800000;
  ots_verified = true;
  coordinator_sig = codes "sig";
}

abbrev payload : Text → Option StreamTaskPayload
payload [] = none
payload (b ∷ s) = some (record {
  task_id = b ∷ s;
  node_id = codes "n";
  task_type = codes "inference";
  reward_sats = pos 12;
  timeout_secs = pos 60;
})

abbrev events : List Event
events = message (codes "one") ∷ message [] ∷ message (codes "two") ∷ channel_closed ∷ []

-- The second send fails.
stream_loop-IsDelivered_example :
    IsDelivered payload events (stream_loop payload (λ k. ltb k 1) zero events)
stream_loop-IsDelivered_example = stream_loop-IsDelivered payload (λ k. ltb k 1) zero events

abbrev pub registry : Registry
registry = record {
  makes_request = λ url. true;
  post = λ p. some (record { status_code = 201; body = codes "{}" });
  receipt_ids = λ b. some (codes "id-1", []);
}

abbrev client : Client
client = record {
  api_endpoint = codes "https://o";
  sender_pubkey_hash = [];
  signing_key = zeros 64;
}

abbrev request : SendPaymentRequest
request = record { dest_pubkey_hex = pubkey; amount_sats = pos 12; timeout_secs = pos 0 }

abbrev update : LndStatus → Update
update s = record { status = s; payment_preimage = codes "ab"; failure_reason = [] }

abbrev updates : List Update
updates = update LndStatus.in_flight ∷ update LndStatus.succeeded ∷ []

lnd_send_payment-IsSettled_example :
    IsSettled updates (lnd_send_payment (λ r. some updates) request)
lnd_send_payment-IsSettled_example =
    lnd_send_payment-IsSettled (λ r. some updates) request updates refl

abbrev row : ClnChannelRow
row = record {
  channel_id = [];
  peer_id = [];
  state = codes "CHANNELD_NORMAL";
  total_satoshis = 0;
  to_us_satoshis = 0;
  total_msat = [];
  to_us_msat = [];
}

-- The answer is one peer with one channel, which reads as one row without fields.
abbrev pub json : Json
json = record {
  wrapper = λ b. none;
  flat = λ b. some (row ∷ []);
  nested = λ b. some ((codes "peer", row ∷ []) ∷ []);
  pay = λ b. some (record {
    result = record {
      payment_hash = codes "h";
      status = codes "complete";
      payment_preimage = codes "aa";
    };
    error = none;
  });
  pay_result = λ b. none;
}

abbrev pub cln_server : Server
cln_server r = some (record { status_code = 201; body = codes "{}" })

abbrev cln : ClnClient
cln = record { base_url = codes "http://cln"; api_key = codes "rune" }

paid_by_cln : outcome_of (cln_send_payment json cln_server cln request) ≡ succeeded (codes "aa")
unfolding cln_send_payment outcome_of text_eq normalize_cln_pay_status to_lower trim_space
paid_by_cln = refl
