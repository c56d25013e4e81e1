-- ===== src/Observer/Client.antt =====
-- client.go: the client that signs receipts and submits them to the Observer Registry.
use open_world_model.Base.{
  ℕ, Bool, ◌||◌, Option, none, some, List, [], ◌∷◌, ◌++◌, ◌==◌, if◌then◌else◌,
}
use open_world_model.Base.Text.{Text, codes, is_empty, trim_space}
use open_world_model.Observer.Crypto.{Crypto}
use open_world_model.Observer.Receipt.{Receipt, sign_receipt}
use open_world_model.Observer.Keys.{client_key}

pub record Client : Type 0 where
  pub api_endpoint : Text
  pub sender_pubkey_hash : Text
  pub signing_key : Text

-- strings.TrimRight with "/": a slash goes unless something else follows.
abbrev slash_onto : ℕ → Text → Text
slash_onto b [] = if b == b'/' then [] else b ∷ []
slash_onto b (c ∷ s) = b ∷ c ∷ s

unfoldable pub trim_slashes : Text → Text
trim_slashes [] = []
trim_slashes (b ∷ s) = slash_onto b (trim_slashes s)

-- An HTTP request and what came back: `none` is an error of the exchange.
pub record Post : Type 0 where
  pub url : Text
  pub receipt : Receipt

pub record Answer : Type 0 where
  pub status_code : ℕ
  pub body : Text

-- The registry, and what net/http and encoding/json make of a URL and of a body: whether there is a
-- request to it, and its ids, `none` where it is no JSON.
pub record Registry : Type 0 where
  pub makes_request : Text → Bool
  pub post : Post → Option Answer
  pub receipt_ids : Text → Option (Text × Text)

-- The error of `Submit`, and what it returns with no error.
pub data SubmitError : Type 0 where
  sender_not_set sign_error request_error exchange_error bad_status invalid_json no_receipt_id :
      SubmitError

pub data Submitted : Type 0 where
  receipt_id : Text → Submitted
  failed : SubmitError → Submitted

module _ (c : Crypto) where
  abbrev made : Text → Option Text → Option Client
  made endpoint none = none
  made endpoint (some key) =
      some (record {
        api_endpoint = trim_slashes endpoint;
        sender_pubkey_hash = [];
        signing_key = key;
      })

  -- `none` is an error: a key that is no Ed25519 key.
  unfoldable pub new_client : Text → Text → Option Client
  unfolding trim_slashes
  new_client endpoint key = made endpoint (client_key c key)

  unfoldable pub set_sender_pubkey_hash : Text → Client → Client
  set_sender_pubkey_hash hash cl = record cl { sender_pubkey_hash = trim_space hash }

  -- The receipt as it goes out.
  unfoldable pub signed_receipt : Client → Receipt → Option Receipt
  signed_receipt cl r =
      sign_receipt c cl.signing_key (record r { sender_public_key_hash = cl.sender_pubkey_hash })

  pick_id : Text × Text → Submitted
  pick_id ([], []) = failed no_receipt_id
  pick_id ([], b ∷ id) = receipt_id (b ∷ id)
  pick_id (b ∷ id, other) = receipt_id (b ∷ id)

  read_ids : Option (Text × Text) → Submitted
  unfolding pick_id
  read_ids none = failed invalid_json
  read_ids (some ids) = pick_id ids

  unfoldable pub read_answer : Registry → Option Answer → Submitted
  unfolding read_ids
  read_answer reg none = failed exchange_error
  read_answer reg (some a) =
      if a.status_code == 200 || a.status_code == 201
      then read_ids (reg.receipt_ids a.body)
      else failed bad_status

  abbrev pub receipts_url : Client → Text
  receipts_url cl = cl.api_endpoint ++ codes "/v1/receipts"

  abbrev exchange : Registry → Client → Option Receipt → List Post × Submitted
  exchange reg cl none = ([], failed sign_error)
  exchange reg cl (some r) =
      let p : Post = record { url = receipts_url cl; receipt = r } in
      if reg.makes_request (receipts_url cl)
      then (p ∷ [], read_answer reg (reg.post p))
      else ([], failed request_error)

  -- What is posted, and the result.
  unfoldable pub submit : Registry → Client → Receipt → List Post × Submitted
  unfolding signed_receipt read_answer
  submit reg cl r =
      if is_empty cl.sender_pubkey_hash
      then ([], failed sender_not_set)
      else exchange reg cl (signed_receipt cl r)
