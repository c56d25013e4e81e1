-- ===== src/Observer/Receipt.antt =====
-- receipt.go.
use open_world_model.Base.{
  Bool, true, false, ◌&&◌, ◌||◌, Option, none, some, List, [], ◌∷◌, ◌++◌, ◌==◌, if◌then◌else◌, ltb,
  length,
}
use open_world_model.Base.Int.{ℤ, pos, negsuc, ltb_ℤ, leb_ℤ}
use open_world_model.Base.Text.{Text, codes, trim_space, decode_hex, encode_hex}
use open_world_model.Observer.Crypto.{Crypto}

pub record Bucket : Type 0 where
  pub label : Text
  pub max : ℤ

-- The table `amountBucketRanges`; -1 is no upper bound.
abbrev pub amount_bucket_ranges : List Bucket
amount_bucket_ranges =
    record { label = codes "1-100"; max = pos 100 }
    ∷ record { label = codes "101-1000"; max = pos 1000 }
    ∷ record { label = codes "1001-10000"; max = pos 10000 }
    ∷ record { label = codes "10001+"; max = negsuc 0 }
    ∷ []

unfoldable pub first_bucket : ℤ → List Bucket → Text
first_bucket sats [] = codes "10001+"
first_bucket sats (b ∷ bs) =
    if ltb_ℤ b.max (pos 0) || leb_ℤ sats b.max then b.label else first_bucket sats bs

unfoldable pub amount_bucket : ℤ → Text
unfolding first_bucket
amount_bucket sats =
    if ltb_ℤ sats (pos 1) then codes "0" else first_bucket sats amount_bucket_ranges

pub record Receipt : Type 0 where
  pub payment_rail : Text
  pub settlement_reference : Text
  pub sender_public_key_hash : Text
  pub receiver_public_key_hash : Text
  pub amount_bucket : Text
  pub receipt_hash : Text
  pub signature : Text

-- The order of sort.Strings.
unfoldable pub text_le : Text → Text → Bool
text_le [] t = true
text_le (b ∷ s) [] = false
text_le (b ∷ s) (c ∷ t) = ltb b c || (b == c && text_le s t)

unfoldable pub insert_field : Text × Text → List (Text × Text) → List (Text × Text)
insert_field (k, v) [] = (k, v) ∷ []
insert_field (k, v) ((j, u) ∷ fs) =
    if text_le k j then (k, v) ∷ (j, u) ∷ fs else (j, u) ∷ insert_field (k, v) fs

unfoldable pub sort_fields : List (Text × Text) → List (Text × Text)
unfolding text_le insert_field
sort_fields [] = []
sort_fields (f ∷ fs) = insert_field f (sort_fields fs)

module _ (c : Crypto) where
  json_field : Text × Text → Text
  json_field (k, v) = c.json_string k ++ (b':' ∷ c.json_string v)

  join_fields : Text × Text → List (Text × Text) → Text
  unfolding json_field
  join_fields f [] = json_field f
  join_fields f (g ∷ fs) = json_field f ++ (b',' ∷ join_fields g fs)

  json_body : List (Text × Text) → Text
  unfolding join_fields
  json_body [] = []
  json_body (f ∷ fs) = join_fields f fs

  -- The map's order of iteration is the list's; every value is a string.
  unfoldable pub marshal_map_sorted : List (Text × Text) → Text
  unfolding sort_fields json_body
  marshal_map_sorted fs = b'{' ∷ (json_body (sort_fields fs) ++ codes "}")

  -- receiptFieldsForHash, as the map that it is read back into
  abbrev pub fields_for_hash : Receipt → List (Text × Text)
  fields_for_hash r =
      (codes "payment_rail", r.payment_rail)
      ∷ (codes "settlement_reference", r.settlement_reference)
      ∷ (codes "sender_public_key_hash", r.sender_public_key_hash)
      ∷ (codes "receiver_public_key_hash", r.receiver_public_key_hash)
      ∷ (codes "amount_bucket", r.amount_bucket)
      ∷ []

  unfoldable pub compute_receipt_hash : Receipt → Text
  unfolding marshal_map_sorted
  compute_receipt_hash r = encode_hex (c.sha256 (marshal_map_sorted (fields_for_hash r)))

  abbrev signed : Text → Receipt → Text → Option Text → Option Receipt
  signed key r hash none = none
  signed key r hash (some bytes) =
      some (record r { receipt_hash = hash; signature = encode_hex (c.sign key bytes) })

  -- `none` is an error.
  unfoldable pub sign_receipt : Text → Receipt → Option Receipt
  sign_receipt key r =
      if length key == 64
      then signed key r (compute_receipt_hash r) (decode_hex (compute_receipt_hash r))
      else none

  abbrev checked : Text → Option Text → Option Text → Bool
  checked public_key (some hash) (some sig) =
      length hash == 32 && length sig == 64 && c.verify public_key hash sig
  checked public_key _ _ = false

  unfoldable pub verify_signature : Receipt → Text → Bool
  verify_signature r public_key =
      checked public_key (decode_hex r.receipt_hash) (decode_hex r.signature)

  abbrev pub hash_of : Option Text → Text
  hash_of none = []
  hash_of (some []) = []
  hash_of (some (b ∷ s)) = encode_hex (c.sha256 (b ∷ s))

  unfoldable pub pubkey_hash_hex : Text → Text
  pubkey_hash_hex key = hash_of (decode_hex (trim_space key))
