-- ===== src/Observer/Signing.antt =====
-- A signed receipt verifies.
use open_world_model.Base.{◌≡◌, refl, true, some, arith, length, Option-cases, inl, inr}
use open_world_model.Base.Text.{Text, decode_hex, encode_hex, decode_hex-encode_hex}
use open_world_model.Observer.Crypto.{Crypto, Laws, IsKeyOfSeed}
use open_world_model.Observer.Receipt.{
  Receipt, fields_for_hash, marshal_map_sorted, compute_receipt_hash, sign_receipt,
  verify_signature,
}
use open_world_model.Observer.Keys.{client_key, decode_signing_key}

module _ (c : Crypto) (l : Laws c) where
  -- the hash that is signed, and the receipt that results
  abbrev digest : Receipt → Text
  digest r = c.sha256 (marshal_map_sorted c (fields_for_hash c r))

  abbrev signed_by : Text → Receipt → Receipt
  signed_by key r = record r {
    receipt_hash = encode_hex (digest r);
    signature = encode_hex (c.sign key (digest r));
  }

  digest_decodes : (r : Receipt) → decode_hex (encode_hex (digest r)) ≡ some (digest r)
  digest_decodes r = decode_hex-encode_hex (digest r) (l.sha256_bytes _)

  sign_receipt_full :
      (key : Text) (r : Receipt) → length key ≡ 64 → sign_receipt c key r ≡ some (signed_by key r)
  unfolding sign_receipt compute_receipt_hash
  sign_receipt_full key r full = rw (full, digest_decodes r) refl

  signed_by-verifies :
      (key : Text) (r : Receipt)
      → IsKeyOfSeed c key
      → verify_signature c (signed_by key r) (c.public_of key) ≡ true
  unfolding verify_signature
  signed_by-verifies key r (seed, size, same) =
      rw
        (
          digest_decodes r,
          decode_hex-encode_hex (c.sign key (digest r)) (l.sign_bytes key (digest r)),
          l.sha256_length (marshal_map_sorted c (fields_for_hash c r)),
          l.sign_length key (digest r),
          verifies,
        )
        refl
    where
      verifies : c.verify (c.public_of key) (digest r) (c.sign key (digest r)) ≡ true
      verifies = rw same (l.sign_verifies seed (digest r) size)

  pub client_key-length : (raw key : Text) → client_key c raw ≡ some key → length key ≡ 64
  unfolding client_key
  client_key-length raw key h = elim (Option-cases (decode_signing_key c raw)) [
    | inl bad ↦ absurd (ground arith)
    | inr (k, e) ↦ ground arith
  ]

  -- With a key that `NewClient` accepts and that is the key of a seed, signing any receipt succeeds:
  -- it keeps the other fields, and the signature verifies under the key's public key.
  pub client_key-sign_receipt :
      (raw key : Text) (r : Receipt)
      → client_key c raw ≡ some key
      → IsKeyOfSeed c key
      → (s : Receipt) × (sign_receipt c key r ≡ some s)
        × (fields_for_hash c s ≡ fields_for_hash c r)
        × (verify_signature c s (c.public_of key) ≡ true)
  client_key-sign_receipt raw key r h pair =
      let full = client_key-length raw key h in
      (signed_by key r, sign_receipt_full key r full, refl, signed_by-verifies key r pair)
