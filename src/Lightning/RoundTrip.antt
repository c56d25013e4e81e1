-- ===== src/Lightning/RoundTrip.antt =====
-- The decoder of `SendPayment` inverts the encoder of the macaroon.
use open_world_model.Base.{
  ℕ, ◌+◌, ◌*◌, ◌/◌, ◌%◌, ◌<◌, ◌≡◌, refl, some, [], ◌∷◌, arith, All, length, ap,
}
use open_world_model.Base.Text.{Text}
use open_world_model.Lightning.Hex.{hex_char, hex_encode_macaroon, nibble, decode_hex}

nibble-hex_char : (n : ℕ) → n < 16 → nibble (hex_char n) ≡ some n
unfolding nibble
nibble-hex_char n h = ground arith

join_nibbles : (c : ℕ) → c < 256 → c / 16 * 16 + c % 16 ≡ c
join_nibbles c h = omega arith

-- Every sequence of bytes is decoded from its hexadecimal form, which is twice as long.
pub decode_hex-encode :
    (b : Text)
    → All (λ c. c < 256) b
    → (decode_hex (hex_encode_macaroon b) ≡ some b)
      × (length (hex_encode_macaroon b) ≡ 2 * length b)
unfolding decode_hex hex_encode_macaroon
decode_hex-encode [] h = (refl, refl)
decode_hex-encode (c ∷ b) (small, rest) =
    let (same, long) = decode_hex-encode b rest in
    (
      rw (nibble-hex_char (c / 16) (omega arith), nibble-hex_char (c % 16) (omega arith), same)
          (ap (λ t. some (t ∷ b)) (join_nibbles c small)),
      omega arith,
    )
