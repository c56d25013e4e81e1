-- ===== src/Lightning/Hex.antt =====
-- lnd_client.go: the hexadecimal form of a macaroon, and the decoder of a destination key.
use open_world_model.Base.{
  ℕ, ◌+◌, ◌-◌, ◌*◌, ◌/◌, ◌%◌, ◌&&◌, Option, none, some, [], ◌∷◌, if◌then◌else◌, leb, ltb,
}
use open_world_model.Base.Text.{Text, codes, trim_space, trim_prefix, to_lower}

-- The character at an index of "0123456789abcdef".
abbrev pub hex_char : ℕ → ℕ
hex_char n = if ltb n 10 then b'0' + n else b'a' + (n - 10)

-- c>>4 and c&0x0f of a byte
unfoldable pub hex_encode_macaroon : Text → Text
hex_encode_macaroon [] = []
hex_encode_macaroon (c ∷ b) = hex_char (c / 16) ∷ hex_char (c % 16) ∷ hex_encode_macaroon b

unfoldable pub nibble : ℕ → Option ℕ
nibble c =
    if leb b'0' c && leb c b'9'
    then some (c - b'0')
    else if leb b'a' c && leb c b'f'
    then some (c - b'a' + 10)
    else if leb b'A' c && leb c b'F'
    then some (c - b'A' + 10)
    else none

-- a<<4 | b of two nibbles
abbrev join_byte : Option ℕ → Option ℕ → Option Text → Option Text
join_byte (some a) (some b) (some rest) = some ((a * 16 + b) ∷ rest)
join_byte _ _ _ = none

-- `none` is the nil slice: an odd length, or a character that is no digit.
unfoldable pub decode_hex : Text → Option Text
unfolding nibble
decode_hex [] = some []
decode_hex (a ∷ []) = none
decode_hex (a ∷ b ∷ s) = join_byte (nibble a) (nibble b) (decode_hex s)

unfoldable pub normalize_node_pubkey_hex : Text → Text
normalize_node_pubkey_hex s = to_lower (trim_prefix (codes "0x") (trim_space s))
