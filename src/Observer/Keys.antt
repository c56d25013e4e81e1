-- ===== src/Observer/Keys.antt =====
-- client.go: the formats of the signing key.
use open_world_model.Base.{
  ℕ, ◌%◌, Bool, true, false, not, ◌&&◌, ◌||◌, Option, none, some, [], ◌∷◌, ◌==◌, if◌then◌else◌, leb,
  length,
}
use open_world_model.Base.Text.{Text, codes, trim_space, decode_hex, strip_prefix}
use open_world_model.Observer.Crypto.{Crypto}

abbrev pub is_hex_char : ℕ → Bool
is_hex_char ch =
    (leb b'0' ch && leb ch b'9') || (leb b'a' ch && leb ch b'f') || (leb b'A' ch && leb ch b'F')

unfoldable pub hex_encoded : Text → Bool
hex_encoded [] = true
hex_encoded (ch ∷ b) = is_hex_char ch && hex_encoded b

-- bytes.Contains
abbrev starts_with : Text → Text → Bool
starts_with p s = elim (strip_prefix p s) [ none ↦ false | some r ↦ true ]

contains : Text → Text → Bool
contains p [] = starts_with p []
contains p (b ∷ s) = starts_with p (b ∷ s) || contains p s

module _ (c : Crypto) where
  unfoldable pub normalize_to_full_private_key : Text → Option Text
  normalize_to_full_private_key key =
      if length key == 64
      then some key
      else if length key == 32
      then some (c.key_from_seed key)
      else none

  abbrev or_error : Option Text → Option Text
  or_error none = none
  or_error (some key) = normalize_to_full_private_key key

  -- After the raw formats: hexadecimal, then PEM, of the trimmed text.
  decode_text_key : Text → Option Text
  unfolding normalize_to_full_private_key hex_encoded contains
  decode_text_key s =
      if leb 64 (length s) && length s % 2 == 0 && hex_encoded s
      then or_error (decode_hex s)
      else if contains (codes "PRIVATE KEY") s
      then c.pem_key s
      else none

  unfoldable pub decode_signing_key : Text → Option Text
  unfolding decode_text_key
  decode_signing_key s =
      if (length s == 32 || length s == 64) && not (hex_encoded s)
      then normalize_to_full_private_key s
      else decode_text_key (trim_space s)

  -- The check of `NewClient`.
  abbrev full_key : Option Text → Option Text
  full_key none = none
  full_key (some key) = if length key == 64 then some key else none

  unfoldable pub client_key : Text → Option Text
  unfolding decode_signing_key
  client_key s = full_key (decode_signing_key s)
