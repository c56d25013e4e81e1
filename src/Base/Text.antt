-- ===== src/Base/Text.antt =====
-- A Go string is its bytes. Equality, the hexadecimal and decimal forms of the standard library,
-- and the functions of `strings` that the program calls on ASCII text.
use Prim.Native.Char.{code}
use Prim.Native.String.{String}
use Prim.Native.Nat.{ℕ, zero, suc, ◌+◌, ◌-◌, ◌*◌, ◌/◌, ◌%◌, ◌^◌, ◌<◌}
use mathlib.Core.Path.{◌≡◌, refl, ap}
use mathlib.Core.Logic.{◌↔◌}
use mathlib.Core.Bool.{Bool, true, false, ◌&&◌, ◌||◌}
use mathlib.Core.Option.{Option, none, some}
use mathlib.Core.List.{List, [], ◌∷◌, ◌++◌, map}
use native.Mathlib.Omega.{arith}
use open_world_model.Base.Tests.{ltb, leb, ◌==◌, if◌then◌else◌}
use open_world_model.Base.Int.{ℤ, pos, negsuc}
use open_world_model.Base.Lists.{All}

abbrev pub Text : Type 0
Text = List ℕ

-- The bytes of a literal, all of which are ASCII here.
abbrev pub codes : String → Text
codes String.[] = []
codes (String.◌∷◌ c s) = code c ∷ codes s

unfoldable pub text_eq : Text → Text → Bool
text_eq [] [] = true
text_eq [] (c ∷ t) = false
text_eq (b ∷ s) [] = false
text_eq (b ∷ s) (c ∷ t) = b == c && text_eq s t

abbrev pub is_empty : Text → Bool
is_empty [] = true
is_empty (b ∷ s) = false

pub text_eq→eq : (s t : Text) → text_eq s t ≡ true → s ≡ t
unfolding text_eq
text_eq→eq [] [] h = refl
text_eq→eq [] (c ∷ t) h = cc
text_eq→eq (b ∷ s) [] h = cc
text_eq→eq (b ∷ s) (c ∷ t) h = ground (arith, text_eq→eq s t)

pub text_eq_refl : (s : Text) → text_eq s s ≡ true
unfolding text_eq
text_eq_refl [] = refl
text_eq_refl (b ∷ s) = ground (arith, text_eq_refl s)

pub text_eq_iff : (s t : Text) → (text_eq s t ≡ true) ↔ (s ≡ t)
text_eq_iff s t = (text_eq→eq s t, λ e. rw e (text_eq_refl t))

-- The decimal digits of a number, the fuel one more than the number.
unfoldable pub digits_of : ℕ → ℕ → Text
digits_of zero n = []
digits_of (suc fuel) n =
    let rest = digits_of fuel (n / 10) in
    if ltb n 10 then (n + 48) ∷ [] else rest ++ (n % 10 + 48) ∷ []

-- `%d`
unfoldable pub decimal : ℤ → Text
unfolding digits_of
decimal (pos n) = digits_of (suc n) n
decimal (negsuc n) = b'-' ∷ digits_of (suc (suc n)) (suc n)

-- The value of a hexadecimal digit.
hex_value : ℕ → Option ℕ
hex_value c =
    if leb b'0' c && leb c b'9'
    then some (c - 48)
    else if leb b'a' c && leb c b'f'
    then some (c - 87)
    else if leb b'A' c && leb c b'F'
    then some (c - 55)
    else none

abbrev hex_byte : Option ℕ → Option ℕ → Option Text → Option Text
hex_byte (some a) (some b) (some rest) = some ((a * 16 + b) ∷ rest)
hex_byte _ _ _ = none

-- hex.DecodeString: `none` is its error.
unfoldable pub decode_hex : Text → Option Text
unfolding hex_value
decode_hex [] = some []
decode_hex (a ∷ []) = none
decode_hex (a ∷ b ∷ s) = hex_byte (hex_value a) (hex_value b) (decode_hex s)

abbrev hex_digit : ℕ → ℕ
hex_digit n = if ltb n 10 then n + 48 else n + 87

-- hex.EncodeToString
unfoldable pub encode_hex : Text → Text
encode_hex [] = []
encode_hex (b ∷ s) = hex_digit (b / 16) ∷ hex_digit (b % 16) ∷ encode_hex s

-- The bytes that strings.TrimSpace takes off ASCII text.
abbrev pub is_space : ℕ → Bool
is_space c = (leb 9 c && leb c 13) || c == 32

unfoldable pub trim_left : Text → Text
trim_left [] = []
trim_left (b ∷ s) = if is_space b then trim_left s else b ∷ s

-- A byte joins the rest unless both end there in space.
abbrev trim_onto : ℕ → Text → Text
trim_onto b [] = if is_space b then [] else b ∷ []
trim_onto b (c ∷ s) = b ∷ c ∷ s

unfoldable pub trim_right : Text → Text
trim_right [] = []
trim_right (b ∷ s) = trim_onto b (trim_right s)

-- strings.TrimSpace
unfoldable pub trim_space : Text → Text
unfolding trim_left trim_right
trim_space s = trim_right (trim_left s)

-- The text before the first such byte, if there is one: s[:strings.Index(s, …)].
unfoldable pub before : ℕ → Text → Option Text
before c [] = none
before c (b ∷ s) =
    if b == c then some [] else (elim (before c s) [ none ↦ none | some r ↦ some (b ∷ r) ])

unfoldable pub strip_prefix : Text → Text → Option Text
strip_prefix [] s = some s
strip_prefix (b ∷ p) [] = none
strip_prefix (b ∷ p) (c ∷ s) = if b == c then strip_prefix p s else none

-- strings.TrimPrefix
unfoldable pub trim_prefix : Text → Text → Text
unfolding strip_prefix
trim_prefix p s = elim (strip_prefix p s) [ none ↦ s | some r ↦ r ]

abbrev lower : ℕ → ℕ
lower c = if leb b'A' c && leb c b'Z' then c + 32 else c

-- strings.ToLower
unfoldable pub to_lower : Text → Text
to_lower s = map lower s

abbrev upper : ℕ → ℕ
upper c = if leb b'a' c && leb c b'z' then c - 32 else c

-- strings.ToUpper
unfoldable pub to_upper : Text → Text
to_upper s = map upper s

-- The number that decimal digits write, after the digits before them.
unfoldable pub parse_digits : ℕ → Text → Option ℕ
parse_digits acc [] = some acc
parse_digits acc (c ∷ s) =
    let rest = parse_digits (acc * 10 + (c - 48)) s in
    if leb b'0' c && leb c b'9' then rest else none

-- strconv.ParseInt(s, 10, 64): an optional sign, digits, and the range of int64.
abbrev pub nonempty_digits : Text → Option ℕ
nonempty_digits [] = none
nonempty_digits (c ∷ s) = parse_digits 0 (c ∷ s)

abbrev up_to : ℕ → Option ℕ → Option ℕ
up_to hi o = elim o [ none ↦ none | some n ↦ if leb n hi then some n else none ]

abbrev minus : ℕ → ℤ
minus zero = pos 0
minus (suc n) = negsuc n

abbrev signed : Text → Option ℤ
signed [] = none
signed (c ∷ s) =
    if c == b'-'
    then (elim (up_to (2 ^ 63) (nonempty_digits s)) [ none ↦ none | some n ↦ some (minus n) ])
    else (elim (up_to (2 ^ 63 - 1) (nonempty_digits (if c == b'+' then s else c ∷ s))) [
      | none ↦ none
      | some n ↦ some (pos n)
    ])

unfoldable pub parse_int : Text → Option ℤ
unfolding parse_digits
parse_int s = signed s

hex_value-hex_digit : (n : ℕ) → n < 16 → hex_value (hex_digit n) ≡ some n
unfolding hex_value
hex_value-hex_digit n h = ground arith

-- Decoding inverts encoding on bytes.
pub decode_hex-encode_hex : (b : Text) → All (λ c. c < 256) b → decode_hex (encode_hex b) ≡ some b
unfolding decode_hex encode_hex
decode_hex-encode_hex [] h = refl
decode_hex-encode_hex (c ∷ b) (small, rest) =
    let whole : c / 16 * 16 + c % 16 ≡ c = omega arith in
    rw
      (
        hex_value-hex_digit (c / 16) (omega arith),
        hex_value-hex_digit (c % 16) (omega arith),
        decode_hex-encode_hex b rest,
      )
      (ap (λ t. some (t ∷ b)) whole)
