-- ===== src/Base/Decimal.antt =====
-- Reading back what `%d` writes.
use Prim.Native.Nat.{ℕ, zero, suc, ◌+◌, ◌-◌, ◌*◌, ◌/◌, ◌%◌, ◌<◌}
use mathlib.Core.Path.{◌≡◌, refl}
use mathlib.Core.Bool.{Bool, true, ◌&&◌}
use mathlib.Core.Logic.{inl, inr}
use mathlib.Core.List.{[], ◌∷◌, ◌++◌}
use native.Mathlib.Omega.{arith}
use open_world_model.Base.Tests.{ltb, leb, if◌then◌else◌, Bool-cases}
use open_world_model.Base.Lists.{All}
use open_world_model.Base.Int.{pos}
use open_world_model.Base.Text.{Text, digits_of, decimal}

abbrev pub is_digit : ℕ → Bool
is_digit c = leb b'0' c && leb c b'9'

abbrev pub AreDigits : Text → Type 0
AreDigits = All (λ c. is_digit c ≡ true)

-- The number that the digits at the front write, after those before them.
unfoldable pub scan_digits : ℕ → Text → ℕ
scan_digits acc [] = acc
scan_digits acc (c ∷ s) =
    let rest = scan_digits (acc * 10 + (c - 48)) s in if is_digit c then rest else acc

scan_digits-snoc :
    (acc : ℕ) (s : Text) (d : ℕ)
    → AreDigits s
    → is_digit d ≡ true
    → scan_digits acc (s ++ d ∷ []) ≡ scan_digits acc s * 10 + (d - 48)
unfolding scan_digits
scan_digits-snoc acc [] d h e = rw e refl
scan_digits-snoc acc (c ∷ s) d (g, h) e =
    rw (g, scan_digits-snoc (acc * 10 + (c - 48)) s d h e) refl

AreDigits-snoc : (s : Text) (d : ℕ) → AreDigits s → is_digit d ≡ true → AreDigits (s ++ d ∷ [])
AreDigits-snoc [] d h e = (e, tt)
AreDigits-snoc (c ∷ s) d (g, h) e = (g, AreDigits-snoc s d h e)

digits_of-AreDigits : (fuel n : ℕ) → AreDigits (digits_of fuel n)
unfolding digits_of
digits_of-AreDigits zero n = tt
digits_of-AreDigits (suc fuel) n = elim (Bool-cases (ltb n 10)) [
  | inl e ↦ rw e (ground arith, tt)
  | inr e ↦ rw e (
      AreDigits-snoc (digits_of fuel (n / 10)) (n % 10 + 48) (digits_of-AreDigits fuel (n / 10))
        (ground arith))
]

scan_digits-digits_of : (fuel n : ℕ) → n < fuel → scan_digits 0 (digits_of fuel n) ≡ n
unfolding digits_of scan_digits
scan_digits-digits_of zero n h = absurd (omega arith)
scan_digits-digits_of (suc fuel) n h = elim (Bool-cases (ltb n 10)) [
  | inl e ↦ rw e (ground arith)
  | inr e ↦ rw e (
      omega (
        arith,
        scan_digits-snoc 0 (digits_of fuel (n / 10)) (n % 10 + 48)
            (digits_of-AreDigits fuel (n / 10)) (ground arith),
        scan_digits-digits_of fuel (n / 10) (ground arith),
      ))
]

pub scan_digits-decimal : (n : ℕ) → scan_digits 0 (decimal (pos n)) ≡ n
unfolding decimal
scan_digits-decimal n = scan_digits-digits_of (suc n) n (omega arith)

pub decimal-AreDigits : (n : ℕ) → AreDigits (decimal (pos n))
unfolding decimal
decimal-AreDigits n = digits_of-AreDigits (suc n) n
