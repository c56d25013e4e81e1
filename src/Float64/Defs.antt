-- ===== src/Float64/Defs.antt =====
-- The operations, and the laws of correctly rounded arithmetic.
use open_world_model.Base.{ℕ, ◌<◌, ◌≡◌, Bool, true, false}
use open_world_model.Base.Int.{ℤ, pos, ◌≤ℤ◌}

pub record Float64 : Type 1 where
  pub F : Type 0
  -- float64(n)
  pub of_int : ℤ → F
  -- the constant nearest to n / d
  pub ratio : ℕ → ℕ → F
  pub add : F → F → F
  pub sub : F → F → F
  pub mul : F → F → F
  pub div : F → F → F
  pub sqrt : F → F
  pub lt : F → F → Bool
  pub le : F → F → Bool
  -- int64(x)
  pub truncate : F → ℤ
  -- a NUMERIC column with so many decimals, written and read
  pub to_numeric : ℕ → F → ℕ
  pub of_numeric : ℕ → ℕ → F

pub record Laws (fp : Float64) : Type 0 where
  pub lt_irrefl : (x : fp.F) → fp.lt x x ≡ false
  pub lt_asymm : (x y : fp.F) → fp.lt x y ≡ true → fp.lt y x ≡ false
  pub lt_trans : (x y z : fp.F) → fp.lt x y ≡ true → fp.lt y z ≡ true → fp.lt x z ≡ true
  pub of_int_mono : (a b : ℤ) → a ≤ℤ b → fp.lt (fp.of_int b) (fp.of_int a) ≡ false
  pub of_int_pos : (n : ℕ) → 0 < n → fp.lt (fp.ratio 0 1) (fp.of_int (pos n)) ≡ true
  pub of_int_nonneg : (n : ℕ) → fp.lt (fp.of_int (pos n)) (fp.ratio 0 1) ≡ false
  pub ratio_nonneg : (n d : ℕ) → fp.lt (fp.ratio n d) (fp.ratio 0 1) ≡ false
  pub one_lt_two : fp.lt (fp.ratio 1 1) (fp.ratio 2 1) ≡ true
  pub zero_lt_one : fp.lt (fp.ratio 0 1) (fp.ratio 1 1) ≡ true
  pub zero_lt_three : fp.lt (fp.ratio 0 1) (fp.ratio 3 1) ≡ true
  pub tenth_le_one : fp.lt (fp.ratio 1 1) (fp.ratio 10 100) ≡ false
  pub le_of_lt : (x y : fp.F) → fp.lt x y ≡ true → fp.le y x ≡ false
  pub add_mono : (c x y : fp.F) → fp.lt y x ≡ false → fp.lt (fp.add c y) (fp.add c x) ≡ false
  pub add_nonneg : (c x : fp.F) → fp.lt x (fp.ratio 0 1) ≡ false → fp.lt (fp.add c x) c ≡ false
  pub mul_mono :
      (c x y : fp.F)
      → fp.lt c (fp.ratio 0 1) ≡ false
      → fp.lt y x ≡ false
      → fp.lt (fp.mul y c) (fp.mul x c) ≡ false
  pub mul_nonneg :
      (x y : fp.F)
      → fp.lt x (fp.ratio 0 1) ≡ false
      → fp.lt y (fp.ratio 0 1) ≡ false
      → fp.lt (fp.mul x y) (fp.ratio 0 1) ≡ false
  pub div_mono :
      (d x y : fp.F)
      → fp.lt (fp.ratio 0 1) d ≡ true
      → fp.lt y x ≡ false
      → fp.lt (fp.div y d) (fp.div x d) ≡ false
  pub div_nonneg :
      (d x : fp.F)
      → fp.lt (fp.ratio 0 1) d ≡ true
      → fp.lt x (fp.ratio 0 1) ≡ false
      → fp.lt (fp.div x d) (fp.ratio 0 1) ≡ false
