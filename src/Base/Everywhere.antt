-- ===== src/Base/Everywhere.antt =====
-- What holds of every element of a list.
use Prim.Native.Nat.{ℕ, zero, suc}
use mathlib.Core.Path.{◌≡◌}
use mathlib.Core.Option.{some}
use mathlib.Core.List.{List, [], ◌∷◌, ◌++◌, Memᴰ}
use mathlib.Core.Logic.{inl, inr}
use native.Mathlib.Omega.{arith}
use open_world_model.Base.Lists.{All, get_elem?, set, cases_cons}

module _ {A : Type 0} {P Q : A → Type 0} where
  pub All-map : ((x : A) → P x → Q x) → (xs : List A) → All P xs → All Q xs
  All-map f [] h = tt
  All-map f (x ∷ xs) (h, hs) = (f x h, All-map f xs hs)

module _ {A : Type 0} (P : A → Type 0) where
  pub All-append : (xs ys : List A) → All P xs → All P ys → All P (xs ++ ys)
  All-append [] ys h k = k
  All-append (x ∷ xs) ys (h, hs) k = (h, All-append xs ys hs k)

  pub All-set : (xs : List A) (i : ℕ) (y : A) → P y → All P xs → All P (set xs i y)
  All-set [] i y h hs = tt
  All-set (x ∷ xs) zero y h (k, hs) = (h, hs)
  All-set (x ∷ xs) (suc i) y h (k, hs) = (k, All-set xs i y h hs)

  pub All-get_elem? : (xs : List A) (i : ℕ) {x : A} → get_elem? xs i ≡ some x → All P xs → P x
  All-get_elem? [] i e h = ground arith
  All-get_elem? (y ∷ xs) zero {x} e (h, hs) = let s : y ≡ x = ground arith in rw (← s) h
  All-get_elem? (y ∷ xs) (suc i) e (h, hs) = All-get_elem? xs i e hs

  pub All-Memᴰ : (xs : List A) {x : A} → Memᴰ x xs → All P xs → P x
  All-Memᴰ [] m h = elim m [ ]
  All-Memᴰ (y ∷ xs) m (h, hs) = elim (cases_cons m) [ inl e ↦ rw e h | inr i ↦ All-Memᴰ xs i hs ]
