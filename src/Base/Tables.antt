-- ===== src/Base/Tables.antt =====
-- A database table as the list of its rows, with what the program's SQL statements do to one:
-- `SELECT` by a condition, `COUNT(*)`, and `UPDATE … WHERE`.
use Prim.Native.Nat.{ℕ, ◌+◌, ◌≤◌}
use mathlib.Core.Path.{◌≡◌, refl, ap}
use mathlib.Core.Bool.{Bool, true, false}
use mathlib.Core.Option.{Option, none, some}
use mathlib.Core.List.{List, [], ◌∷◌, ◌++◌}
use mathlib.Core.List.{Memᴰ}
use native.Mathlib.Omega.{arith}
use open_world_model.Base.Tests.{if◌then◌else◌, Bool-cases}
use open_world_model.Base.Lists.{length, All, cases_cons}
use mathlib.Core.Logic.{inl, inr}

module _ {ℓ} {A : Type ℓ} where
  abbrev pub find_where : (A → Bool) → List A → Option A
  find_where p [] = none
  find_where p (x ∷ xs) = if p x then some x else find_where p xs

  abbrev pub count_where : (A → Bool) → List A → ℕ
  count_where p [] = 0
  count_where p (x ∷ xs) = (if p x then 1 else 0) + count_where p xs

  abbrev pub update_where : (A → Bool) → (A → A) → List A → List A
  update_where p f [] = []
  update_where p f (x ∷ xs) = (if p x then f x else x) ∷ update_where p f xs

  abbrev pub select_where : (A → Bool) → List A → List A
  select_where p [] = []
  select_where p (x ∷ xs) = if p x then x ∷ select_where p xs else select_where p xs

  pub length-update_where :
      (p : A → Bool) (f : A → A) (xs : List A) → length (update_where p f xs) ≡ length xs
  length-update_where p f [] = refl
  length-update_where p f (x ∷ xs) = omega (arith, length-update_where p f xs)

  pub count_where-le-length : (p : A → Bool) (xs : List A) → count_where p xs ≤ length xs
  count_where-le-length p [] = omega arith
  count_where-le-length p (x ∷ xs) = ground (arith, count_where-le-length p xs)

  -- Every row after an UPDATE meets `Q` if every changed and every kept row does.
  pub All-update_where {κ} :
      (Q : A → Type κ) (p : A → Bool) (f : A → A)
      → ((x : A) → Q (if p x then f x else x))
      → (xs : List A) → All Q (update_where p f xs)
  All-update_where Q p f h [] = tt
  All-update_where Q p f h (x ∷ xs) = (h x, All-update_where Q p f h xs)

  -- An UPDATE whose new rows no longer meet its condition leaves none that does.
  pub count_where-update_where :
      (p : A → Bool) (f : A → A)
      → ((x : A) → p x ≡ true → p (f x) ≡ false)
      → (xs : List A) → count_where p (update_where p f xs) ≡ 0
  count_where-update_where p f h [] = refl
  count_where-update_where p f h (x ∷ xs) = elim (Bool-cases (p x)) [
    | inl e ↦ rw e (rw (h x e) (omega (arith, count_where-update_where p f h xs)))
    | inr e ↦ rw e (rw e (omega (arith, count_where-update_where p f h xs)))
  ]

  -- `UPDATE … WHERE` on a primary key, which one row at most has.
  abbrev pub update_first : (A → Bool) → (A → A) → List A → List A
  update_first p f [] = []
  update_first p f (x ∷ xs) = if p x then f x ∷ xs else x ∷ update_first p f xs

  abbrev pub tally : (A → Bool) → Option A → ℕ
  tally q none = 0
  tally q (some x) = if q x then 1 else 0

  -- How a count changes by such an update.
  pub count_where-update_first :
      (q p : A → Bool) (f : A → A) (xs : List A) {x : A}
      → find_where p xs ≡ some x
      → count_where q (update_first p f xs) + tally q (some x)
        ≡ count_where q xs + tally q (some (f x))
  count_where-update_first q p f [] h = cc
  count_where-update_first q p f (y ∷ xs) h = elim (Bool-cases (p y)) [
    | inl e ↦ ground arith
    | inr e ↦ rw e (omega (arith, count_where-update_first q p f xs (rw e at h)))
  ]

  pub update_first-none :
      (p : A → Bool) (f : A → A) (xs : List A) → find_where p xs ≡ none → update_first p f xs ≡ xs
  update_first-none p f [] h = refl
  update_first-none p f (y ∷ xs) h = ground (arith, update_first-none p f xs)

  -- The row that a search finds meets its condition.
  pub find_where_holds :
      (p : A → Bool) (xs : List A) {x : A} → find_where p xs ≡ some x → p x ≡ true
  find_where_holds p [] h = cc
  find_where_holds p (y ∷ xs) {x} h = ground (arith, find_where_holds p xs {x = x})

  pub count_where-append :
      (p : A → Bool) (xs ys : List A)
      → count_where p (xs ++ ys) ≡ count_where p xs + count_where p ys
  count_where-append p [] ys = omega arith
  count_where-append p (x ∷ xs) ys = omega (arith, count_where-append p xs ys)

  pub find_where-update_first :
      (p : A → Bool) (f : A → A)
      → ((x : A) → p x ≡ true → p (f x) ≡ true)
      → (xs : List A) {x : A} → find_where p xs ≡ some x
      → find_where p (update_first p f xs) ≡ some (f x)
  find_where-update_first p f keep [] h = cc
  find_where-update_first p f keep (y ∷ xs) {x} h = elim (Bool-cases (p y)) [
    | inl e ↦ rw e (rw (keep y e) (ground arith))
    | inr e ↦ rw e (rw e (find_where-update_first p f keep xs (rw e at h)))
  ]

  pub update_first_unmatched :
      (p : A → Bool) (f : A → A) (xs : List A) → count_where p xs ≡ 0 → update_first p f xs ≡ xs
  update_first_unmatched p f [] h = refl
  update_first_unmatched p f (y ∷ xs) h = elim (Bool-cases (p y)) [
    | inl e ↦ ground arith
    | inr e ↦ rw e (ap (λ ys. y ∷ ys) (update_first_unmatched p f xs (omega (arith, rw e at h))))
  ]

  pub Memᴰ-select_where :
      (p : A → Bool) (xs : List A) {x : A} → Memᴰ x (select_where p xs) → Memᴰ x xs × (p x ≡ true)
  Memᴰ-select_where p [] i = elim i [ ]
  Memᴰ-select_where p (y ∷ ys) {x} i = elim (Bool-cases (p y)) [
    | inl e ↦ elim (cases_cons (rw e at i)) [
      | inl h ↦ (Memᴰ.head h, rw h e)
      | inr j ↦ let (k, q) = Memᴰ-select_where p ys j in (Memᴰ.tail k, q)
    ]
    | inr e ↦ let (k, q) = Memᴰ-select_where p ys (rw e at i) in (Memᴰ.tail k, q)
  ]

  pub find_where-append :
      (p : A → Bool) (xs : List A) {x : A}
      → find_where p xs ≡ none
      → p x ≡ true
      → find_where p (xs ++ x ∷ []) ≡ some x
  find_where-append p [] h q = rw q refl
  find_where-append p (y ∷ ys) {x} h q = elim (Bool-cases (p y)) [
    | inl e ↦ ground arith
    | inr e ↦ rw e (find_where-append p ys (rw e at h) q)
  ]
