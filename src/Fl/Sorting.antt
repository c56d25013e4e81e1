-- ===== src/Fl/Sorting.antt =====
-- The sort of `medianFloat64`.
use open_world_model.Base.{
  ℕ, zero, suc, ◌≤◌, ◌≡◌, refl, sym, ◌∙◌, Bool, true, false, ◌⊎◌, inl, inr, List, [], ◌∷◌, arith,
  All, Bool-cases, length, count_where,
}
use mathlib.Core.Path.{subst}
use open_world_model.Float64.{Float64, Laws}
use open_world_model.Fl.Statistics.{sink, exchange_sort}

module _ (fp : Float64) where
  open fp use {F, lt}

  -- No later element is below an earlier one.
  abbrev pub IsSorted : List F → Type 0
  IsSorted [] = Unit
  IsSorted (x ∷ xs) = All (λ y. lt y x ≡ false) xs × IsSorted xs

  sink-count_where :
      (p : F → Bool) (x : F) (ys : List F)
      → count_where p ((sink fp x ys).0 ∷ (sink fp x ys).1) ≡ count_where p (x ∷ ys)
  unfolding sink
  sink-count_where p x [] = refl
  sink-count_where p x (y ∷ ys) = elim (Bool-cases (lt y x)) [
    | inl e ↦ rw e (omega (arith, sink-count_where p y ys))
    | inr e ↦ rw e (omega (arith, sink-count_where p x ys))
  ]

  exchange_sort-count_where :
      (p : F → Bool) (k : ℕ) (xs : List F)
      → count_where p (exchange_sort fp k xs) ≡ count_where p xs
  unfolding exchange_sort
  exchange_sort-count_where p zero xs = refl
  exchange_sort-count_where p (suc k) [] = refl
  exchange_sort-count_where p (suc k) (x ∷ xs) =
      omega (arith, sink-count_where p x xs, exchange_sort-count_where p k (sink fp x xs).1)

  sink-All :
      (Q : F → Type 0) (x : F) (ys : List F)
      → Q x
      → All Q ys
      → Q (sink fp x ys).0 × All Q (sink fp x ys).1
  unfolding sink
  sink-All Q x [] q qs = (q, tt)
  sink-All Q x (y ∷ ys) q (r, qs) = elim (Bool-cases (lt y x)) [
    | inl e ↦ rw e (let (m, rest) = sink-All Q y ys r qs in (m, (q, rest)))
    | inr e ↦ rw e (let (m, rest) = sink-All Q x ys q qs in (m, (r, rest)))
  ]

  exchange_sort-All :
      (Q : F → Type 0) (k : ℕ) (xs : List F) → All Q xs → All Q (exchange_sort fp k xs)
  unfolding exchange_sort
  exchange_sort-All Q zero xs qs = qs
  exchange_sort-All Q (suc k) [] qs = tt
  exchange_sort-All Q (suc k) (x ∷ xs) (q, qs) =
      let (m, rest) = sink-All Q x xs q qs in (m, exchange_sort-All Q k (sink fp x xs).1 rest)

  pub sink-length : (x : F) (ys : List F) → length (sink fp x ys).1 ≡ length ys
  unfolding sink
  sink-length x [] = refl
  sink-length x (y ∷ ys) = elim (Bool-cases (lt y x)) [
    | inl e ↦ rw e (omega (arith, sink-length y ys))
    | inr e ↦ rw e (omega (arith, sink-length x ys))
  ]

true-false : true ≡ false → ⊥
true-false h = ground arith

module _ (fp : Float64) (l : Laws fp) where
  open fp use {F, lt}

  -- What comes first is `x`, or is below it; and nothing that follows is below what comes first.
  abbrev IsLow : F → F × List F → Type 0
  IsLow x p = ((p.0 ≡ x) ⊎ (lt p.0 x ≡ true)) × All (λ y. lt y p.0 ≡ false) p.1

  sink_below :
      (x y : F) (ys : List F)
      → lt y x ≡ true
      → ((sink fp y ys).0, x ∷ (sink fp y ys).1) ≡ sink fp x (y ∷ ys)
  unfolding sink
  sink_below x y ys e = rw e refl

  sink_above :
      (x y : F) (ys : List F)
      → lt y x ≡ false
      → ((sink fp x ys).0, y ∷ (sink fp x ys).1) ≡ sink fp x (y ∷ ys)
  unfolding sink
  sink_above x y ys e = rw e refl

  below_both : {m : F} (x y : F) → lt y x ≡ true → (m ≡ y) ⊎ (lt m y ≡ true) → lt m x ≡ true
  below_both x y e (inl h) = rw h e
  below_both {m} x y e (inr h) = l.lt_trans m y x h e

  not_below : {m : F} (x y : F) → lt y x ≡ false → (m ≡ x) ⊎ (lt m x ≡ true) → lt y m ≡ false
  not_below x y e (inl h) = rw h e
  not_below {m} x y e (inr h) = elim (Bool-cases (lt y m)) [
    | inl k ↦ absurd (true-false (sym (l.lt_trans y m x k h) ∙ e))
    | inr k ↦ k
  ]

  sink-IsLow : (x : F) (ys : List F) → IsLow x (sink fp x ys)
  unfolding sink
  sink-IsLow x [] = (inl refl, tt)
  sink-IsLow x (y ∷ ys) = elim (Bool-cases (lt y x)) [
    | inl e ↦
        (let (low, rest) = sink-IsLow y ys in
          subst (IsLow x) (sink_below x y ys e)
            (inr (below_both x y e low), (l.lt_asymm _ _ (below_both x y e low), rest)))
    | inr e ↦
        (let (low, rest) = sink-IsLow x ys in
          subst (IsLow x) (sink_above x y ys e) (low, (not_below x y e low, rest)))
  ]

  sorted : (k : ℕ) (xs : List F) → length xs ≤ k → IsSorted fp (exchange_sort fp k xs)
  unfolding exchange_sort
  sorted zero [] h = tt
  sorted zero (x ∷ xs) h = absurd (omega (arith, h))
  sorted (suc k) [] h = tt
  sorted (suc k) (x ∷ xs) h = (
    exchange_sort-All fp (λ y. lt y (sink fp x xs).0 ≡ false) k (sink fp x xs).1
        (sink-IsLow x xs).1,
    sorted k (sink fp x xs).1 (omega (arith, h, sink-length fp x xs)),
  )

  -- By the laws of float64, the sort, run for as many rounds as there are numbers or more, leaves no
  -- number below an earlier one, and of every kind of numbers as many as there were.
  pub exchange_sort-IsSorted :
      (k : ℕ) (xs : List F) (p : F → Bool)
      → length xs ≤ k
      → IsSorted fp (exchange_sort fp k xs)
        × (count_where p (exchange_sort fp k xs) ≡ count_where p xs)
  exchange_sort-IsSorted k xs p h = (sorted k xs h, exchange_sort-count_where fp p k xs)
