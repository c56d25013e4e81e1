-- ===== src/Fl/Median.antt =====
-- What `medianFloat64`, `stddevFloat64` and `l2NormFromMap` compute, in words of their own.
use open_world_model.Base.{
  ℕ, zero, suc, ◌-◌, ◌/◌, ◌%◌, ◌<◌, ◌≤◌, ◌≡◌, ◌⊎◌, refl, ap, ◌∙◌, Bool, true, false, inl, inr, some,
  List, [], ◌∷◌, ◌++◌, map, arith, ◌==◌, length, get_elem?, count_where, ltb,
}
use open_world_model.Base.Int.{pos}
use open_world_model.Float64.{Float64, Laws}
use open_world_model.Fl.Statistics.{
  Gradient, square_all, square_arrays, l2_norm, exchange_sort, median, square_deviations, stddev,
}
use open_world_model.Fl.Sorting.{IsSorted, sink-length, exchange_sort-IsSorted}

get_elem?_below :
    {A : Type 0} (xs : List A) (i : ℕ) → i < length xs → (x : A) × (get_elem? xs i ≡ some x)
get_elem?_below [] i h = absurd (omega (arith, h))
get_elem?_below (x ∷ xs) zero h = (x, refl)
get_elem?_below (x ∷ xs) (suc i) h = get_elem?_below xs i (omega (arith, h))

module _ (fp : Float64) where
  open fp use {F, of_int, ratio, add, sub, mul, div, sqrt}

  -- The sum of the squares, from the left.
  abbrev pub sum_of_squares : F → List F → F
  sum_of_squares sum [] = sum
  sum_of_squares sum (x ∷ xs) = sum_of_squares (add sum (mul x x)) xs

  -- The numbers of a gradient.
  abbrev pub all_numbers : Gradient fp → List F
  all_numbers [] = []
  all_numbers ((k, xs) ∷ g) = xs ++ all_numbers g

  square_all-append :
      (sum : F) (xs ys : List F)
      → sum_of_squares (square_all fp sum xs) ys ≡ sum_of_squares sum (xs ++ ys)
  unfolding square_all
  square_all-append sum [] ys = refl
  square_all-append sum (x ∷ xs) ys = square_all-append (add sum (mul x x)) xs ys

  square_arrays-all_numbers :
      (sum : F) (g : Gradient fp) → square_arrays fp sum g ≡ sum_of_squares sum (all_numbers g)
  unfolding square_arrays
  square_arrays-all_numbers sum [] = refl
  square_arrays-all_numbers sum ((k, xs) ∷ g) =
      square_arrays-all_numbers (square_all fp sum xs) g ∙ square_all-append sum xs (all_numbers g)

  pub l2_norm-all_numbers :
      (g : Gradient fp) → l2_norm fp g ≡ sqrt (sum_of_squares (ratio 0 1) (all_numbers g))
  unfolding l2_norm
  l2_norm-all_numbers g = ap sqrt (square_arrays-all_numbers (ratio 0 1) g)

  -- The root of the mean square of the distances to `m`, by one less than their number.
  abbrev pub deviation : List F → F → F
  deviation xs m =
      sqrt (div (sum_of_squares (ratio 0 1) (map (λ x. sub x m) xs)) (of_int (pos (length xs - 1))))

  square_deviations-map :
      (m sum : F) (xs : List F)
      → square_deviations fp m sum xs ≡ sum_of_squares sum (map (λ x. sub x m) xs)
  unfolding square_deviations
  square_deviations-map m sum [] = refl
  square_deviations-map m sum (x ∷ xs) =
      square_deviations-map m (add sum (mul (sub x m) (sub x m))) xs

  pub stddev-deviation : (xs : List F) (m : F) → 2 ≤ length xs → stddev fp xs m ≡ deviation xs m
  unfolding stddev
  stddev-deviation xs m h =
      let e : ltb (length xs) 2 ≡ false = ground arith in
      rw (e, square_deviations-map m (ratio 0 1) xs) refl

  -- In some order of the numbers in which none is below an earlier one, the number in the middle, or
  -- the half of the sum of the two there.
  abbrev pub IsMedian : List F → F → Type 0
  IsMedian xs m =
      (b : List F) × IsSorted fp b
      × ((p : F → Bool) → count_where p b ≡ count_where p xs)
      × (((length xs % 2 ≡ 1) × (get_elem? b (length xs / 2) ≡ some m))
          ⊎ ((length xs % 2 ≡ 0)
              × ((x : F) × (y : F) × (get_elem? b (length xs / 2 - 1) ≡ some x)
                  × (get_elem? b (length xs / 2) ≡ some y)
                  × (m ≡ div (add x y) (ratio 2 1)))))

  length-exchange_sort : (k : ℕ) (xs : List F) → length (exchange_sort fp k xs) ≡ length xs
  unfolding exchange_sort
  length-exchange_sort zero xs = refl
  length-exchange_sort (suc k) [] = refl
  length-exchange_sort (suc k) (x ∷ xs) =
      omega (arith, length-exchange_sort k _, sink-length fp x xs)

  pub median-IsMedian : Laws fp → (xs : List F) → 1 ≤ length xs → IsMedian xs (median fp xs)
  unfolding median
  median-IsMedian l [] h = absurd (omega (arith, h))
  median-IsMedian l (x ∷ xs) h = (
    exchange_sort fp n (x ∷ xs),
    (exchange_sort-IsSorted fp l n (x ∷ xs) (λ y. true) (omega arith)).0,
    (λ p. (exchange_sort-IsSorted fp l n (x ∷ xs) p (omega arith)).1),
    by_parity (n % 2 == 1) refl,
  )
    where
      n : ℕ
      n = length (x ∷ xs)

      b : List F
      b = exchange_sort fp n (x ∷ xs)

      size : length b ≡ n
      size = length-exchange_sort n (x ∷ xs)

      by_parity :
          (o : Bool)
          → (n % 2 == 1) ≡ o
          → ((n % 2 ≡ 1) × (get_elem? b (n / 2) ≡ some (median fp (x ∷ xs))))
            ⊎ ((n % 2 ≡ 0)
                × ((y : F) × (z : F) × (get_elem? b (n / 2 - 1) ≡ some y)
                    × (get_elem? b (n / 2) ≡ some z)
                    × (median fp (x ∷ xs) ≡ div (add y z) (ratio 2 1))))
      by_parity true o =
          let (y, e) = get_elem?_below b (n / 2) (omega (arith, size)) in
          inl (ground arith, rw (o, e) refl)
      by_parity false o =
          let odd : n % 2 ≡ 0 = ground arith in
          let (y, e) = get_elem?_below b (n / 2 - 1) (omega (arith, size, odd)) in
          let (z, e') = get_elem?_below b (n / 2) (omega (arith, size)) in
          inr (odd, (y, z, e, e', rw (o, e, e') refl))
