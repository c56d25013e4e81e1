-- ===== src/Fl/Statistics.antt =====
-- `l2NormFromMap`, `medianFloat64` and `stddevFloat64`.
use open_world_model.Base.{
  ℕ, zero, suc, ◌-◌, ◌/◌, ◌%◌, Option, none, some, List, [], ◌∷◌, ◌==◌, if◌then◌else◌, ltb, length,
  get_elem?,
}
use open_world_model.Base.Int.{pos}
use open_world_model.Base.Text.{Text}
use open_world_model.Float64.{Float64}

module _ (fp : Float64) where
  open fp use {F, of_int, ratio, add, sub, mul, div, sqrt, lt}

  -- A decoded gradient: the numbers of each array that `toFloat64` converts, in the order of the loop.
  abbrev pub Gradient : Type 0
  Gradient = List (Text × List F)

  unfoldable pub square_all : F → List F → F
  square_all sum [] = sum
  square_all sum (x ∷ xs) = square_all (add sum (mul x x)) xs

  unfoldable pub square_arrays : F → Gradient → F
  unfolding square_all
  square_arrays sum [] = sum
  square_arrays sum ((k, xs) ∷ g) = square_arrays (square_all sum xs) g

  unfoldable pub l2_norm : Gradient → F
  unfolding square_arrays
  l2_norm g = sqrt (square_arrays (ratio 0 1) g)

  -- The inner loop of the sort: `x` is b[i], and the list is what follows it.
  unfoldable pub sink : F → List F → F × List F
  sink x [] = (x, [])
  sink x (y ∷ ys) =
      let rest = sink (if lt y x then y else x) ys in (rest.0, (if lt y x then x else y) ∷ rest.1)

  -- The outer loop, by the rounds that are left.
  unfoldable pub exchange_sort : ℕ → List F → List F
  unfolding sink
  exchange_sort zero xs = xs
  exchange_sort (suc k) [] = []
  exchange_sort (suc k) (x ∷ xs) = (sink x xs).0 ∷ exchange_sort k (sink x xs).1

  abbrev or_zero : Option F → F
  or_zero none = ratio 0 1
  or_zero (some x) = x

  abbrev at_index : List F → ℕ → F
  at_index b i = or_zero (get_elem? b i)

  abbrev middle : List F → ℕ → F
  middle b n =
      if n % 2 == 1
      then at_index b (n / 2)
      else div (add (at_index b (n / 2 - 1)) (at_index b (n / 2))) (ratio 2 1)

  unfoldable pub median : List F → F
  unfolding exchange_sort
  median [] = ratio 0 1
  median (x ∷ xs) = middle (exchange_sort (length (x ∷ xs)) (x ∷ xs)) (length (x ∷ xs))

  unfoldable pub square_deviations : F → F → List F → F
  square_deviations mean sum [] = sum
  square_deviations mean sum (x ∷ xs) =
      square_deviations mean (add sum (mul (sub x mean) (sub x mean))) xs

  unfoldable pub stddev : List F → F → F
  unfolding square_deviations
  stddev a mean =
      if ltb (length a) 2
      then ratio 0 1
      else sqrt (div (square_deviations mean (ratio 0 1) a) (of_int (pos (length a - 1))))
