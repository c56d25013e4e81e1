-- ===== src/Fl/Averaging.antt =====
-- `toFloat64`, `toGradMap`, `clipL2` and `weightedAverage`. A Go map is the list of its entries in
-- the order in which the loops meet them, which Go leaves open.
use open_world_model.Base.{
  Bool, false, ◌&&◌, ◌||◌, Option, none, some, List, [], ◌∷◌, map, if◌then◌else◌,
}
use open_world_model.Base.Int.{ℤ}
use open_world_model.Base.Text.{Text, text_eq}
use open_world_model.Float64.{Float64}
use open_world_model.Fl.Statistics.{Gradient}

-- float32 beside float64.
pub record Float32 (fp : Float64) : Type 1 where
  pub S : Type 0
  pub narrow : fp.F → S
  pub widen : S → fp.F
  pub zero32 : S
  pub add32 : S → S → S
  pub mul32 : S → S → S

module _ {fp : Float64} (sp : Float32 fp) where
  open sp use {S, narrow, widen, zero32, add32, mul32}

  -- A value of `interface{}` in a decoded array, by the cases of `toFloat64`.
  pub data Item : Type 0 where
    float64 : fp.F → Item
    float32 : S → Item
    int : ℤ → Item
    int32 : ℤ → Item
    other_value : Item

  -- A value of the decoded map.
  pub data Entry : Type 0 where
    array : List Item → Entry
    scalar : Entry

  abbrev pub Raw : Type 0
  Raw = List (Text × Entry)

  -- map[string][]float32
  abbrev pub GradMap : Type 0
  GradMap = List (Text × List S)

  unfoldable pub to_float64 : Item → Option fp.F
  to_float64 (float64 v) = some v
  to_float64 (float32 v) = some (widen v)
  to_float64 (int n) = some (fp.of_int n)
  to_float64 (int32 n) = some (fp.of_int n)
  to_float64 other_value = none

  abbrev keep_number : Option fp.F → List fp.F → List fp.F
  keep_number none xs = xs
  keep_number (some x) xs = x ∷ xs

  -- What `l2NormFromMap` reads of a decoded map.
  unfoldable pub numbers : List Item → List fp.F
  unfolding to_float64
  numbers [] = []
  numbers (x ∷ xs) = keep_number (to_float64 x) (numbers xs)

  unfoldable pub gradient_of : Raw → Gradient fp
  unfolding numbers
  gradient_of [] = []
  gradient_of ((k, array xs) ∷ m) = (k, numbers xs) ∷ gradient_of m
  gradient_of ((k, scalar) ∷ m) = gradient_of m

  abbrev or_zero : Option fp.F → S
  or_zero none = zero32
  or_zero (some x) = narrow x

  -- `make([]float32, len(arr))`, then the loop: what is no number stays 0.
  unfoldable pub to_grad_map : Raw → GradMap
  unfolding to_float64
  to_grad_map [] = []
  to_grad_map ((k, array xs) ∷ m) = (k, map (λ x. or_zero (to_float64 x)) xs) ∷ to_grad_map m
  to_grad_map ((k, scalar) ∷ m) = to_grad_map m

  square_values : fp.F → List S → fp.F
  square_values norm [] = norm
  square_values norm (v ∷ vs) = square_values (fp.add norm (fp.mul (widen v) (widen v))) vs

  square_entries : fp.F → GradMap → fp.F
  unfolding square_values
  square_entries norm [] = norm
  square_entries norm ((k, vs) ∷ m) = square_entries (square_values norm vs) m

  unfoldable pub scale_entries : fp.F → GradMap → GradMap
  scale_entries scale [] = []
  scale_entries scale ((k, vs) ∷ m) =
      (k, map (λ v. narrow (fp.mul (widen v) scale)) vs) ∷ scale_entries scale m

  -- The norm of `clipL2`.
  unfoldable pub norm_of_map : GradMap → fp.F
  unfolding square_entries
  norm_of_map m = fp.sqrt (square_entries (fp.ratio 0 1) m)

  abbrev pub is_zero : fp.F → Bool
  is_zero x = fp.le x (fp.ratio 0 1) && fp.le (fp.ratio 0 1) x

  unfoldable pub clip_l2 : fp.F → GradMap → GradMap
  unfolding norm_of_map scale_entries
  clip_l2 max_norm m =
      if fp.le (norm_of_map m) max_norm || is_zero (norm_of_map m)
      then m
      else scale_entries (fp.div max_norm (norm_of_map m)) m

  -- g[key]
  unfoldable pub entry : Text → GradMap → Option (List S)
  entry key [] = none
  entry key ((k, vs) ∷ m) = if text_eq k key then some vs else entry key m

  -- The inner loop: a coordinate past the end of the sum is left out.
  unfoldable pub add_scaled : S → List S → List S → List S
  add_scaled w [] xs = []
  add_scaled w (s ∷ ss) [] = s ∷ ss
  add_scaled w (s ∷ ss) (x ∷ xs) = add32 s (mul32 w x) ∷ add_scaled w ss xs

  abbrev pub zeros_like : List S → List S
  zeros_like = map (λ x. zero32)

  -- One gradient's part in the sum of a key; `none` is the nil slice.
  unfoldable pub accumulate : S → Option (List S) → Option (List S) → Option (List S)
  unfolding add_scaled
  accumulate w sum none = sum
  accumulate w none (some xs) = some (add_scaled w (zeros_like xs) xs)
  accumulate w (some ss) (some xs) = some (add_scaled w ss xs)

  unfoldable pub sum_key : fp.F → Text → Option (List S) → List (GradMap × fp.F) → Option (List S)
  unfolding accumulate entry
  sum_key total key sum [] = sum
  sum_key total key sum ((g, w) ∷ gs) =
      sum_key total key (accumulate (narrow (fp.div w total)) sum (entry key g)) gs

  abbrev pub has_key : Text → List Text → Bool
  has_key key [] = false
  has_key key (k ∷ ks) = text_eq k key || has_key key ks

  -- The set `keysSeen`, a key at its first entry.
  unfoldable pub add_keys : List Text → GradMap → List Text
  add_keys seen [] = seen
  add_keys seen ((k, vs) ∷ m) = add_keys (if has_key k seen then seen else k ∷ seen) m

  unfoldable pub keys_seen : List Text → List (GradMap × fp.F) → List Text
  unfolding add_keys
  keys_seen seen [] = seen
  keys_seen seen ((g, w) ∷ gs) = keys_seen (add_keys seen g) gs

  abbrev pub put_key : Text → Option (List S) → GradMap → GradMap
  put_key key none out = out
  put_key key (some vs) out = (key, vs) ∷ out

  unfoldable pub average_keys : fp.F → List (GradMap × fp.F) → List Text → GradMap
  unfolding sum_key
  average_keys total gs [] = []
  average_keys total gs (key ∷ keys) =
      put_key key (sum_key total key none gs) (average_keys total gs keys)

  unfoldable pub weighted_average : fp.F → List (GradMap × fp.F) → GradMap
  unfolding keys_seen average_keys
  weighted_average total gs = average_keys total gs (keys_seen [] gs)
