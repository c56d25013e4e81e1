-- ===== src/Fl/Coordinates.antt =====
-- `weightedAverage` key by key and coordinate by coordinate.
use open_world_model.Base.{
  ℕ, zero, suc, ◌<◌, ◌≡◌, refl, sym, ◌∙◌, ap, true, ◌||◌, inl, inr, Option, none, some, List, [],
  ◌∷◌, arith, Bool-cases, Option-cases, length, get_elem?, if◌then◌else◌,
}
use mathlib.Core.Path.{subst}
use open_world_model.Base.Text.{Text, text_eq, text_eq→eq}
use open_world_model.Float64.{Float64}
use open_world_model.Fl.Averaging.{
  Float32, GradMap, entry, add_scaled, zeros_like, accumulate, sum_key, has_key, add_keys, put_key,
  keys_seen, average_keys, weighted_average,
}

module _ {fp : Float64} (sp : Float32 fp) (total : fp.F) (key : Text) where
  open sp use {S, narrow, zero32, add32, mul32}

  abbrev at : ℕ → Option (List S) → Option S
  at j none = none
  at j (some xs) = get_elem? xs j

  abbrev step : S → Option S → S → S
  step w none acc = acc
  step w (some x) acc = add32 acc (mul32 w x)

  -- One coordinate by itself: the weighted terms of the gradients that have it, in their order.
  pub coordinate : ℕ → S → List (GradMap sp × fp.F) → S
  coordinate j acc [] = acc
  coordinate j acc ((g, w) ∷ gs) =
      coordinate j (step (narrow (fp.div w total)) (at j (entry sp key g)) acc) gs

  -- The values of the first gradient that has the key.
  abbrev pub first_entry : List (GradMap sp × fp.F) → Option (List S)
  first_entry [] = none
  first_entry ((g, w) ∷ gs) = elim (entry sp key g) [ none ↦ first_entry gs | some xs ↦ some xs ]

  -- The average has the key if a gradient has it, with as many values as the first that does, each
  -- the sum of its terms.
  abbrev pub IsAverageOf : List (GradMap sp × fp.F) → Option (List S) → Option (List S) → Type 0
  IsAverageOf gs none out = out ≡ none
  IsAverageOf gs (some xs) out =
      (v : List S) × (out ≡ some v)
      × (length v ≡ length xs)
      × ((j : ℕ) → j < length xs → get_elem? v j ≡ some (coordinate j zero32 gs))

  length-add_scaled : (w : S) (ss xs : List S) → length (add_scaled sp w ss xs) ≡ length ss
  unfolding add_scaled
  length-add_scaled w [] xs = refl
  length-add_scaled w (s ∷ ss) [] = refl
  length-add_scaled w (s ∷ ss) (x ∷ xs) = ap suc (length-add_scaled w ss xs)

  get_elem?-add_scaled :
      (w : S) (ss xs : List S) (j : ℕ) {a : S}
      → get_elem? ss j ≡ some a
      → get_elem? (add_scaled sp w ss xs) j ≡ some (step w (get_elem? xs j) a)
  unfolding add_scaled
  get_elem?-add_scaled w [] xs j h = cc
  get_elem?-add_scaled w (s ∷ ss) [] j h = h
  get_elem?-add_scaled w (s ∷ ss) (x ∷ xs) zero h = ground arith
  get_elem?-add_scaled w (s ∷ ss) (x ∷ xs) (suc j) h = get_elem?-add_scaled w ss xs j h

  length-zeros_like : (xs : List S) → length (zeros_like sp xs) ≡ length xs
  length-zeros_like [] = refl
  length-zeros_like (x ∷ xs) = ap suc (length-zeros_like xs)

  get_elem?-zeros_like :
      (xs : List S) (j : ℕ) → j < length xs → get_elem? (zeros_like sp xs) j ≡ some zero32
  get_elem?-zeros_like [] j h = absurd (omega arith)
  get_elem?-zeros_like (x ∷ xs) zero h = refl
  get_elem?-zeros_like (x ∷ xs) (suc j) h = get_elem?-zeros_like xs j (omega arith)

  -- A sum that there is goes through the rest of the gradients.
  abbrev Continues : List S → List (GradMap sp × fp.F) → Type 0
  Continues ss gs =
      (v : List S) × (sum_key sp total key (some ss) gs ≡ some v)
      × (length v ≡ length ss)
      × ((j : ℕ) (a : S) → get_elem? ss j ≡ some a → get_elem? v j ≡ some (coordinate j a gs))

  sum_key-Continues : (ss : List S) (gs : List (GradMap sp × fp.F)) → Continues ss gs
  unfolding sum_key coordinate accumulate
  sum_key-Continues ss [] = (ss, refl, refl, λ j a h. h)
  sum_key-Continues ss ((g, w) ∷ gs) = elim (Option-cases (entry sp key g)) [
    | inl e ↦ rw e (sum_key-Continues ss gs)
    | inr (xs, e) ↦
        let (v, h, l, k) = sum_key-Continues (add_scaled sp (narrow (fp.div w total)) ss xs) gs in
        rw e (
          v,
          h,
          l ∙ length-add_scaled (narrow (fp.div w total)) ss xs,
          λ j a q. k j _ (get_elem?-add_scaled (narrow (fp.div w total)) ss xs j q),
        )
  ]

  IsAverageOf-same :
      (gs hs : List (GradMap sp × fp.F)) (o out : Option (List S))
      → ((j : ℕ) → coordinate j zero32 hs ≡ coordinate j zero32 gs)
      → IsAverageOf gs o out
      → IsAverageOf hs o out
  IsAverageOf-same gs hs none out same h = h
  IsAverageOf-same gs hs (some xs) out same (v, e, l, k) =
      (v, e, l, λ j q. k j q ∙ ap some (sym (same j)))

  sum_key-IsAverageOf :
      (gs : List (GradMap sp × fp.F))
      → IsAverageOf gs (first_entry gs) (sum_key sp total key none gs)
  unfolding sum_key coordinate accumulate
  sum_key-IsAverageOf [] = refl
  sum_key-IsAverageOf ((g, w) ∷ gs) = elim (Option-cases (entry sp key g)) [
    | inl e ↦
        rw (e, first_entry)
          (IsAverageOf-same gs ((g, w) ∷ gs) (first_entry gs) (sum_key sp total key none gs)
            (λ j. rw e refl) (sum_key-IsAverageOf gs))
    | inr (xs, e) ↦
        let c = narrow (fp.div w total) in
        let (v, h, l, k) = sum_key-Continues (add_scaled sp c (zeros_like sp xs) xs) gs in
        rw (e, first_entry)
          (
            v,
            h,
            l ∙ length-add_scaled c (zeros_like sp xs) xs ∙ length-zeros_like xs,
            λ j q.
                k j _ (get_elem?-add_scaled c (zeros_like sp xs) xs j (get_elem?-zeros_like xs j q))
                ∙ ap (λ o. some (coordinate j (step c (at j o) zero32) gs)) (sym e),
          )
  ]

  -- The keys of the average are those that some gradient has.
  has_key-add_keys :
      (seen : List Text) (g : GradMap sp)
      → has_key sp key seen ≡ true
      → has_key sp key (add_keys sp seen g) ≡ true
  unfolding add_keys
  has_key-add_keys seen [] h = h
  has_key-add_keys seen ((k, vs) ∷ g) h = elim (Bool-cases (has_key sp k seen)) [
    | inl e ↦ rw e (has_key-add_keys seen g h)
    | inr e ↦ rw e (has_key-add_keys (k ∷ seen) g (ground arith))
  ]

  entry-has_key :
      (seen : List Text) (g : GradMap sp) {xs : List S}
      → entry sp key g ≡ some xs
      → has_key sp key (add_keys sp seen g) ≡ true
  unfolding add_keys entry
  entry-has_key seen [] h = cc
  entry-has_key seen ((k, vs) ∷ g) h = elim (Bool-cases (text_eq k key)) [
    | inl e ↦ elim (Bool-cases (has_key sp k seen)) [
      | inl f ↦
          rw f
            (has_key-add_keys seen g (subst (λ t. has_key sp t seen ≡ true) (text_eq→eq k key e) f))
      | inr f ↦ rw f (has_key-add_keys (k ∷ seen) g (ground arith))
    ]
    | inr e ↦ entry-has_key (if has_key sp k seen then seen else k ∷ seen) g (rw e at h)
  ]

  has_key-keys_seen :
      (seen : List Text) (gs : List (GradMap sp × fp.F))
      → has_key sp key seen ≡ true
      → has_key sp key (keys_seen sp seen gs) ≡ true
  unfolding keys_seen
  has_key-keys_seen seen [] h = h
  has_key-keys_seen seen ((g, w) ∷ gs) h =
      has_key-keys_seen (add_keys sp seen g) gs (has_key-add_keys seen g h)

  first_entry-has_key :
      (seen : List Text) (gs : List (GradMap sp × fp.F)) {xs : List S}
      → first_entry gs ≡ some xs
      → has_key sp key (keys_seen sp seen gs) ≡ true
  unfolding keys_seen
  first_entry-has_key seen [] h = cc
  first_entry-has_key seen ((g, w) ∷ gs) {xs} h = elim (Option-cases (entry sp key g)) [
    | inl e ↦ first_entry-has_key (add_keys sp seen g) gs (rw (e, first_entry) at h)
    | inr (ys, e) ↦ has_key-keys_seen (add_keys sp seen g) gs (entry-has_key seen g e)
  ]

  entry-put_key :
      (k : Text) (o out : Option (List S)) (rest : GradMap sp)
      → entry sp key rest ≡ out
      → (text_eq k key ≡ true → o ≡ none → out ≡ none)
      → entry sp key (put_key sp k o rest) ≡ (if text_eq k key then o else out)
  unfolding entry
  entry-put_key k none out rest h gone = elim (Bool-cases (text_eq k key)) [
    | inl e ↦ rw e (h ∙ gone e refl)
    | inr e ↦ rw e h
  ]
  entry-put_key k (some v) out rest h gone = elim (Bool-cases (text_eq k key)) [
    | inl e ↦ rw e refl
    | inr e ↦ rw e h
  ]

  entry-average_keys :
      (gs : List (GradMap sp × fp.F)) (keys : List Text)
      → entry sp key (average_keys sp total gs keys)
        ≡ (if has_key sp key keys then sum_key sp total key none gs else none)
  unfolding average_keys entry
  entry-average_keys gs [] = refl
  entry-average_keys gs (k ∷ ks) =
      entry-put_key k (sum_key sp total k none gs) _ (average_keys sp total gs ks)
        (entry-average_keys gs ks)
        (λ e n. absent (subst (λ t. sum_key sp total t none gs ≡ none) (text_eq→eq k key e) n))
      ∙ by_test
    where
      absent :
          sum_key sp total key none gs ≡ none
          → (if has_key sp key ks then sum_key sp total key none gs else none) ≡ none
      absent n = elim (Bool-cases (has_key sp key ks)) [ inl h ↦ rw h n | inr h ↦ rw h refl ]

      by_test :
          (if text_eq k key
            then sum_key sp total k none gs
            else if has_key sp key ks
            then sum_key sp total key none gs
            else none)
          ≡ (if text_eq k key || has_key sp key ks then sum_key sp total key none gs else none)
      by_test = elim (Bool-cases (text_eq k key)) [
        | inl e ↦ rw e (ap (λ t. sum_key sp total t none gs) (text_eq→eq k key e))
        | inr e ↦ rw e refl
      ]

  sum_key_absent :
      (gs : List (GradMap sp × fp.F)) → first_entry gs ≡ none → sum_key sp total key none gs ≡ none
  sum_key_absent gs h =
      subst (λ o. IsAverageOf gs o (sum_key sp total key none gs)) h (sum_key-IsAverageOf gs)

  -- The average of gradients has exactly the keys that one of them has; its values under a key are as
  -- many as those of the first gradient with the key, and each is the sum, over the gradients that
  -- have that coordinate and in their order, of the coordinate times the gradient's share of the
  -- total weight.
  pub weighted_average-IsAverageOf :
      (gs : List (GradMap sp × fp.F))
      → IsAverageOf gs (first_entry gs) (entry sp key (weighted_average sp total gs))
  unfolding weighted_average
  weighted_average-IsAverageOf gs = elim (Option-cases (first_entry gs)) [
    | inl e ↦
        subst (λ o. IsAverageOf gs o (entry sp key (average_keys sp total gs (keys_seen sp [] gs))))
          (sym e) (entry-average_keys gs (keys_seen sp [] gs) ∙ absent e)
    | inr (xs, e) ↦
        rw (entry-average_keys gs (keys_seen sp [] gs))
          (rw (first_entry-has_key [] gs e) (sum_key-IsAverageOf gs))
  ]
    where
      absent :
          first_entry gs ≡ none
          → (if has_key sp key (keys_seen sp [] gs) then sum_key sp total key none gs else none)
            ≡ none
      absent e = elim (Bool-cases (has_key sp key (keys_seen sp [] gs))) [
        | inl h ↦ rw h (sum_key_absent gs e)
        | inr h ↦ rw h refl
      ]
