-- ===== src/Fl/Filtering.antt =====
-- Which gradients the anomaly filter keeps.
use open_world_model.Base.{
  ℕ, ◌<◌, ◌≤◌, ◌≡◌, ◌⊎◌, refl, sym, ap, ◌∙◌, true, not, inl, inr, some, List, [], ◌∷◌, map, arith,
  Bool-cases, Option-cases, if◌then◌else◌, ltb, length, select_where,
}
use open_world_model.World.{World, Participant, Result, ok, err, pure, bind_from, bind-holds}
use open_world_model.Float64.{Float64, Laws}
use open_world_model.Fl.Anomaly.{
  ObjectStore, read_norms, look_up, is_outlier, norms, threshold, sift, sift_read, anomaly_filter,
}
use open_world_model.Fl.Median.{deviation, stddev-deviation, IsMedian, median-IsMedian}
use open_world_model.Fl.Norms.{Reads, read_norms-Reads, IsLast, look_up-IsLast, last-look_up}
use open_world_model.Fl.Statistics.{median}

module _ (fp : Float64) where
  open fp use {F, add, mul, lt}

  keep-ok :
      (r : Participant) (xs : List Participant) (p : Result (List Participant) × World)
      → p.0 ≡ ok xs
      → (bind_from (λ kept. pure (r ∷ kept)) p).0 ≡ ok (r ∷ xs)
  keep-ok r xs (ok ys, w) h = cc
  keep-ok r xs (err e, w) h = ground arith

  sift-select_where :
      (round : ℕ) (limit : F) (ns : List (ℕ × F)) (rs : List Participant) (w : World)
      → (sift fp round limit ns rs w).0 ≡ ok (select_where (λ r. not (is_outlier fp limit ns r)) rs)
  unfolding sift
  sift-select_where round limit ns [] w = refl
  sift-select_where round limit ns (r ∷ rs) w = elim (Bool-cases (is_outlier fp limit ns r)) [
    | inl e ↦ rw e (sift-select_where round limit ns rs _)
    | inr e ↦ rw e (
        keep-ok r (select_where (λ r. not (is_outlier fp limit ns r)) rs)
          (sift fp round limit ns rs w) (sift-select_where round limit ns rs w))
  ]

  sift_read_lem :
      (k : F) (round : ℕ) (records : List Participant) (ns : List (ℕ × F)) (w : World)
      → (sift_read fp k round records ns w).0
        ≡ ok (
            if ltb (length ns) 2
            then records
            else select_where (λ r. not (is_outlier fp (threshold fp k ns) ns r)) records)
  unfolding sift_read
  sift_read_lem k round records ns w = elim (Bool-cases (ltb (length ns) 2)) [
    | inl e ↦ rw e refl
    | inr e ↦ rw e (sift-select_where round (threshold fp k ns) ns records w)
  ]

  -- The last norm of the row's node is above the limit.
  abbrev pub IsOut : F → List (ℕ × F) → Participant → Type 0
  IsOut limit ns r = (x : F) × IsLast fp r.node_id x ns × (lt limit x ≡ true)

  -- The rows that are not out, in their order.
  abbrev pub Sifts : F → List (ℕ × F) → List Participant → List Participant → Type 0
  Sifts limit ns [] ks = ks ≡ []
  Sifts limit ns (r ∷ rs) ks =
      (IsOut limit ns r × Sifts limit ns rs ks)
      ⊎ ((¬ IsOut limit ns r) × ((ms : List Participant) × (ks ≡ r ∷ ms) × Sifts limit ns rs ms))

  is_outlier-IsOut :
      (limit : F) (ns : List (ℕ × F)) (r : Participant)
      → is_outlier fp limit ns r ≡ true
      → IsOut limit ns r
  is_outlier-IsOut limit ns r h = elim (Option-cases (look_up fp r.node_id ns)) [
    | inl e ↦ absurd (ground (arith, rw e at h))
    | inr (x, e) ↦ (x, look_up-IsLast fp r.node_id x ns e, rw e at h)
  ]

  IsOut-is_outlier :
      (limit : F) (ns : List (ℕ × F)) (r : Participant)
      → IsOut limit ns r
      → is_outlier fp limit ns r ≡ true
  IsOut-is_outlier limit ns r (x, (pre, post, same, free), h) =
      let e : look_up fp r.node_id ns ≡ some x =
        rw same (last-look_up fp r.node_id x pre post free) in
      rw e h

  select_where-Sifts :
      (limit : F) (ns : List (ℕ × F)) (rs : List Participant)
      → Sifts limit ns rs (select_where (λ r. not (is_outlier fp limit ns r)) rs)
  select_where-Sifts limit ns [] = refl
  select_where-Sifts limit ns (r ∷ rs) = elim (Bool-cases (is_outlier fp limit ns r)) [
    | inl e ↦ inl (is_outlier-IsOut limit ns r e, rw e (select_where-Sifts limit ns rs))
    | inr e ↦ inr (
      λ h. ground (arith, IsOut-is_outlier limit ns r h),
      (_, rw e refl, select_where-Sifts limit ns rs),
    )
  ]

  norms-map : (ns : List (ℕ × F)) → norms fp ns ≡ map (λ e. e.1) ns
  unfolding norms
  norms-map [] = refl
  norms-map ((k, n) ∷ ns) = ap (λ xs. n ∷ xs) (norms-map ns)

  length-map : (ns : List (ℕ × F)) → length (map (λ e. e.1) ns) ≡ length ns
  length-map [] = refl
  length-map (e ∷ ns) = omega (arith, length-map ns)

  -- The limit by the norms: a median of them, and `k` times the deviation from it.
  abbrev pub IsLimit : F → List F → F → Type 0
  IsLimit k xs limit = (m : F) × IsMedian fp xs m × (limit ≡ add m (mul k (deviation fp xs m)))

  threshold-IsLimit :
      Laws fp
      → (k : F) (ns : List (ℕ × F)) → 2 ≤ length ns
      → IsLimit k (map (λ e. e.1) ns) (threshold fp k ns)
  unfolding threshold
  threshold-IsLimit l k ns h =
      let xs : List F = map (λ e. e.1) ns in
      let n : 2 ≤ length xs = omega (arith, h, length-map ns) in
      (
        median fp xs,
        median-IsMedian fp l xs (omega (arith, n)),
        rw (norms-map ns) (ap (λ d. add (median fp xs) (mul k d)) (stddev-deviation fp xs _ n)),
      )

  -- The rows that are kept, by the norms that were read.
  abbrev pub IsFiltered :
      ObjectStore fp → F → List Participant → World → Result (List Participant) × World → Type 0
  IsFiltered store k records w p =
      (ns : List (ℕ × F)) × Reads fp store w.env w.tick records ns
      × ((ks : List Participant) × (p.0 ≡ ok ks)
          × (((length ns < 2) × (ks ≡ records))
              ⊎ ((2 ≤ length ns)
                  × ((limit : F) × IsLimit k (map (λ e. e.1) ns) limit
                      × Sifts limit ns records ks))))

  sift_read-IsFiltered :
      Laws fp
      → (store : ObjectStore fp) (k : F) (round : ℕ) (records : List Participant)
        (ns : List (ℕ × F)) (w v : World)
      → Reads fp store w.env w.tick records ns
      → IsFiltered store k records w (sift_read fp k round records ns v)
  sift_read-IsFiltered l store k round records ns w v h = elim (Bool-cases (ltb (length ns) 2)) [
    | inl e ↦
        (ns, h, (records, sift_read_lem k round records ns v ∙ rw e refl, inl (ground arith, refl)))
    | inr e ↦
        let n : 2 ≤ length ns = ground arith in
        (
          ns,
          h,
          (
            _,
            sift_read_lem k round records ns v ∙ rw e refl,
            inr (n, (_, threshold-IsLimit l k ns n, select_where-Sifts _ ns records)),
          ),
        )
  ]

  -- By the laws of float64, the filter returns no error, also where calls fail. It reads the norms
  -- of the rows' gradients: the root of the sum of the squares of the numbers, and none for a row
  -- without a key, or whose object cannot be read or is no gradient. With fewer than two norms every
  -- row is kept. Otherwise a row is dropped where its node has norms and the last of them is above
  -- the median of all norms plus `k` times their standard deviation (the mean square is taken by one
  -- less than their number), and all other rows are kept, in their order.
  pub anomaly_filter-IsFiltered :
      Laws fp
      → (store : ObjectStore fp) (k : F) (round : ℕ) (records : List Participant) (w : World)
      → IsFiltered store k records w (anomaly_filter fp store k round records w)
  unfolding anomaly_filter
  anomaly_filter-IsFiltered l store k round records w =
      let (ns, e, h) = read_norms-Reads fp store records w in
      bind-holds (IsFiltered store k records w) (read_norms fp store records w)
        (λ ms w1 r.
          let same : ns ≡ ms = ok_ok (sym e ∙ ap (λ q. q.0) r) in
          sift_read-IsFiltered l store k round records ms w w1 (rw same at h))
        (λ e' w1 r. absurd (ok_err (sym e ∙ ap (λ q. q.0) r)))
    where
      ok_ok : {A : Type 0} {a b : A} → ok a ≡ ok b → a ≡ b
      ok_ok h = cc

      ok_err : {A : Type 0} {a : A} {x : _} → ok a ≡ err x → ⊥
      ok_err h = ground arith
