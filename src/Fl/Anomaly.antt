-- ===== src/Fl/Anomaly.antt =====
-- `anomalyFilter` with an object store.
use open_world_model.Base.{
  ℕ, Bool, true, false, Option, none, some, List, [], ◌∷◌, ◌==◌, if◌then◌else◌, ltb, length,
  update_first,
}
use open_world_model.Base.Text.{Text}
use open_world_model.World.{Participant, M, ok, pure, attempt, modify, branch, call, next, ◌>>=◌}
use open_world_model.Float64.{Float64}
use open_world_model.Fl.Defs.{is_participant}
use open_world_model.Fl.Statistics.{Gradient, l2_norm, median, stddev}

-- The object store at a call, and msgpack: `none` is an error.
pub record ObjectStore (fp : Float64) : Type 0 where
  pub get_object : ℕ → Text → Option Text
  pub unmarshal : Text → Option (Gradient fp)

-- One loop of the rows: those whose gradient is read, with its norm.
module _ (fp : Float64) (store : ObjectStore fp) where
  abbrev norm_of : Option (Gradient fp) → Option fp.F
  norm_of none = none
  norm_of (some g) = some (l2_norm fp g)

  abbrev decoded : Option Text → Option fp.F
  decoded none = none
  decoded (some blob) = norm_of (store.unmarshal blob)

  -- A row without a key is skipped, and so is one whose gradient cannot be read.
  unfoldable pub read_norm : Text → M (Option fp.F)
  read_norm [] w = (ok none, w)
  read_norm (b ∷ key) w = (
    ok (if w.env.fails w.tick then none else decoded (store.get_object w.tick (b ∷ key))),
    next w,
  )

  abbrev pub add_norm : ℕ → Option fp.F → List (ℕ × fp.F) → List (ℕ × fp.F)
  add_norm id none ns = ns
  add_norm id (some n) ns = (id, n) ∷ ns

  unfoldable pub read_norms : List Participant → M (List (ℕ × fp.F))
  unfolding read_norm
  read_norms [] = pure []
  read_norms (r ∷ rs) = do
    n ← read_norm r.s3_url
    ns ← read_norms rs
    pure (add_norm r.node_id n ns)

abbrev pub flag : Participant → Participant
flag p = record p { anomaly_flagged = true }

module _ (fp : Float64) where
  open fp use {F, add, mul, lt}

  -- The map `normByNode`: a later entry of a node replaces an earlier one.
  unfoldable pub look_up : ℕ → List (ℕ × F) → Option F
  look_up id [] = none
  look_up id ((k, n) ∷ ns) = elim (look_up id ns) [
    | some m ↦ some m
    | none ↦ if k == id then some n else none
  ]

  abbrev exceeds : F → Option F → Bool
  exceeds limit none = false
  exceeds limit (some n) = lt limit n

  -- A row that is out of the limit; one without a norm is not.
  abbrev pub is_outlier : F → List (ℕ × F) → Participant → Bool
  is_outlier limit ns r = exceeds limit (look_up r.node_id ns)

  unfoldable pub norms : List (ℕ × F) → List F
  norms [] = []
  norms ((k, n) ∷ ns) = n ∷ norms ns

  -- median + k·stddev
  unfoldable pub threshold : F → List (ℕ × F) → F
  unfolding norms
  threshold k ns = add (median fp (norms ns)) (mul k (stddev fp (norms ns) (median fp (norms ns))))

  -- The loop of the filter: a failed UPDATE is dropped.
  unfoldable pub sift : ℕ → F → List (ℕ × F) → List Participant → M (List Participant)
  sift round limit ns [] = pure []
  sift round limit ns (r ∷ rs) =
      let rest = sift round limit ns rs in
      branch (is_outlier limit ns r)
        (do
          done ← attempt (
              call (
                modify λ w. record w {
                  participants = update_first (is_participant round r.node_id) flag w.participants;
                }))
          rest)
        (do kept ← rest; pure (r ∷ kept))

  unfoldable pub sift_read : F → ℕ → List Participant → List (ℕ × F) → M (List Participant)
  unfolding sift
  sift_read k round records ns =
      branch (ltb (length ns) 2) (pure records) (sift round (threshold k ns) ns records)

  unfoldable pub anomaly_filter : ObjectStore fp → F → ℕ → List Participant → M (List Participant)
  unfolding read_norms sift_read
  anomaly_filter store k round records = do
    ns ← read_norms fp store records
    sift_read k round records ns
