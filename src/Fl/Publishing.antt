-- ===== src/Fl/Publishing.antt =====
-- The checkpoint that a round with an object store leaves there.
use open_world_model.Base.{
  ℕ, ◌≡◌, refl, ap, inl, inr, Option, none, some, List, ◌∷◌, arith, Bool-cases, length, ltb, ◌==◌,
}
use mathlib.Core.Path.{subst}
use open_world_model.Base.Text.{Text, encode_hex}
use open_world_model.World.{
  World, Participant, M, Result, ok, err, encode_failed, pure, or_raise, raise, attempt, call, next,
  bind_from, bind-holds, ◌>>=◌, ◌>>◌,
}
use open_world_model.World.Frame.{call-ends}
use open_world_model.Float64.{Float64}
use open_world_model.Fl.Defs.{RoundSummary, select_round, claim_round, complete_round, fail_round}
use open_world_model.Fl.Rounds.{
  min_participants, or_fail, count_participants, fetch_gradients, averaged, aggregate, claimed,
  counted, try_aggregate,
}
use open_world_model.Fl.Anomaly.{anomaly_filter}
use open_world_model.Fl.Averaging.{Float32, weighted_average}
use open_world_model.Fl.Checkpoint.{
  Storage, model_key, put_object, total_weight, gather, clip_or_one, fed_avg, object_store,
  with_storage,
}
use open_world_model.Fl.Uploads.{SameUploads, gather-same, anomaly_filter-same}

module _ {fp : Float64} {sp : Float32 fp} (st : Storage fp sp) where
  -- The checkpoint of a round, on top of what was in the store.
  abbrev pub IsStored : ℕ → World → Text → World → Type 0
  IsStored n w hash v =
      (bytes : Text) × (v.uploads ≡ (model_key n, bytes) ∷ w.uploads)
      × (hash ≡ encode_hex (st.sha256 bytes))

  -- A hash is that of the one object put; an error puts none.
  abbrev IsUploaded : ℕ → World → Result Text × World → Type 0
  IsUploaded n w (ok hash, v) = IsStored n w hash v
  IsUploaded n w (err e, v) = SameUploads w v

  put-IsUploaded :
      (n : ℕ) (o : Option Text) (w v : World)
      → SameUploads w v
      → IsUploaded n w (
          (do
            bytes ← or_raise o encode_failed
            put_object (model_key n) bytes
            pure (encode_hex (st.sha256 bytes)))
            v)
  put-IsUploaded n none w v h = h
  put-IsUploaded n (some bytes) w v h = elim (Bool-cases (v.env.fails v.tick)) [
    | inl e ↦ rw e h
    | inr e ↦ rw e (bytes, ap (λ l. (model_key n, bytes) ∷ l) h, refl)
  ]

  fed_avg-IsUploaded :
      (clip : fp.F) (n : ℕ) (rs : List Participant) (w v : World)
      → SameUploads w v
      → IsUploaded n w (fed_avg st clip n rs v)
  unfolding fed_avg
  fed_avg-IsUploaded clip n rs w v h =
      let gathered = (gather-same st (clip_or_one st clip) rs w v h).holds in
      bind-holds (IsUploaded n w) (gather st (clip_or_one st clip) rs v)
        (λ gs u e.
          put-IsUploaded n (st.marshal (weighted_average sp (total_weight fp gs) gs)) w u
            (subst (λ p. SameUploads w p.1) e gathered))
        (λ x u e. subst (λ p. SameUploads w p.1) e gathered)

  -- A stage that `or_fail` lets through went through.
  or_fail-ok :
      {A : Type 0} (n : ℕ) (m : M A) (v : World) {a : A} {u : World}
      → or_fail n m v ≡ (ok a, u)
      → m v ≡ (ok a, u)
  or_fail-ok {A = A} n m v {a} {u} h = by_result (m v) h
    where
      by_result :
          (p : Result A × World)
          → (let r : Result A × World = elim p.0 [
            | ok b ↦ p
            | err e ↦ (attempt (fail_round n) >>= λ _. raise e) p.1
          ] in
              r ≡ (ok a, u))
          → p ≡ (ok a, u)
      by_result (ok b, x) k = k
      by_result (err e, x) k = ground arith

  -- A summary names the hash of the object that the round put into the store.
  abbrev pub IsSummarised : ℕ → World → Result RoundSummary × World → Type 0
  IsSummarised n w (ok s, v) = IsStored n w s.aggregated_hash v
  IsSummarised n w (err e, v) = Unit

  completed-IsSummarised :
      (n : ℕ) (hash : Text) (accepted : List Participant) (w v : World)
      → IsStored n w hash v
      → IsSummarised n w (
          (complete_round n hash
              >> pure (record {
                round_number = n;
                participant_count = length accepted;
                aggregated_hash = hash;
              }))
            v)
  unfolding complete_round
  completed-IsSummarised n hash accepted w v h = elim (Bool-cases (v.env.fails v.tick)) [
    | inl e ↦ rw e tt
    | inr e ↦ rw e h
  ]

  averaged-IsSummarised :
      (k clip : fp.F) (n : ℕ) (accepted : List Participant) (w v : World)
      → SameUploads w v
      → IsSummarised n w (averaged (with_storage st k clip) n accepted v)
  unfolding averaged
  averaged-IsSummarised k clip n accepted w v h =
      elim (Bool-cases (ltb (length accepted) min_participants)) [
        | inl few ↦ rw few tt
        | inr e ↦ rw e (
            bind-holds (IsSummarised n w) (or_fail n (fed_avg st clip n accepted) v)
              (λ hash u g. completed-IsSummarised n hash accepted w u (
                subst (IsUploaded n w) (or_fail-ok n (fed_avg st clip n accepted) v g)
                  (fed_avg-IsUploaded clip n accepted w v h)))
              (λ x u g. tt))
      ]

  or_fail-same :
      {A : Type 0} (n : ℕ) (m : M A) (w v : World) {a : A} {u : World}
      → or_fail n m v ≡ (ok a, u)
      → SameUploads w (m v).1
      → SameUploads w u
  or_fail-same n m w v g h = subst (λ p. SameUploads w p.1) (or_fail-ok n m v g) h

  aggregate-IsSummarised :
      (k clip : fp.F) (id n : ℕ) (w v : World)
      → SameUploads w v
      → IsSummarised n w (aggregate (with_storage st k clip) id n v)
  unfolding aggregate
  aggregate-IsSummarised k clip id n w v h =
      bind-holds (IsSummarised n w) (or_fail n (call (fetch_gradients id)) v)
        (λ records u g.
          let same =
            or_fail-same n (call (fetch_gradients id)) w v g
              (call-ends (SameUploads w) (fetch_gradients id) v h h) in
          let filter = anomaly_filter fp (object_store st) k id records in
          bind-holds (IsSummarised n w) (or_fail n filter u)
            (λ accepted x g'. averaged-IsSummarised k clip n accepted w x (
              or_fail-same n filter w u g'
                (anomaly_filter-same fp (object_store st) k id records w u same).holds))
            (λ e x g'. tt))
        (λ e u g. tt)

  -- What a call of `TryAggregate` that returns no error says of the object store.
  abbrev pub IsPublished : ℕ → World → Result (Option RoundSummary) × World → Type 0
  IsPublished n w (ok (some s), v) = IsStored n w s.aggregated_hash v
  IsPublished n w (ok none, v) = SameUploads w v
  IsPublished n w (err e, v) = Unit

  some_summary :
      (n : ℕ) (w : World) (p : Result RoundSummary × World)
      → IsSummarised n w p
      → IsPublished n w (bind_from (λ s. pure (some s)) p)
  some_summary n w (ok s, v) h = h
  some_summary n w (err e, v) h = tt

  claimed-IsPublished :
      (k clip : fp.F) (id n affected : ℕ) (w v : World)
      → SameUploads w v
      → IsPublished n w (claimed (with_storage st k clip) id n affected v)
  unfolding claimed
  claimed-IsPublished k clip id n affected w v h = elim (Bool-cases (affected == 0)) [
    | inl e ↦ rw e h
    | inr e ↦ rw e (
        some_summary n w (aggregate (with_storage st k clip) id n v)
          (aggregate-IsSummarised k clip id n w v h))
  ]

  call-same :
      {A : Type 0} (m : M A) (w v : World) {a : A} {u : World}
      → SameUploads w v
      → SameUploads w (m (next v)).1
      → call m v ≡ (ok a, u)
      → SameUploads w u
  call-same m w v h g e = subst (λ p. SameUploads w p.1) e (call-ends (SameUploads w) m v h g)

  -- With an object store, a round is summarised only after its checkpoint was put there, as the one
  -- object that the call puts, and the summary's hash is the SHA-256 of its bytes; a call that finds
  -- the round not ready or not open puts nothing.
  pub try_aggregate-IsPublished :
      (k clip : fp.F) (n : ℕ) (w : World)
      → IsPublished n w (try_aggregate (with_storage st k clip) n w)
  unfolding try_aggregate counted claim_round
  try_aggregate-IsPublished k clip n w =
      bind-holds (IsPublished n w) (call (select_round n) w)
        (λ r w1 h1.
          let same1 = call-same (select_round n) w w refl refl h1 in
          bind-holds (IsPublished n w) (call (count_participants r.round_id) w1)
            (λ count w2 h2.
              let same2 = call-same (count_participants r.round_id) w w1 same1 same1 h2 in
              elim (Bool-cases (ltb count min_participants)) [
                | inl e ↦ rw e same2
                | inr e ↦ rw e (
                    bind-holds (IsPublished n w) (call (claim_round n) w2)
                      (λ a w3 h3.
                        claimed-IsPublished k clip r.round_id n a w w3
                          (call-same (claim_round n) w w2 same2 same2 h3))
                      (λ x w3 h3. tt))
              ])
            (λ x w2 h2. tt))
        (λ x w1 h1. tt)
