-- ===== src/Fl/Uploads.antt =====
-- The calls of a round that put nothing into the object store.
use open_world_model.Base.{
  ℕ, ◌≡◌, inl, inr, Option, List, [], ◌∷◌, Bool-cases, length, ltb, update_first,
}
use open_world_model.Base.Text.{Text}
use open_world_model.World.{
  World, Participant, M, Result, Error, call_failed, decode_failed, or_raise, modify, call, next,
  bind_from,
}
use open_world_model.World.Frame.{Ends, bind-Ends, call-ends}
use open_world_model.Float64.{Float64}
use open_world_model.Fl.Defs.{is_participant}
use open_world_model.Fl.Anomaly.{
  ObjectStore, read_norm, read_norms, is_outlier, flag, sift, sift_read, threshold, anomaly_filter,
}
use open_world_model.Fl.Averaging.{Float32}
use open_world_model.Fl.Checkpoint.{Storage, select_weight, fetch, gather, clipped}

abbrev pub SameUploads : World → World → Type 0
SameUploads w v = v.uploads ≡ w.uploads

pub bind-same :
    {A B : Type 0} {f : A → M B} (w : World) (p : Result A × World)
    → SameUploads w p.1
    → ((a : A) (v : World) → SameUploads w v → Ends (SameUploads w) (f a v))
    → Ends (SameUploads w) (bind_from f p)
bind-same w = bind-Ends (SameUploads w) (SameUploads w) (λ v h. h)

module _ (fp : Float64) where
  read_norm-same :
      (store : ObjectStore fp) (key : Text) (w v : World)
      → SameUploads w v
      → SameUploads w (read_norm fp store key v).1
  unfolding read_norm
  read_norm-same store [] w v h = h
  read_norm-same store (b ∷ key) w v h = h

  read_norms-same :
      (store : ObjectStore fp) (rs : List Participant) (w v : World)
      → SameUploads w v
      → Ends (SameUploads w) (read_norms fp store rs v)
  unfolding read_norms
  read_norms-same store [] w v h = record { holds = h }
  read_norms-same store (r ∷ rs) w v h =
      bind-same w (read_norm fp store r.s3_url v) (read_norm-same store r.s3_url w v h) (λ n v1 h1.
        bind-same w (read_norms fp store rs v1) (read_norms-same store rs w v1 h1).holds
          (λ ns v2 h2. record { holds = h2 }))

  sift-same :
      (round : ℕ) (limit : fp.F) (ns : List (ℕ × fp.F)) (rs : List Participant) (w v : World)
      → SameUploads w v
      → Ends (SameUploads w) (sift fp round limit ns rs v)
  unfolding sift
  sift-same round limit ns [] w v h = record { holds = h }
  sift-same round limit ns (r ∷ rs) w v h = elim (Bool-cases (is_outlier fp limit ns r)) [
    | inl e ↦ rw e (record {
      holds =
          (sift-same round limit ns rs w (call (flag_row round r.node_id) v).1
            (call-ends (SameUploads w) (flag_row round r.node_id) v h h)).holds;
    })
    | inr e ↦ rw e (
        bind-same w (sift fp round limit ns rs v) (sift-same round limit ns rs w v h).holds
          (λ kept u k. record { holds = k }))
  ]
    where
      flag_row : ℕ → ℕ → M Unit
      flag_row n id =
          modify (λ w. record w {
            participants = update_first (is_participant n id) flag w.participants;
          })

  pub anomaly_filter-same :
      (store : ObjectStore fp) (k : fp.F) (round : ℕ) (rs : List Participant) (w v : World)
      → SameUploads w v
      → Ends (SameUploads w) (anomaly_filter fp store k round rs v)
  unfolding anomaly_filter sift_read
  anomaly_filter-same store k round rs w v h =
      bind-same w (read_norms fp store rs v) (read_norms-same store rs w v h).holds (λ ns u g.
        elim (Bool-cases (ltb (length ns) 2)) [
          | inl e ↦ rw e (record { holds = g })
          | inr e ↦ rw e (sift-same round (threshold fp k ns) ns rs w u g)
        ])

module _ {fp : Float64} {sp : Float32 fp} (st : Storage fp sp) where
  or_raise-same :
      {A : Type 0} (o : Option A) (e : Error) (w v : World)
      → SameUploads w v
      → SameUploads w (or_raise o e v).1
  or_raise-same o e w v h = h

  pub gather-same :
      (clip : fp.F) (rs : List Participant) (w v : World)
      → SameUploads w v
      → Ends (SameUploads w) (gather st clip rs v)
  unfolding gather fetch select_weight
  gather-same clip [] w v h = record { holds = h }
  gather-same clip (r ∷ rs) w v h =
      let read : M Text = λ u. or_raise (st.get_object u.tick r.s3_url) call_failed u in
      bind-same w (call read v) (call-ends (SameUploads w) read v h h) (λ blob v1 h1.
        bind-same w (or_raise (clipped st clip (st.unmarshal blob)) decode_failed v1) h1 (λ g v2 h2.
          bind-same w (gather st clip rs (next v2)) (gather-same clip rs w (next v2) h2).holds
            (λ rest v3 h3. record { holds = h3 })))
