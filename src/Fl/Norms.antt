-- ===== src/Fl/Norms.antt =====
-- Which norms the anomaly filter reads, and the last one of a node.
use open_world_model.Base.{
  ℕ, suc, ◌≡◌, ◌⊎◌, refl, ◌∙◌, true, false, inl, inr, Option, none, some, List, [], ◌∷◌, ◌++◌, ◌==◌,
  arith, Bool-cases, Option-cases, All,
}
use open_world_model.Base.Text.{Text}
use open_world_model.World.{World, Env, Participant, Result, ok, err, pure, bind_from, next}
use open_world_model.Float64.{Float64}
use open_world_model.Fl.Anomaly.{ObjectStore, read_norm, read_norms, add_norm, look_up}
use open_world_model.Fl.Statistics.{Gradient}
use open_world_model.Fl.Median.{sum_of_squares, all_numbers, l2_norm-all_numbers}

module _ (fp : Float64) (store : ObjectStore fp) where
  open fp use {F, ratio, sqrt}

  -- At the call: the row's object is read, is a gradient, and the norm is its.
  abbrev pub IsRead : Env → ℕ → Text → F → Type 0
  IsRead env k key x =
      (env.fails k ≡ false)
      × ((blob : Text) × (g : Gradient fp) × (store.get_object k key ≡ some blob)
          × (store.unmarshal blob ≡ some g)
          × (x ≡ sqrt (sum_of_squares fp (ratio 0 1) (all_numbers fp g))))

  abbrev pub IsUnread : Env → ℕ → Text → Type 0
  IsUnread env k key =
      (env.fails k ≡ true)
      ⊎ (store.get_object k key ≡ none)
      ⊎ ((blob : Text) × (store.get_object k key ≡ some blob) × (store.unmarshal blob ≡ none))

  -- The norms of the rows by the number of the next call: a row without a key makes none.
  abbrev pub Reads : Env → ℕ → List Participant → List (ℕ × F) → Type 0
  Reads env k [] ns = ns ≡ []
  Reads env k (r ∷ rs) ns =
      ((r.s3_url ≡ []) × Reads env k rs ns)
      ⊎ (IsUnread env k r.s3_url × Reads env (suc k) rs ns)
      ⊎ ((x : F) × IsRead env k r.s3_url x
          × ((ms : List (ℕ × F)) × (ns ≡ (r.node_id, x) ∷ ms) × Reads env (suc k) rs ms))

  map-ok :
      {A B : Type 0} (f : A → B) (a : A) (p : Result A × World)
      → p.0 ≡ ok a
      → (bind_from (λ x. pure (f x)) p).0 ≡ ok (f a)
  map-ok f a (ok x, w) h = let e : x ≡ a = cc in rw e refl
  map-ok f a (err e, w) h = absurd (ground arith)

  -- What is read of one key: nothing changes but the number of the next call.
  abbrev Outcome : World → Text → Option F → World → Type 0
  Outcome w key o v =
      ((key ≡ []) × (o ≡ none) × (v ≡ w))
      ⊎ (IsUnread w.env w.tick key × (o ≡ none) × (v ≡ next w))
      ⊎ ((x : F) × IsRead w.env w.tick key x × (o ≡ some x) × (v ≡ next w))

  read_norm-Outcome :
      (key : Text) (w : World)
      → (o : Option F) × (v : World) × (read_norm fp store key w ≡ (ok o, v)) × Outcome w key o v
  unfolding read_norm
  read_norm-Outcome [] w = (none, w, refl, inl (refl, refl, refl))
  read_norm-Outcome (b ∷ key) w = elim (Bool-cases (w.env.fails w.tick)) [
    | inl e ↦ (none, next w, rw e refl, inr (inl (inl e, refl, refl)))
    | inr e ↦ elim (Option-cases (store.get_object w.tick (b ∷ key))) [
      | inl m ↦ (none, next w, rw (e, m) refl, inr (inl (inr (inl m), refl, refl)))
      | inr (blob, m) ↦ elim (Option-cases (store.unmarshal blob)) [
        | inl u ↦ (none, next w, rw (e, m, u) refl, inr (inl (inr (inr (blob, m, u)), refl, refl)))
        | inr (g, u) ↦ (
          _,
          next w,
          rw (e, m, u) refl,
          inr (inr (_, (e, (blob, g, m, u, l2_norm-all_numbers fp g)), refl, refl)),
        )
      ]
    ]
  ]

  pub read_norms-Reads :
      (rs : List Participant) (w : World)
      → (ns : List (ℕ × F)) × ((read_norms fp store rs w).0 ≡ ok ns) × Reads w.env w.tick rs ns
  unfolding read_norms
  read_norms-Reads [] w = ([], refl, refl)
  read_norms-Reads (r ∷ rs) w =
      let (o, v, e, h) = read_norm-Outcome r.s3_url w in
      rw e (by_outcome o v h (read_norms-Reads rs v))
    where
      by_outcome :
          (o : Option F) (v : World)
          → Outcome w r.s3_url o v
          → (ns : List (ℕ × F)) × ((read_norms fp store rs v).0 ≡ ok ns) × Reads v.env v.tick rs ns
          → (ns : List (ℕ × F)) × ((bind_from
                (λ ms. pure (add_norm fp store r.node_id o ms))
                (read_norms fp store rs v)).0
              ≡ ok ns)
            × Reads w.env w.tick (r ∷ rs) ns
      by_outcome o v (inl (key, empty, same)) (ns, f, h) =
          (ns, rw empty (map-ok (λ ms. ms) ns _ f), inl (key, rw same at h))
      by_outcome o v (inr (inl (un, empty, same))) (ns, f, h) =
          (ns, rw empty (map-ok (λ ms. ms) ns _ f), inr (inl (un, rw same at h)))
      by_outcome o v (inr (inr (x, read, is, same))) (ns, f, h) = (
        (r.node_id, x) ∷ ns,
        rw is (map-ok (λ ms. (r.node_id, x) ∷ ms) ns _ f),
        inr (inr (x, read, (ns, refl, rw same at h))),
      )

module _ (fp : Float64) where
  open fp use {F}

  abbrev IsFree : ℕ → List (ℕ × F) → Type 0
  IsFree id ns = All (λ (e : ℕ × F). (e.0 == id) ≡ false) ns

  -- The last norm of the node.
  abbrev pub IsLast : ℕ → F → List (ℕ × F) → Type 0
  IsLast id x ns =
      (pre : List (ℕ × F)) × (post : List (ℕ × F)) × (ns ≡ pre ++ (id, x) ∷ post) × IsFree id post

  look_up-IsFree : (id : ℕ) (ns : List (ℕ × F)) → look_up fp id ns ≡ none → IsFree id ns
  unfolding look_up
  look_up-IsFree id [] h = tt
  look_up-IsFree id ((k, n) ∷ ns) h = elim (Option-cases (look_up fp id ns)) [
    | inl e ↦ elim (Bool-cases (k == id)) [
      | inl same ↦ absurd (ground (arith, rw (e, same) at h))
      | inr other ↦ (other, look_up-IsFree id ns e)
    ]
    | inr (m, e) ↦ absurd (ground (arith, rw e at h))
  ]

  free-look_up : (id : ℕ) (ns : List (ℕ × F)) → IsFree id ns → look_up fp id ns ≡ none
  unfolding look_up
  free-look_up id [] h = refl
  free-look_up id ((k, n) ∷ ns) (h, hs) = rw (free-look_up id ns hs) (rw h refl)

  pub look_up-IsLast :
      (id : ℕ) (x : F) (ns : List (ℕ × F)) → look_up fp id ns ≡ some x → IsLast id x ns
  unfolding look_up
  look_up-IsLast id x [] h = absurd (ground arith)
  look_up-IsLast id x ((k, n) ∷ ns) h = elim (Option-cases (look_up fp id ns)) [
    | inl e ↦ elim (Bool-cases (k == id)) [
      | inl same ↦
          let v : n ≡ x = ground (arith, rw (e, same) at h) in
          let i : k ≡ id = ground arith in ([], ns, rw (i, v) refl, look_up-IsFree id ns e)
      | inr other ↦ absurd (ground (arith, rw (e, other) at h))
    ]
    | inr (m, e) ↦
        let (pre, post, same, free) = look_up-IsLast id x ns (e ∙ rw e at h) in
        ((k, n) ∷ pre, post, rw same refl, free)
  ]

  pub last-look_up :
      (id : ℕ) (x : F) (pre post : List (ℕ × F))
      → IsFree id post
      → look_up fp id (pre ++ (id, x) ∷ post) ≡ some x
  unfolding look_up
  last-look_up id x [] post h =
      let s : (id == id) ≡ true = ground arith in rw (free-look_up id post h) (rw s refl)
  last-look_up id x ((k, n) ∷ pre) post h = rw (last-look_up id x pre post h) refl
