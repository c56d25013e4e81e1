-- ===== src/Rpc/Access.antt =====
-- Whose requests change the state.
use open_world_model.Base.{
  ℕ, ◌≡◌, refl, sym, ◌∙◌, Bool, true, inl, inr, Option, none, some, arith, Bool-cases, Option-cases,
  find_where, ◌&&◌,
}
use open_world_model.Base.Int.{ℤ, pos_part}
use open_world_model.Base.Text.{Text, is_empty, text_eq, text_eq→eq, trim_prefix, codes}
use open_world_model.World.{World, Env, Round, round_open, Result, ok, err}
use open_world_model.Fl.{
  has_number, round_status_eq, upsert_participant, IsStored, submit_gradient-IsStored,
}
use open_world_model.Rpc.Checks.{
  matches_gradient_key, expected_key, gradient_key, checked_path, key_or_url,
}
use open_world_model.Rpc.Handlers.{
  GradientUpdate, GradientAck, gradient_accepted, gradient_rejected, submission, gradient_ack,
  submit_gradient_rpc,
}

none_some : {A B : Type 0} {a : A} → none ≡ some a → B
none_some h = ground arith

checked_path-expected :
    (n : ℤ) (node url : Text) (path : Option Text) (key : Text)
    → checked_path n node url path ≡ some key
    → key ≡ expected_key n node
unfolding checked_path
checked_path-expected n node url none key h = ground arith
checked_path-expected n node url (some path) key h =
    elim (Bool-cases (
      matches_gradient_key (key_or_url url (trim_prefix (codes "/") path))
      && text_eq (key_or_url url (trim_prefix (codes "/") path)) (expected_key n node))) [
        | inl e ↦ sym (same (rw e at h)) ∙ text_eq→eq _ _ (right_of _ _ e)
        | inr e ↦ none_some (rw e at h)
      ]
  where
    same :
        some (key_or_url url (trim_prefix (codes "/") path)) ≡ some key
        → key_or_url url (trim_prefix (codes "/") path) ≡ key
    same h = cc

    right_of : (a b : Bool) → (a && b) ≡ true → b ≡ true
    right_of a b h = ground arith

gradient_key-expected :
    (env : Env) (n : ℤ) (node url key : Text)
    → gradient_key env n node url ≡ some key
    → key ≡ expected_key n node
unfolding gradient_key
gradient_key-expected env n node url key h = elim (Bool-cases (is_empty url)) [
  | inl e ↦ none_some (rw e at h)
  | inr e ↦ checked_path-expected n node url (env.url_path url) key (rw e at h)
]

-- The submission of a gradient was stored under its own key in its round, which is open; or the
-- request changed no submission.
abbrev pub IsKeyed : GradientUpdate → World → Result GradientAck × World → Type 0
IsKeyed g w (ok gradient_accepted, w') =
    (node : ℕ) × (r : Round) × (w.env.parse_uuid g.node_id ≡ some node)
    × (find_where (has_number (pos_part g.round_number)) w.rounds ≡ some r)
    × (round_status_eq r.status round_open ≡ true)
    × (w'.participants
        ≡ upsert_participant r.round_id (submission node g (expected_key g.round_number g.node_id))
            w.participants)
IsKeyed g w (ok (gradient_rejected e), w') = w'.participants ≡ w.participants
IsKeyed g w (err e, w') = w'.participants ≡ w.participants

acked :
    (g : GradientUpdate) (w : World) (node : ℕ) (key : Text)
    → w.env.parse_uuid g.node_id ≡ some node
    → key ≡ expected_key g.round_number g.node_id
    → (r : Result (Unit {0})) (w' : World) → IsStored (submission node g key) w r w'
    → IsKeyed g w (ok (gradient_ack r), w')
acked g w node key p k (ok done) w' (r, found, is_open, stored) =
    (node, r, p, found, is_open, rw k at stored)
acked g w node key p k (err e) w' h = h

-- A gradient is stored only under the key of its own round and node, in the round of the number that
-- the request names and only while that is open; every other request leaves the submissions as they
-- were.
pub submit_gradient_rpc-IsKeyed :
    (g : GradientUpdate) (w : World) → IsKeyed g w (submit_gradient_rpc g w)
unfolding submit_gradient_rpc
submit_gradient_rpc-IsKeyed g w = elim (Option-cases (w.env.parse_uuid g.node_id)) [
  | inl e ↦ rw e refl
  | inr (node, e) ↦
      rw e (elim (Option-cases (gradient_key w.env g.round_number g.node_id g.s3_url)) [
        | inl k ↦ rw k refl
        | inr (key, k) ↦ rw k (
            acked g w node key e
              (gradient_key-expected w.env g.round_number g.node_id g.s3_url key k) _ _
              (submit_gradient-IsStored (submission node g key) w))
      ])
]
