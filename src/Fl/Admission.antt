-- ===== src/Fl/Admission.antt =====
-- Which gradient submissions are taken.
use open_world_model.Base.{
  ℕ, ◌≡◌, refl, ap, true, false, ◌⊎◌, inl, inr, some, Bool, not, ◌&&◌, ◌==◌, ◌+◌, ◌≤◌, arith, List,
  [], ◌∷◌, count_where, select_where, Bool-cases, Option-cases, find_where,
}
use open_world_model.World.{
  World, Round, RoundStatus, Participant, round_open, Result, ok, err, Error, call_failed,
  constraint, call, next,
}
use open_world_model.Fl.Defs.{
  GradientSubmission, round_status_eq, has_number, has_node, participant_row, resubmit,
  insert_participant, upsert_participant,
}
use open_world_model.Fl.Rounds.{submit_gradient}

-- The row of a node's submission to a round.
abbrev pub is_row_of : ℕ → ℕ → Participant → Bool
is_row_of round node p = p.round_id == round && p.node_id == node

-- The one row of the round and node has the submission's hash and key, and the rows of other rounds
-- and nodes are as they were, in their order.
abbrev pub Holds : ℕ → GradientSubmission → List Participant → List Participant → Type 0
Holds round sub ps qs =
    ((q : Participant) × (find_where (is_row_of round sub.node_id) qs ≡ some q)
      × (q.gradient_hash ≡ sub.gradient_hash)
      × (q.s3_url ≡ sub.s3_url))
    × (count_where (is_row_of round sub.node_id) qs ≡ 1)
    × (select_where (λ p. not (is_row_of round sub.node_id p)) qs
        ≡ select_where (λ p. not (is_row_of round sub.node_id p)) ps)

-- The submission was stored in its round, which is open; or it was refused and none was changed.
abbrev pub IsAdmitted : GradientSubmission → World → Result (Unit {0}) → World → Type 0
IsAdmitted sub w (ok done) w' =
    (r : Round) × (find_where (has_number sub.round_number) w.rounds ≡ some r)
    × (r.status ≡ round_open)
    × Holds r.round_id sub w.participants w'.participants
IsAdmitted sub w (err e) w' = w'.participants ≡ w.participants

later-Holds :
    (round : ℕ) (sub : GradientSubmission) (p : Participant) (ps qs : List Participant)
    → is_row_of round sub.node_id p ≡ false
    → Holds round sub ps qs
    → Holds round sub (p ∷ ps) (p ∷ qs)
later-Holds round sub p ps qs e ((q, found, hash, key), one, rest) =
    ((q, rw e found, hash, key), rw e (omega (arith, one)), rw e (ap (λ xs. p ∷ xs) rest))

upsert_later :
    (round : ℕ) (sub : GradientSubmission) (p : Participant) (ps : List Participant)
    → is_row_of round sub.node_id p ≡ false
    → upsert_participant round sub (p ∷ ps) ≡ p ∷ upsert_participant round sub ps
unfolding upsert_participant
upsert_later round sub p ps e = rw e refl

upsert-Holds :
    (round : ℕ) (sub : GradientSubmission) (ps : List Participant)
    → count_where (is_row_of round sub.node_id) ps ≤ 1
    → Holds round sub ps (upsert_participant round sub ps)
unfolding upsert_participant
upsert-Holds round sub [] h =
    ((participant_row round sub, ground arith, refl, refl), ground arith, ground arith)
upsert-Holds round sub (p ∷ ps) h = elim (Bool-cases (is_row_of round sub.node_id p)) [
  | inl e ↦ rw e (
    (resubmit sub p, rw e refl, refl, refl),
    (let k : 1 + count_where (is_row_of round sub.node_id) ps ≤ 1 = rw e at h in
        rw e (omega (arith, k))),
    rw e refl,
  )
  | inr e ↦
      let k : count_where (is_row_of round sub.node_id) ps ≤ 1 = omega (arith, rw e at h) in
      rw (upsert_later round sub p ps e) (
        later-Holds round sub p ps (upsert_participant round sub ps) e
          (upsert-Holds round sub ps k))
]

-- The submission was written to its round, which is open; or it was refused and none was changed.
abbrev pub IsStored : GradientSubmission → World → Result (Unit {0}) → World → Type 0
IsStored sub w (ok done) w' =
    (r : Round) × (find_where (has_number sub.round_number) w.rounds ≡ some r)
    × (round_status_eq r.status round_open ≡ true)
    × (w'.participants ≡ upsert_participant r.round_id sub w.participants)
IsStored sub w (err e) w' = w'.participants ≡ w.participants

insert_participant_cases :
    (round : ℕ) (sub : GradientSubmission) (w : World)
    → (((call (insert_participant round sub) w).0 ≡ ok tt)
        × ((call (insert_participant round sub) w).1.participants
            ≡ upsert_participant round sub w.participants))
      ⊎ ((e : Error) × ((call (insert_participant round sub) w).0 ≡ err e)
          × ((call (insert_participant round sub) w).1.participants ≡ w.participants))
unfolding insert_participant
insert_participant_cases round sub w = elim (Bool-cases (w.env.fails w.tick)) [
  | inl e ↦ rw e (inr (call_failed, refl, refl))
  | inr e ↦ rw e (elim (Bool-cases (has_node sub.node_id w)) [
    | inl h ↦ rw h (inl (refl, refl))
    | inr h ↦ rw h (inr (constraint, refl, refl))
  ])
]

-- A submission that is stored is one upsert, in a round that is open.
pub submit_gradient-IsStored :
    (sub : GradientSubmission) (w : World)
    → let (r, w') = submit_gradient sub w in IsStored sub w r w'
unfolding submit_gradient
submit_gradient-IsStored sub w = elim (Bool-cases (w.env.fails w.tick)) [
  | inl e ↦ rw e refl
  | inr e ↦ rw e (elim (Option-cases (find_where (has_number sub.round_number) w.rounds)) [
    | inl e' ↦ rw e' refl
    | inr (r, e') ↦ rw e' (elim (Bool-cases (round_status_eq r.status round_open)) [
      | inl o ↦ rw o (elim (insert_participant_cases r.round_id sub (next w)) [
        | inl (h, p) ↦ rw h (r, e', o, p)
        | inr (x, h, p) ↦ rw h p
      ])
      | inr o ↦ rw o refl
    ])
  ])
]

status_eq-open : (s : RoundStatus) → round_status_eq s round_open ≡ true → s ≡ round_open
status_eq-open s h = ground arith

-- With at most one row for a round and a node: a gradient is stored only in a round that exists and is
-- open, where it takes the place of what the same node submitted to the round before, which is one row
-- with its hash and its key, and leaves the other rows as they were; any error leaves all of them.
pub submit_gradient-IsAdmitted :
    (sub : GradientSubmission) (w : World)
    → ((round : ℕ) → count_where (is_row_of round sub.node_id) w.participants ≤ 1)
    → let (r, w') = submit_gradient sub w in IsAdmitted sub w r w'
submit_gradient-IsAdmitted sub w key =
    by_result (submit_gradient sub w).0 (submit_gradient sub w).1 (submit_gradient-IsStored sub w)
  where
    by_result : (r : Result (Unit {0})) (w' : World) → IsStored sub w r w' → IsAdmitted sub w r w'
    by_result (ok done) w' (r, found, o, p) = (
      r,
      found,
      status_eq-open r.status o,
      rw p (upsert-Holds r.round_id sub w.participants (key r.round_id)),
    )
    by_result (err e) w' h = h
