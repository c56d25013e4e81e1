-- ===== src/Fl/Lifecycle.antt =====
-- When a round is aggregated, and what an aggregated round is.
use open_world_model.Base.{
  ℕ, ◌≤◌, ◌≡◌, refl, sym, ap, ◌∙◌, false, ◌⊎◌, inl, inr, Option, none, some, arith, Bool-cases,
  Option-cases, find_where, count_where, update_first, suc, List, length, ltb, ◌==◌,
  find_where-update_first, update_first-none, update_first_unmatched, false,
}
use open_world_model.Base.Text.{Text}
use open_world_model.World.{
  World, Round, complete, Result, ok, err, call, pure, bind_from, ◌>>◌, Participant, bind-holds,
}
use open_world_model.Fl.Defs.{
  RoundSummary, has_number, is_open_round, claim_round, start_aggregating, select_round,
  complete_round, complete_row,
}
use open_world_model.Fl.Rounds.{
  min_participants, Stages, is_summary, or_fail, count_participants, averaged, fetch_gradients,
  aggregate, claimed, counted, try_aggregate,
}

-- The round, if it has a row, is complete with the checkpoint.
abbrev pub IsCompleted : ℕ → Text → List Round → Type 0
IsCompleted n hash rs =
    (find_where (has_number n) rs ≡ none)
    ⊎ ((r : Round) × (find_where (has_number n) rs ≡ some r)
        × (r.status ≡ complete)
        × (r.checkpoint_hash ≡ some hash))

-- A summary counts at least three accepted gradients, and its round is complete with its hash.
abbrev pub IsAggregated : ℕ → Result (Option RoundSummary) × World → Type 0
IsAggregated n (ok (some s), w) =
    (min_participants ≤ s.participant_count)
    × (s.round_number ≡ n)
    × IsCompleted n s.aggregated_hash w.rounds
IsAggregated n (ok none, w) = Unit
IsAggregated n (err e, w) = Unit

abbrev IsAveraged : ℕ → Result RoundSummary × World → Type 0
IsAveraged n (ok s, w) = IsAggregated n (ok (some s), w)
IsAveraged n (err e, w) = Unit

complete-IsCompleted :
    (n : ℕ) (hash : Text) (time : ℕ) (rs : List Round)
    → IsCompleted n hash (update_first (has_number n) (complete_row hash time) rs)
complete-IsCompleted n hash time rs = elim (Option-cases (find_where (has_number n) rs)) [
  | inl e ↦ inl (rw (update_first-none (has_number n) (complete_row hash time) rs e) e)
  | inr (r, e) ↦ inr (
    complete_row hash time r,
    find_where-update_first (has_number n) (complete_row hash time) (λ x k. k) rs e,
    refl,
    refl,
  )
]

completed-IsAveraged :
    (n : ℕ) (hash : Text) (accepted : List Participant) (w : World)
    → ltb (length accepted) min_participants ≡ false
    → IsAveraged n (
        (complete_round n hash
            >> pure (record {
              round_number = n;
              participant_count = length accepted;
              aggregated_hash = hash;
            }))
          w)
unfolding complete_round
completed-IsAveraged n hash accepted w h = elim (Bool-cases (w.env.fails w.tick)) [
  | inl e ↦ rw e tt
  | inr e ↦
      rw e (ground arith, refl, complete-IsCompleted n hash (w.env.clock (suc w.tick)) w.rounds)
]

averaged-IsAveraged :
    (st : Stages) (n : ℕ) (accepted : List Participant) (w : World)
    → IsAveraged n (averaged st n accepted w)
unfolding averaged
averaged-IsAveraged st n accepted w = elim (Bool-cases (ltb (length accepted) min_participants)) [
  | inl few ↦ rw few tt
  | inr h ↦ rw h (
      bind-holds (IsAveraged n) (or_fail n (st.fed_avg n accepted) w)
        (λ hash w' h'. completed-IsAveraged n hash accepted w' h) (λ e w' h'. tt))
]

aggregate-IsAveraged : (st : Stages) (id n : ℕ) (w : World) → IsAveraged n (aggregate st id n w)
unfolding aggregate
aggregate-IsAveraged st id n w =
    bind-holds (IsAveraged n) (or_fail n (call (fetch_gradients id)) w)
      (λ records w1 h1.
        bind-holds (IsAveraged n) (or_fail n (st.anomaly_filter id records) w1)
          (λ accepted w2 h2. averaged-IsAveraged st n accepted w2) (λ e w h. tt))
      (λ e w h. tt)

claimed-IsAggregated : (st : Stages) (id n k : ℕ) (w : World) → IsAggregated n (claimed st id n k w)
unfolding claimed
claimed-IsAggregated st id n k w = elim (Bool-cases (k == 0)) [
  | inl e ↦ rw e tt
  | inr e ↦ rw e (some_summary (aggregate st id n w) (aggregate-IsAveraged st id n w))
]
  where
    some_summary :
        (p : Result RoundSummary × World)
        → IsAveraged n p
        → IsAggregated n (bind_from (λ s. pure (some s)) p)
    some_summary (ok s, w) h = h
    some_summary (err e, w) h = tt

-- A summary of a round, whatever the two storage stages do, counts at least three accepted
-- gradients, and leaves the row of the round, if there is one, complete, with the summary's hash as
-- its checkpoint.
pub try_aggregate-IsAggregated :
    (st : Stages) (n : ℕ) (w : World) → IsAggregated n (try_aggregate st n w)
unfolding try_aggregate counted
try_aggregate-IsAggregated st n w =
    bind-holds (IsAggregated n) (call (select_round n) w)
      (λ r w1 h1.
        bind-holds (IsAggregated n) (call (count_participants r.round_id) w1)
          (λ count w2 h2. elim (Bool-cases (ltb count min_participants)) [
            | inl e ↦ rw e tt
            | inr e ↦ rw e (
                bind-holds (IsAggregated n) (call (claim_round n) w2)
                  (λ k w3 h3. claimed-IsAggregated st r.round_id n k w3) (λ e w h. tt))
          ])
          (λ e w h. tt))
      (λ e w h. tt)

-- No gradient is read and no row of the rounds is changed.
abbrev pub IsIdle : World → Result (Option RoundSummary) × World → Type 0
IsIdle w (r, w') = (w'.rounds ≡ w.rounds) × (is_summary r ≡ false)

select_round-rounds : (n : ℕ) (w : World) → (call (select_round n) w).1.rounds ≡ w.rounds
select_round-rounds n w = ground arith

count_participants-rounds :
    (id : ℕ) (w : World) → (call (count_participants id) w).1.rounds ≡ w.rounds
count_participants-rounds id w = ground arith

claim_round-rounds :
    (n : ℕ) (w : World)
    → count_where (is_open_round n) w.rounds ≡ 0
    → (call (claim_round n) w).1.rounds ≡ w.rounds
unfolding claim_round
claim_round-rounds n w h = elim (Bool-cases (w.env.fails w.tick)) [
  | inl e ↦ rw e refl
  | inr e ↦ rw e (update_first_unmatched (is_open_round n) start_aggregating w.rounds h)
]

claim_round_none :
    (n k : ℕ) (w w' : World)
    → count_where (is_open_round n) w.rounds ≡ 0
    → call (claim_round n) w ≡ (ok k, w')
    → k ≡ 0
unfolding claim_round
claim_round_none n k w w' h e = ground arith

-- A round that is not open is not aggregated again: no row of the rounds changes, and there is no
-- summary.
pub try_aggregate-IsIdle :
    (st : Stages) (n : ℕ) (w : World)
    → count_where (is_open_round n) w.rounds ≡ 0
    → IsIdle w (try_aggregate st n w)
unfolding try_aggregate counted claimed
try_aggregate-IsIdle st n w h =
    bind-holds (IsIdle w) (call (select_round n) w)
      (λ r w1 h1.
        let same1 : w1.rounds ≡ w.rounds =
          sym (ap (λ p. p.1.rounds) h1) ∙ select_round-rounds n w in
        bind-holds (IsIdle w) (call (count_participants r.round_id) w1)
          (λ count w2 h2.
            let same2 : w2.rounds ≡ w.rounds =
              sym (ap (λ p. p.1.rounds) h2) ∙ count_participants-rounds r.round_id w1 ∙ same1 in
            elim (Bool-cases (ltb count min_participants)) [
              | inl e ↦ rw e (same2, refl)
              | inr e ↦ rw e (
                  bind-holds (IsIdle w) (call (claim_round n) w2)
                    (λ k w3 h3. rw (claim_round_none n k w2 w3 (rw same2 h) h3) (
                      sym (ap (λ p. p.1.rounds) h3) ∙ claim_round-rounds n w2 (rw same2 h) ∙ same2,
                      refl,
                    ))
                    (λ e w3 h3. (
                      sym (ap (λ p. p.1.rounds) h3) ∙ claim_round-rounds n w2 (rw same2 h) ∙ same2,
                      refl,
                    )))
            ])
          (λ e w2 h2. (
            sym (ap (λ p. p.1.rounds) h2) ∙ count_participants-rounds r.round_id w1 ∙ same1,
            refl,
          )))
      (λ e w1 h1. (sym (ap (λ p. p.1.rounds) h1) ∙ select_round-rounds n w, refl))
