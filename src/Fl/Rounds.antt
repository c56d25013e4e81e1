-- ===== src/Fl/Rounds.antt =====
-- `SubmitGradient`, `TryAggregate`, `CloseExpired` and `GetRoundStatus`.
use open_world_model.Base.{
  ℕ, ◌+◌, ◌*◌, Bool, true, false, not, ◌&&◌, Option, none, some, List, [], ◌∷◌, ◌++◌, ◌==◌,
  if◌then◌else◌, ltb, length, count_where, select_where,
}
use open_world_model.Base.Int.{pos}
use open_world_model.Base.Text.{Text, codes, decimal}
use open_world_model.World.{
  Round, RoundStatus, round_open, Participant, M, Result, ok, err, round_not_open, too_few_accepted,
  pure, raise, raise_if, attempt, branch, call, ◌>>=◌, ◌>>◌,
}
use open_world_model.Fl.Defs.{
  GradientSubmission, RoundSummary, round_status_eq, is_in_round, select_round, insert_participant,
  claim_round, complete_round, fail_round,
}

-- `minParticipants` and `roundDurationSecs` of `NewWithConfig`.
abbrev pub min_participants : ℕ
min_participants = 3

abbrev pub round_duration_secs : ℕ
round_duration_secs = 3600

unfoldable pub submit_gradient : GradientSubmission → M Unit
submit_gradient sub = do
  r ← call (select_round sub.round_number)
  raise_if (not (round_status_eq r.status round_open)) round_not_open
  call (insert_participant r.round_id sub)

unfoldable pub get_round_status : ℕ → M RoundStatus
get_round_status n = do r ← call (select_round n); pure r.status

-- The two stages that read gradients from the object store.
pub record Stages : Type 0 where
  pub anomaly_filter : ℕ → List Participant → M (List Participant)
  pub fed_avg : ℕ → List Participant → M Text

-- With no storage both stages return at once.
abbrev pub placeholder : ℕ → Text
placeholder n = codes "fedavg-placeholder-round-" ++ decimal (pos n)

abbrev pub no_storage : Stages
no_storage = record {
  anomaly_filter = λ id records. pure records;
  fed_avg = λ n records. pure (placeholder n);
}

-- `failRound`'s error is dropped, and the stage's is returned.
abbrev pub or_fail : {A : Type 0} → ℕ → M A → M A
or_fail n m w = elim (m w).0 [
  | ok a ↦ m w
  | err e ↦ (attempt (fail_round n) >>= λ _. raise e) (m w).1
]

abbrev pub count_participants : ℕ → M ℕ
count_participants id w = (ok (count_where (is_in_round id) w.participants), w)

abbrev pub fetch_gradients : ℕ → M (List Participant)
fetch_gradients id w = (ok (select_where (is_in_round id) w.participants), w)

-- What follows the anomaly filter.
unfoldable pub averaged : Stages → ℕ → List Participant → M RoundSummary
averaged st n accepted = do
  or_fail n (raise_if (ltb (length accepted) min_participants) too_few_accepted)
  hash ← or_fail n (st.fed_avg n accepted)
  complete_round n hash
  pure (record { round_number = n; participant_count = length accepted; aggregated_hash = hash })

-- What follows the claim of the round.
unfoldable pub aggregate : Stages → ℕ → ℕ → M RoundSummary
unfolding averaged
aggregate st id n = do
  records ← or_fail n (call (fetch_gradients id))
  accepted ← or_fail n (st.anomaly_filter id records)
  averaged st n accepted

-- The result's `none` is Go's `nil, nil`: too few submissions, or a round that is not open.
unfoldable pub claimed : Stages → ℕ → ℕ → ℕ → M (Option RoundSummary)
unfolding aggregate
claimed st id n affected =
    branch (affected == 0) (pure none) (do s ← aggregate st id n; pure (some s))

unfoldable pub counted : Stages → ℕ → ℕ → ℕ → M (Option RoundSummary)
unfolding claimed
counted st id n count =
    branch (ltb count min_participants) (pure none)
      (do affected ← call (claim_round n); claimed st id n affected)

unfoldable pub try_aggregate : Stages → ℕ → M (Option RoundSummary)
unfolding counted
try_aggregate st n = do
  r ← call (select_round n)
  count ← call (count_participants r.round_id)
  counted st r.round_id n count

-- The rounds that the query of `CloseExpired` returns.
abbrev pub is_expired : ℕ → Round → Bool
is_expired time r =
    round_status_eq r.status round_open
    && ltb (r.started_at + round_duration_secs * 1000000000) time

-- A round is failed unless it was aggregated; the count is of the rounds failed.
abbrev pub is_summary : Result (Option RoundSummary) → Bool
is_summary (ok (some s)) = true
is_summary _ = false

unfoldable pub close_each : Stages → ℕ → List Round → M ℕ
unfolding try_aggregate
close_each st closed [] = pure closed
close_each st closed (r ∷ rs) = do
  summary ← attempt (try_aggregate st r.round_number)
  branch (is_summary summary) (pure tt) (do done ← attempt (fail_round r.round_number); pure tt)
  close_each st (if is_summary summary then closed else closed + 1) rs

unfoldable pub close_expired : Stages → M ℕ
unfolding close_each
close_expired st = do
  rs ← call (λ w. (ok (select_where (is_expired (w.env.clock w.tick)) w.rounds), w))
  close_each st 0 rs
