-- ===== src/Fl/Defs.antt =====
-- The statements on the tables of rounds and participants.
use open_world_model.Base.{
  ℕ, Bool, true, false, ◌&&◌, Option, none, some, List, [], ◌∷◌, ◌++◌, ◌==◌, if◌then◌else◌,
  find_where, count_where, update_first,
}
use open_world_model.Base.Text.{Text}
use open_world_model.World.{
  World, Round, RoundStatus, round_open, aggregating, complete, round_failed, Participant,
  fl_rounds_total, M, Result, ok, err, no_rows, constraint, modify, call, count_metric, ◌>>◌,
}

-- GradientSubmission, less the data, which is not stored
pub record GradientSubmission : Type 0 where
  pub node_id : ℕ
  pub round_number : ℕ
  pub gradient_hash : Text
  pub s3_url : Text

pub record RoundSummary : Type 0 where
  pub round_number : ℕ
  pub participant_count : ℕ
  pub aggregated_hash : Text

abbrev pub round_status_eq : RoundStatus → RoundStatus → Bool
round_status_eq round_open round_open = true
round_status_eq aggregating aggregating = true
round_status_eq complete complete = true
round_status_eq round_failed round_failed = true
round_status_eq _ _ = false

abbrev pub has_number : ℕ → Round → Bool
has_number n r = r.round_number == n

abbrev pub is_open_round : ℕ → Round → Bool
is_open_round n r = r.round_number == n && round_status_eq r.status round_open

abbrev pub is_in_round : ℕ → Participant → Bool
is_in_round id p = p.round_id == id

-- The primary key of `fl_participants`.
abbrev pub is_participant : ℕ → ℕ → Participant → Bool
is_participant round node p = p.round_id == round && p.node_id == node

round_row : ℕ → Text → ℕ → Round
round_row n model time = record {
  round_id = n;
  round_number = n;
  status = round_open;
  model_version = model;
  checkpoint_hash = none;
  ots_proof_path = none;
  started_at = time;
  completed_at = none;
}

insert_round : Option Round → Round → M ℕ
insert_round (some other) row w = (err constraint, w)
insert_round none row w = (ok row.round_number, record w { rounds = w.rounds ++ row ∷ [] })

-- `OpenRound`. The number comes from the sequence of the column's default.
unfoldable pub open_round : Text → M ℕ
unfolding round_row insert_round
open_round model = call (λ w.
    insert_round (find_where (has_number (w.env.uuid w.tick)) w.rounds)
      (round_row (w.env.uuid w.tick) model (w.env.clock w.tick)) w)

abbrev pub or_no_rows : {A : Type 0} → Option A → World → Result A × World
or_no_rows o w = (elim o [ none ↦ err no_rows | some a ↦ ok a ], w)

abbrev pub select_round : ℕ → M Round
select_round n w = or_no_rows (find_where (has_number n) w.rounds) w

abbrev pub participant_row : ℕ → GradientSubmission → Participant
participant_row round sub = record {
  round_id = round;
  node_id = sub.node_id;
  gradient_hash = sub.gradient_hash;
  s3_url = sub.s3_url;
  anomaly_flagged = false;
}

-- `ON CONFLICT (round_id, node_id) DO UPDATE`: the flag stays.
abbrev pub resubmit : GradientSubmission → Participant → Participant
resubmit sub p = record p { gradient_hash = sub.gradient_hash; s3_url = sub.s3_url }

unfoldable pub upsert_participant : ℕ → GradientSubmission → List Participant → List Participant
upsert_participant round sub [] = participant_row round sub ∷ []
upsert_participant round sub (p ∷ ps) =
    if is_participant round sub.node_id p
    then resubmit sub p ∷ ps
    else p ∷ upsert_participant round sub ps

abbrev pub has_node : ℕ → World → Bool
has_node id w = elim (find_where (λ n. n.node_id == id) w.nodes) [ none ↦ false | some n ↦ true ]

-- A node that is not registered breaks the foreign key.
unfoldable pub insert_participant : ℕ → GradientSubmission → M Unit
unfolding upsert_participant
insert_participant round sub w =
    if has_node sub.node_id w
    then (ok tt, record w { participants = upsert_participant round sub w.participants })
    else (err constraint, w)

-- `UPDATE … SET status = 'aggregating' WHERE … AND status = 'open'`, and the rows affected.
abbrev pub start_aggregating : Round → Round
start_aggregating r = record r { status = aggregating }

unfoldable pub claim_round : ℕ → M ℕ
claim_round n w = (
  ok (count_where (is_open_round n) w.rounds),
  record w { rounds = update_first (is_open_round n) start_aggregating w.rounds },
)

abbrev pub complete_row : Text → ℕ → Round → Round
complete_row hash time r = record r {
  status = complete;
  checkpoint_hash = some hash;
  completed_at = some time;
}

abbrev pub fail_row : Round → Round
fail_row r = record r { status = round_failed }

unfoldable pub complete_round : ℕ → Text → M Unit
complete_round n hash = do
  call (
      modify (λ w. record w {
        rounds = update_first (has_number n) (complete_row hash (w.env.clock w.tick)) w.rounds;
      }))
  count_metric (fl_rounds_total complete)

unfoldable pub fail_round : ℕ → M Unit
fail_round n = do
  call (modify (λ w. record w { rounds = update_first (has_number n) fail_row w.rounds }))
  count_metric (fl_rounds_total round_failed)
