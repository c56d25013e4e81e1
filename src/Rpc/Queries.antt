-- ===== src/Rpc/Queries.antt =====
-- `GetCurrentModel`, `ListModelVersions` and `GetStakeStatus`. A query that names a column which its
-- tables do not have fails, as PostgreSQL has it; the columns are those of the migrations.
use open_world_model.Base.{
  ℕ, zero, suc, Bool, true, false, ◌&&◌, ◌||◌, Option, none, some, List, [], ◌∷◌, ◌==◌,
  if◌then◌else◌, length, find_where,
}
use open_world_model.Base.Int.{ℤ, pos, negsuc, ltb_ℤ, leb_ℤ, pos_part}
use open_world_model.Base.Text.{Text, codes, text_eq}
use open_world_model.World.{
  Stake, M, Result, ok, err, call_failed, not_found, internal, pure, or_raise, attempt, call, ◌>>=◌,
}
use open_world_model.Rpc.Handlers.{or_status, parse_id}

-- A row of `model_versions` as the queries read it; times in seconds.
pub record ModelVersion : Type 0 where
  pub version_id : Text
  pub round_number : ℤ
  pub created_at : ℤ
  pub btc_block : ℤ
  pub ots_verified : Bool
  pub coordinator_sig : Text

-- The columns of `model_versions`, of `node_stakes` and of `nodes`.
abbrev pub model_versions_columns : List Text
model_versions_columns =
    codes "version_id"
    ∷ codes "round_number"
    ∷ codes "created_at"
    ∷ codes "sub_model_hashes"
    ∷ codes "ots_proof_paths"
    ∷ codes "btc_block"
    ∷ codes "coordinator_sig"
    ∷ codes "is_current"
    ∷ []

abbrev pub node_stakes_columns : List Text
node_stakes_columns =
    codes "node_id"
    ∷ codes "channel_id"
    ∷ codes "channel_capacity"
    ∷ codes "local_balance"
    ∷ codes "tier_minimum"
    ∷ codes "bonus_multiplier"
    ∷ codes "stake_status"
    ∷ codes "opened_at"
    ∷ codes "last_verified_at"
    ∷ codes "degraded_since"
    ∷ []

abbrev has_column : Text → List Text → Bool
has_column c [] = false
has_column c (d ∷ ds) = text_eq c d || has_column c ds

-- Whether a table has all of the columns.
unfoldable pub has_columns : List Text → List Text → Bool
has_columns [] table = true
has_columns (c ∷ cs) table = has_column c table && has_columns cs table

-- The columns that the queries name.
abbrev pub model_query : List Text
model_query =
    codes "version_id"
    ∷ codes "round_number"
    ∷ codes "created_at"
    ∷ codes "btc_block"
    ∷ codes "ots_verified"
    ∷ codes "coordinator_sig"
    ∷ []

abbrev pub stake_query : List Text
stake_query =
    codes "channel_id"
    ∷ codes "capacity_sats"
    ∷ codes "local_balance_sats"
    ∷ codes "bonus_multiplier"
    ∷ codes "status"
    ∷ codes "last_verified_at"
    ∷ codes "node_id"
    ∷ []

-- A query of a table with these columns.
unfoldable pub query : {A : Type 0} → List Text → List Text → M A → M A
unfolding has_columns
query cs table m = call (λ w. if has_columns cs table then m w else (err call_failed, w))

-- ORDER BY round_number DESC; rows that tie keep the table's order.
unfoldable pub insert_version : ModelVersion → List ModelVersion → List ModelVersion
insert_version v [] = v ∷ []
insert_version v (u ∷ us) =
    if leb_ℤ u.round_number v.round_number then v ∷ u ∷ us else u ∷ insert_version v us

unfoldable pub by_round : List ModelVersion → List ModelVersion
unfolding insert_version
by_round [] = []
by_round (v ∷ vs) = insert_version v (by_round vs)

abbrev pub take : {A : Type 0} → ℕ → List A → List A
take zero xs = []
take (suc n) [] = []
take (suc n) (x ∷ xs) = x ∷ take n xs

abbrev pub drop : {A : Type 0} → ℕ → List A → List A
drop zero xs = xs
drop (suc n) [] = []
drop (suc n) (x ∷ xs) = drop n xs

abbrev first : List ModelVersion → Option ModelVersion
first [] = none
first (v ∷ vs) = some v

-- `table` is the columns of `model_versions`, and `rows` its rows.
unfoldable pub get_current_model : List Text → List ModelVersion → M ModelVersion
unfolding query by_round
get_current_model table rows = do
  read ← attempt (query model_query table (or_raise (first (by_round rows)) call_failed))
  or_status not_found read

-- ListModelsResponse
pub record ModelPage : Type 0 where
  pub versions : List ModelVersion
  pub total : ℕ

-- A limit that is not from 1 to 100 is replaced by 20.
unfoldable pub page_limit : ℤ → ℕ
page_limit limit = if leb_ℤ limit (pos 0) || ltb_ℤ (pos 100) limit then 20 else pos_part limit

-- A negative OFFSET is an error of PostgreSQL.
abbrev page : ℕ → ℤ → List ModelVersion → M (List ModelVersion)
page limit (negsuc n) rows w = (err call_failed, w)
page limit (pos n) rows w = (ok (take limit (drop n (by_round rows))), w)

-- A count that fails leaves 0.
abbrev count_or_zero : Result ℕ → ℕ
count_or_zero (ok n) = n
count_or_zero (err e) = 0

unfoldable pub list_model_versions : List Text → List ModelVersion → ℤ → ℤ → M ModelPage
unfolding query page_limit by_round
list_model_versions table rows limit offset = do
  read ← attempt (query model_query table (page (page_limit limit) offset rows))
  versions ← or_status internal read
  total ← attempt (call (pure (length rows)))
  pure (record { versions = versions; total = count_or_zero total })

-- The query joins the node's row, which the foreign key gives.
unfoldable pub get_stake_status : List Text → Text → M Stake
unfolding query
get_stake_status table id = do
  node ← parse_id id
  read ← attempt (
      query stake_query table
        (λ w. or_raise (find_where (λ s. s.node_id == node) w.stakes) call_failed w))
  or_status not_found read
