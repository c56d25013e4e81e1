-- ===== src/Fl/Checkpoint.antt =====
-- `fedAvg` with an object store, the settings of `NewWithConfig`, and the stages of a round that
-- they make.
use open_world_model.Base.{
  ℕ, ◌*◌, Option, none, some, List, [], ◌∷◌, ◌++◌, ◌==◌, find_where, if◌then◌else◌,
}
use open_world_model.Base.Int.{pos}
use open_world_model.Base.Text.{Text, codes, decimal, encode_hex}
use open_world_model.World.{
  Tier, t1, t2, t3, other_tier, Node, Stake, Participant, M, ok, call_failed, decode_failed,
  encode_failed, pure, or_raise, modify, call, next, ◌>>=◌, ◌>>◌,
}
use open_world_model.Float64.{Float64}
use open_world_model.Fl.Rounds.{Stages}
use open_world_model.Fl.Statistics.{Gradient}
use open_world_model.Fl.Anomaly.{ObjectStore, anomaly_filter}
use open_world_model.Fl.Averaging.{
  Float32, Raw, GradMap, gradient_of, to_grad_map, clip_l2, weighted_average,
}

-- The object store at a call, msgpack and SHA-256; `none` is an error.
pub record Storage (fp : Float64) (sp : Float32 fp) : Type 0 where
  pub get_object : ℕ → Text → Option Text
  pub unmarshal : Text → Option (Raw sp)
  pub marshal : GradMap sp → Option Text
  pub sha256 : Text → Text

-- "models/owm-v<n>.bin"
abbrev pub model_key : ℕ → Text
model_key n = codes "models/owm-v" ++ decimal (pos n) ++ codes ".bin"

-- `PutObject`
abbrev pub put_object : Text → Text → M Unit
put_object key bytes = call (modify (λ w. record w { uploads = (key, bytes) ∷ w.uploads }))

-- The tier's factor in the query of the weights, in tenths.
abbrev pub tier_factor : Tier → ℕ
tier_factor t2 = 25
tier_factor t3 = 80
tier_factor t1 = 10
tier_factor (other_tier s) = 10

-- COALESCE(bonus_multiplier, 1.0), in thousandths
abbrev pub bonus_or_one : Option Stake → ℕ
bonus_or_one none = 1000
bonus_or_one (some s) = s.bonus_multiplier

module _ (fp : Float64) where
  -- A query that fails or finds no row leaves 1.0.
  abbrev pub weight_of : Option Node → Option Stake → fp.F
  weight_of none s = fp.ratio 1 1
  weight_of (some n) s = fp.of_numeric 4 (bonus_or_one s * tier_factor n.tier)

  unfoldable pub select_weight : ℕ → M fp.F
  select_weight id w = (
    ok (
        if w.env.fails w.tick
        then fp.ratio 1 1
        else weight_of (find_where (λ n. n.node_id == id) w.nodes)
            (find_where (λ s. s.node_id == id) w.stakes)),
    next w,
  )

  unfoldable pub sum_weights : {A : Type 0} → fp.F → List (A × fp.F) → fp.F
  sum_weights total [] = total
  sum_weights total ((g, w) ∷ gs) = sum_weights (fp.add total w) gs

  -- A total that is not above 0 is replaced by 1.
  unfoldable pub total_weight : {A : Type 0} → List (A × fp.F) → fp.F
  unfolding sum_weights
  total_weight gs =
      let total = sum_weights (fp.ratio 0 1) gs in
      if fp.le total (fp.ratio 0 1) then fp.ratio 1 1 else total

module _ {fp : Float64} {sp : Float32 fp} (st : Storage fp sp) where
  unfoldable pub fetch : Text → M Text
  fetch key = call (λ w. or_raise (st.get_object w.tick key) call_failed w)

  abbrev pub clipped : fp.F → Option (Raw sp) → Option (GradMap sp)
  clipped clip none = none
  clipped clip (some raw) = some (clip_l2 sp clip (to_grad_map sp raw))

  -- The loop of `fedAvg`: every gradient, clipped, with its weight.
  unfoldable pub gather : fp.F → List Participant → M (List (GradMap sp × fp.F))
  unfolding fetch select_weight
  gather clip [] = pure []
  gather clip (r ∷ rs) = do
    blob ← fetch r.s3_url
    g ← or_raise (clipped clip (st.unmarshal blob)) decode_failed
    w ← select_weight fp r.node_id
    rest ← gather clip rs
    pure ((g, w) ∷ rest)

  abbrev pub clip_or_one : fp.F → fp.F
  clip_or_one c = if fp.le c (fp.ratio 0 1) then fp.ratio 1 1 else c

  unfoldable pub fed_avg : fp.F → ℕ → List Participant → M Text
  unfolding gather total_weight
  fed_avg clip n records = do
    gs ← gather (clip_or_one clip) records
    bytes ← or_raise (st.marshal (weighted_average sp (total_weight fp gs) gs)) encode_failed
    put_object (model_key n) bytes
    pure (encode_hex (st.sha256 bytes))

  abbrev read_gradient : Option (Raw sp) → Option (Gradient fp)
  read_gradient none = none
  read_gradient (some raw) = some (gradient_of sp raw)

  abbrev pub object_store : ObjectStore fp
  object_store = record {
    get_object = st.get_object;
    unmarshal = λ blob. read_gradient (st.unmarshal blob);
  }

  -- The stages of an orchestrator with storage, by its two settings.
  abbrev pub with_storage : fp.F → fp.F → Stages
  with_storage threshold clip = record {
    anomaly_filter = anomaly_filter fp object_store threshold;
    fed_avg = fed_avg clip;
  }

-- GradientL2ClipNorm and AnomalyStdDevThreshold of an `OrchestratorConfig`
pub record OrchestratorConfig (fp : Float64) : Type 0 where
  pub gradient_l2_clip_norm : fp.F
  pub anomaly_std_dev_threshold : fp.F
  pub ots_calendars : List Text

abbrev pub default_ots_calendars : List Text
default_ots_calendars =
    codes "https://a.pool.opentimestamps.org/digest"
    ∷ codes "https://b.pool.opentimestamps.org/digest"
    ∷ codes "https://c.pool.opentimestamps.org/digest"
    ∷ []

module _ (fp : Float64) where
  abbrev or_default : fp.F → fp.F → fp.F
  or_default c d = if fp.lt (fp.ratio 0 1) c then c else d

  abbrev calendars_or_default : List Text → List Text
  calendars_or_default [] = default_ots_calendars
  calendars_or_default (c ∷ cs) = c ∷ cs

  -- The settings of `NewWithConfig`: a value that is not positive is replaced by its default.
  unfoldable pub new_with_config : Option (OrchestratorConfig fp) → OrchestratorConfig fp
  new_with_config none = record {
    gradient_l2_clip_norm = fp.ratio 1 1;
    anomaly_std_dev_threshold = fp.ratio 3 1;
    ots_calendars = default_ots_calendars;
  }
  new_with_config (some c) = record {
    gradient_l2_clip_norm = or_default c.gradient_l2_clip_norm (fp.ratio 1 1);
    anomaly_std_dev_threshold = or_default c.anomaly_std_dev_threshold (fp.ratio 3 1);
    ots_calendars = calendars_or_default c.ots_calendars;
  }
