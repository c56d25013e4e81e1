-- ===== src/Examples/Training.antt =====
-- A round with an object store that holds one gradient, and its stamp.
use open_world_model.Base.{ℕ, true, Option, none, some, List, [], ◌∷◌, ◌+◌, ◌*◌, ◌/◌}
use open_world_model.Base.Text.{Text, codes, encode_hex}
use open_world_model.Fl.{try_aggregate}
use open_world_model.Fl.Averaging.{Float32, GradMap, array, float64, entry, weighted_average}
use open_world_model.Fl.Coordinates.{IsAverageOf, first_entry, weighted_average-IsAverageOf}
use open_world_model.Fl.Checkpoint.{Storage, with_storage}
use open_world_model.Fl.Publishing.{IsPublished, try_aggregate-IsPublished}
use open_world_model.Fl.Stamping.{Response, first_proof, answers, stamp_ots}
use open_world_model.Fl.Anchoring.{IsStamped, stamp_ots-IsStamped}
use open_world_model.Examples.Fixtures.{milli, world, zeros, toy-sizes}

abbrev single : Float32 milli
single = record {
  S = ℕ;
  narrow = λ x. x;
  widen = λ x. x;
  zero32 = 0;
  add32 = λ x y. x + y;
  mul32 = λ x y. x * y / 1000;
}

abbrev layer : Text
layer = codes "layer"

abbrev grads : List (GradMap single × ℕ)
grads = ((layer, 100 ∷ 200 ∷ []) ∷ [], 1000) ∷ ((layer, 300 ∷ []) ∷ [], 2500) ∷ []

weighted_average-IsAverageOf_example :
    IsAverageOf single 3500 layer grads
      (first_entry single 3500 layer grads)
      (entry single layer (weighted_average single 3500 grads))
weighted_average-IsAverageOf_example = weighted_average-IsAverageOf single 3500 layer grads

-- Every key holds one gradient, and every map is one text.
abbrev storage : Storage milli single
storage = record {
  get_object = λ n key. some (codes "blob");
  unmarshal = λ blob. some ((layer, array (float64 100 ∷ float64 200 ∷ [])) ∷ []);
  marshal = λ m. some (codes "average");
  sha256 = λ s. zeros 32;
}

try_aggregate-IsPublished_example :
    IsPublished storage 4 world (try_aggregate (with_storage storage 3000 1000) 4 world)
try_aggregate-IsPublished_example = try_aggregate-IsPublished storage 3000 1000 4 world

abbrev calendars : Text → List (Option Response)
calendars digest = none ∷ some (record { status_code = 200; body = codes "proof" }) ∷ []

stamp_ots-IsStamped_example :
    IsStamped true 4
      (first_proof (answers (calendars (zeros 32))))
      world
      (stamp_ots true calendars (encode_hex (zeros 32)) 4 world).1
stamp_ots-IsStamped_example =
    stamp_ots-IsStamped true calendars (zeros 32) 4 world (toy-sizes 32).0 (toy-sizes 32).1
