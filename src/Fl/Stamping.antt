-- ===== src/Fl/Stamping.antt =====
-- `stampOTS` and `submitToOTSCalendar`.
use open_world_model.Base.{
  ℕ, zero, suc, Bool, Option, none, some, List, [], ◌∷◌, ◌++◌, ◌==◌, length, update_first,
  if◌then◌else◌,
}
use open_world_model.Base.Int.{pos}
use open_world_model.Base.Text.{Text, codes, decimal, decode_hex}
use open_world_model.World.{Round, M, pure, attempt, modify, branch, call, ◌>>=◌, ◌>>◌}
use open_world_model.Fl.Defs.{has_number}
use open_world_model.Fl.Checkpoint.{put_object}

-- A response of a calendar server.
pub record Response : Type 0 where
  pub status_code : ℕ
  pub body : Text

abbrev pub take : ℕ → Text → Text
take zero s = []
take (suc n) [] = []
take (suc n) (b ∷ s) = b ∷ take n s

-- 64 KB
abbrev pub max_proof_bytes : ℕ
max_proof_bytes = 65536

abbrev nonempty : Text → Option Text
nonempty [] = none
nonempty (b ∷ s) = some (b ∷ s)

-- What a request gave: `none` is an error of the exchange, and of the result.
unfoldable pub submit_to_ots_calendar : Option Response → Option Text
submit_to_ots_calendar none = none
submit_to_ots_calendar (some r) =
    if r.status_code == 200 then nonempty (take max_proof_bytes r.body) else none

-- The loop over the results in the order in which they arrive: the first proof.
unfoldable pub first_proof : List (Option Text) → Option Text
first_proof [] = none
first_proof (none ∷ rs) = first_proof rs
first_proof (some p ∷ rs) = some p

unfoldable pub answers : List (Option Response) → List (Option Text)
unfolding submit_to_ots_calendar
answers [] = []
answers (r ∷ rs) = submit_to_ots_calendar r ∷ answers rs

-- "ots/round-<n>.ots"
abbrev pub proof_key : ℕ → Text
proof_key n = codes "ots/round-" ++ decimal (pos n) ++ codes ".ots"

abbrev pub set_proof_path : Text → Round → Round
set_proof_path path r = record r { ots_proof_path = some path }

abbrev pub write_path : ℕ → M Unit
write_path n = call (
    modify (λ w. record w {
      rounds = update_first (has_number n) (set_proof_path (proof_key n)) w.rounds;
    }))

-- What follows the loop. A failed upload is logged, and the key is recorded all the same.
unfoldable pub store_proof : Bool → ℕ → Option Text → M Unit
store_proof has_storage n none = pure tt
store_proof has_storage n (some proof) = do
  branch has_storage (do done ← attempt (put_object (proof_key n) proof); pure tt) (pure tt)
  done ← attempt (write_path n)
  pure tt

-- The digest that a hash stands for, if it is one.
unfoldable pub digest_of : Option Text → Option Text
digest_of none = none
digest_of (some bytes) = if length bytes == 32 then some bytes else none

unfoldable pub stamp_digest : Bool → (Text → List (Option Response)) → ℕ → Option Text → M Unit
unfolding store_proof answers
stamp_digest has_storage ask n none = pure tt
stamp_digest has_storage ask n (some digest) =
    store_proof has_storage n (first_proof (answers (ask digest)))

-- `ask` gives the responses of the calendars to a digest, in the order in which they arrive.
unfoldable pub stamp_ots : Bool → (Text → List (Option Response)) → Text → ℕ → M Unit
unfolding digest_of stamp_digest first_proof
stamp_ots has_storage ask hash n = stamp_digest has_storage ask n (digest_of (decode_hex hash))
