-- ===== src/Fl/Anchoring.antt =====
-- What a stamp writes, and which rounds are never stamped.
use open_world_model.Base.{
  ℕ, suc, ◌<◌, ◌≡◌, ◌==◌, ◌++◌, ◌&&◌, not, refl, Bool, true, false, inl, inr, Option, none, some,
  List, ◌∷◌, All, Bool-cases, length, update_first, if◌then◌else◌, ==_iff,
}
use open_world_model.Base.Int.{pos}
use open_world_model.Base.Text.{Text, codes, decimal, encode_hex, decode_hex, decode_hex-encode_hex}
use open_world_model.World.{World, ok}
use open_world_model.Fl.Rounds.{placeholder}
use open_world_model.Fl.Stamping.{
  Response, first_proof, answers, store_proof, digest_of, stamp_digest, stamp_ots,
}

-- What the proof that arrives first leads to: with none the state is as it was. With one, the proof is
-- put unless there is no store or the upload fails, and the path is written unless the UPDATE itself
-- fails; this is the call after the upload, or the first with no store.
abbrev pub IsStamped : Bool → ℕ → Option Text → World → World → Type 0
IsStamped has_storage n none w v = v ≡ w
IsStamped has_storage n (some proof) w v =
    let key = codes "ots/round-" ++ decimal (pos n) ++ codes ".ots" in
    (v.uploads
      ≡ (if has_storage && not (w.env.fails w.tick) then (key, proof) ∷ w.uploads else w.uploads))
    × (v.rounds ≡ (
        if w.env.fails (if has_storage then suc w.tick else w.tick)
        then w.rounds
        else update_first (λ r. r.round_number == n) (λ r. record r { ots_proof_path = some key })
            w.rounds))

store_proof-IsStamped :
    (has_storage : Bool) (n : ℕ) (o : Option Text) (w : World)
    → IsStamped has_storage n o w (store_proof has_storage n o w).1
unfolding store_proof
store_proof-IsStamped s n none w = refl
store_proof-IsStamped false n (some proof) w = elim (Bool-cases (w.env.fails w.tick)) [
  | inl e ↦ rw e (refl, refl)
  | inr e ↦ rw e (refl, refl)
]
store_proof-IsStamped true n (some proof) w = elim (Bool-cases (w.env.fails w.tick)) [
  | inl e ↦ elim (Bool-cases (w.env.fails (suc w.tick))) [
    | inl e' ↦ rw e (rw e' (refl, refl))
    | inr e' ↦ rw e (rw e' (refl, refl))
  ]
  | inr e ↦ elim (Bool-cases (w.env.fails (suc w.tick))) [
    | inl e' ↦ rw e (rw e' (refl, refl))
    | inr e' ↦ rw e (rw e' (refl, refl))
  ]
]

-- The stamp of a checkpoint's hash, the hexadecimal form of 32 bytes, asks the calendars about these
-- bytes. With no proof among the answers nothing changes. With one, the first proof is put into the
-- store, if there is one and its call does not fail, and the path of the round is written whether or
-- not the upload succeeded, unless its own UPDATE fails.
pub stamp_ots-IsStamped :
    (has_storage : Bool) (ask : Text → List (Option Response)) (digest : Text) (n : ℕ) (w : World)
    → length digest ≡ 32
    → All (λ c. c < 256) digest
    → IsStamped has_storage n
        (first_proof (answers (ask digest)))
        w
        (stamp_ots has_storage ask (encode_hex digest) n w).1
unfolding stamp_ots stamp_digest digest_of
stamp_ots-IsStamped s ask digest n w l h = rw (decode_hex-encode_hex digest h) (
    rw ((==_iff (length digest) 32).1 l)
      (store_proof-IsStamped s n (first_proof (answers (ask digest))) w))

-- A round that was aggregated with no object store is never stamped, whatever the calendars would
-- answer: its placeholder is no hexadecimal text, although the summary says that a proof is pending.
pub stamp_ots-placeholder :
    (has_storage : Bool) (ask : Text → List (Option Response)) (m n : ℕ) (w : World)
    → stamp_ots has_storage ask (placeholder m) n w ≡ (ok tt, w)
unfolding stamp_ots stamp_digest digest_of decode_hex
stamp_ots-placeholder s ask m n w = refl
