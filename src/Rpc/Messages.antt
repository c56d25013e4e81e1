-- ===== src/Rpc/Messages.antt =====
-- The checks of a request on their own: the window of its timestamp and the text that is signed.
use open_world_model.Base.{
  ℕ, ◌≡◌, refl, true, false, ◌↔◌, inl, inr, [], ◌∷◌, ◌++◌, arith, All, sym, ◌∙◌, Bool-cases,
}
use open_world_model.Base.Int.{ℤ, pos, ◌-ℤ◌, ◌+ℤ◌, ◌≤ℤ◌, ltb_ℤ, +ℤ_parts, -ℤ_parts}
use open_world_model.Base.Text.{Text, codes}
use open_world_model.World.{World, ok}
use open_world_model.Registry.{nanos, is_too_old}
use open_world_model.Rpc.Checks.{is_in_future, validate_timestamp, canonical_task_result_message}

-- Not more than five minutes before `time`, and not more than thirty seconds after it.
abbrev pub IsFresh : ℕ → ℤ → Type 0
IsFresh time ts =
    (pos time ≤ℤ (nanos ts +ℤ pos 300000000000)) × (nanos ts ≤ℤ (pos time +ℤ pos 30000000000))

late_iff :
    (k time : ℕ) (z : ℤ) → (ltb_ℤ (pos k) (pos time -ℤ z) ≡ false) ↔ (pos time ≤ℤ (z +ℤ pos k))
late_iff k time z = ground (arith, -ℤ_parts (pos time) z, +ℤ_parts z (pos k))

true_false : {A : Type 0} → true ≡ false → A
true_false h = ground arith

early_iff :
    (k time : ℕ) (z : ℤ) → (ltb_ℤ (pos k) (z -ℤ pos time) ≡ false) ↔ (z ≤ℤ (pos time +ℤ pos k))
early_iff k time z = ground (arith, -ℤ_parts z (pos time), +ℤ_parts (pos time) (pos k))

-- A request's timestamp is accepted exactly if it lies between five minutes before the clock and
-- thirty seconds after it.
pub validate_timestamp_iff :
    (ts : ℤ) (w : World) → ((validate_timestamp ts w).0 ≡ ok tt) ↔ IsFresh (w.env.clock w.tick) ts
unfolding validate_timestamp
validate_timestamp_iff ts w = elim (Bool-cases (is_too_old (w.env.clock w.tick) ts)) [
  | inl e ↦ rw e ((λ h. ground arith), (λ (p, q). true_false (sym e ∙ (late_iff _ _ _).1 p)))
  | inr e ↦ rw e (elim (Bool-cases (is_in_future (w.env.clock w.tick) ts)) [
    | inl e' ↦ rw e' ((λ h. ground arith), (λ (p, q). true_false (sym e' ∙ (early_iff _ _ _).1 q)))
    | inr e' ↦ rw e' ((λ h. ((late_iff _ _ _).0 e, (early_iff _ _ _).0 e')), (λ x. refl))
  ])
]

-- The first `|` of a text whose head has none.
split_unique :
    (a b x y : Text)
    → All (λ c. (c ≡ b'|') → ⊥) a
    → All (λ c. (c ≡ b'|') → ⊥) b
    → a ++ b'|' ∷ x ≡ b ++ b'|' ∷ y
    → (a ≡ b) × (x ≡ y)
split_unique [] [] x y p q h = (refl, cc)
split_unique [] (c ∷ b) x y p (q, qs) h = elim (q cc) [ ]
split_unique (c ∷ a) [] x y (p, ps) q h = elim (p cc) [ ]
split_unique (c ∷ a) (d ∷ b) x y (p, ps) (q, qs) h =
    let (e, e') = split_unique a b x y ps qs cc in (cc, e')

append_cancel : (a x y : Text) → a ++ x ≡ a ++ y → x ≡ y
append_cancel [] x y h = h
append_cancel (c ∷ a) x y h = append_cancel a x y cc

-- Of task ids without a `|`, as a UUID is, no two different pairs of a task id and an output share a
-- message.
pub canonical_task_result_message_unique :
    (a b x y : Text)
    → All (λ c. (c ≡ b'|') → ⊥) a
    → All (λ c. (c ≡ b'|') → ⊥) b
    → canonical_task_result_message a x ≡ canonical_task_result_message b y
    → (a ≡ b) × (x ≡ y)
unfolding canonical_task_result_message
canonical_task_result_message_unique a b x y p q h =
    split_unique a b x y p q (append_cancel (codes "owm-task-result|") _ _ h)
