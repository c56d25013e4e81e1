-- ===== src/Observer/Canonical.antt =====
-- That the canonical form does not show the order in which the map is iterated.
use open_world_model.Base.{
  ◌≡◌, ◌≢◌, refl, true, ◌⊎◌, inl, inr, List, [], ◌∷◌, arith, All, Bool-cases, ltb,
}
use open_world_model.Base.Text.{Text}
use open_world_model.Observer.Crypto.{Crypto}
use open_world_model.Observer.Receipt.{text_le}

pub text_le_total : (s t : Text) → (text_le s t ≡ true) ⊎ (text_le t s ≡ true)
unfolding text_le
text_le_total [] t = inl refl
text_le_total (b ∷ s) [] = inr refl
text_le_total (b ∷ s) (c ∷ t) = elim (text_le_total s t) [
  | inl h ↦ elim (Bool-cases (ltb c b)) [ inl e ↦ inr (ground arith) | inr e ↦ inl (ground arith) ]
  | inr h ↦ elim (Bool-cases (ltb b c)) [ inl e ↦ inl (ground arith) | inr e ↦ inr (ground arith) ]
]

pub text_le_antisymm : (s t : Text) → text_le s t ≡ true → text_le t s ≡ true → s ≡ t
unfolding text_le
text_le_antisymm [] [] h k = refl
text_le_antisymm [] (c ∷ t) h k = absurd (ground arith)
text_le_antisymm (b ∷ s) [] h k = absurd (ground arith)
text_le_antisymm (b ∷ s) (c ∷ t) h k = ground (arith, text_le_antisymm s t)

pub text_le_trans : (s t u : Text) → text_le s t ≡ true → text_le t u ≡ true → text_le s u ≡ true
unfolding text_le
text_le_trans [] t u h k = refl
text_le_trans (b ∷ s) [] u h k = absurd (ground arith)
text_le_trans (b ∷ s) (c ∷ t) [] h k = absurd (ground arith)
text_le_trans (b ∷ s) (c ∷ t) (d ∷ u) h k = ground (arith, text_le_trans s t u)

-- No field has this name; and no two fields of a map have one name.
abbrev pub IsFresh : Text → List (Text × Text) → Type 0
IsFresh k fs = All (λ (f : Text × Text). f.0 ≢ k) fs

abbrev pub IsMap : List (Text × Text) → Type 0
IsMap [] = Unit
IsMap (f ∷ fs) = IsFresh f.0 fs × IsMap fs

-- The order of the fields by their names.
abbrev pub IsAscending : List (Text × Text) → Type 0
IsAscending [] = Unit
IsAscending ((k, v) ∷ fs) = All (λ (f : Text × Text). text_le k f.0 ≡ true) fs × IsAscending fs
