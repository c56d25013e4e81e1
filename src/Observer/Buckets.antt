-- ===== src/Observer/Buckets.antt =====
-- The buckets of amounts.
use open_world_model.Base.{◌≡◌, ◌⊎◌, inl, inr, arith, Bool-cases}
use open_world_model.Base.Int.{ℤ, pos, ◌≤ℤ◌, ltb_ℤ, leb_ℤ}
use open_world_model.Base.Text.{Text, codes}
use open_world_model.Observer.Receipt.{amount_bucket}

-- The label of an amount names its first and its last amount; an amount below 1 has the label 0.
abbrev pub IsBucketOf : ℤ → Text → Type 0
IsBucketOf sats b =
    ((sats ≤ℤ pos 0) × (b ≡ codes "0"))
    ⊎ (((pos 1 ≤ℤ sats) × (sats ≤ℤ pos 100) × (b ≡ codes "1-100"))
        ⊎ (((pos 101 ≤ℤ sats) × (sats ≤ℤ pos 1000) × (b ≡ codes "101-1000"))
            ⊎ (((pos 1001 ≤ℤ sats) × (sats ≤ℤ pos 10000) × (b ≡ codes "1001-10000"))
                ⊎ ((pos 10001 ≤ℤ sats) × (b ≡ codes "10001+")))))

-- The bucket of every amount is the one whose label names a range that the amount is in.
pub amount_bucket-IsBucketOf : (sats : ℤ) → IsBucketOf sats (amount_bucket sats)
unfolding amount_bucket
amount_bucket-IsBucketOf sats = elim (Bool-cases (ltb_ℤ sats (pos 1))) [
  | inl e ↦ inl (ground arith, ground arith)
  | inr e1 ↦ elim (Bool-cases (leb_ℤ sats (pos 100))) [
    | inl e ↦ inr (inl (ground arith, ground arith, ground arith))
    | inr e2 ↦ elim (Bool-cases (leb_ℤ sats (pos 1000))) [
      | inl e ↦ inr (inr (inl (ground arith, ground arith, ground arith)))
      | inr e3 ↦ elim (Bool-cases (leb_ℤ sats (pos 10000))) [
        | inl e ↦ inr (inr (inr (inl (ground arith, ground arith, ground arith))))
        | inr e4 ↦ inr (inr (inr (inr (ground arith, ground arith))))
      ]
    ]
  ]
]
