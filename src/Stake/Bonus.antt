-- ===== src/Stake/Bonus.antt =====
-- The stake bonus, clamp(1 + (stake - min) / min * 0.5, 1, 2).
use open_world_model.Base.{ℕ, ◌-◌, ◌<◌, ◌≡◌, false, arith}
use open_world_model.Base.Int.{ℤ, pos, ◌-ℤ◌, ◌≤ℤ◌, -ℤ_parts, leb_ℤ}
use open_world_model.Float64.{Float64, Laws}
use open_world_model.Stake.Defs.{compute_bonus, raw_bonus, one, two}

module _ (fp : Float64) (l : Laws fp) (min : ℕ) (positive : 0 < min) where
  open fp use {lt}

  surplus : (stake : ℤ) → leb_ℤ stake (pos min) ≡ false → (n : ℕ) × (stake -ℤ pos min ≡ pos n)
  unfolding ◌-ℤ◌
  surplus (pos s) h = (s - min, ground arith)
  surplus stake h = absurd (ground arith)

  raw_bonus-ge-one :
      (stake : ℤ)
      → leb_ℤ stake (pos min) ≡ false
      → lt (raw_bonus fp stake (pos min)) (one fp) ≡ false
  raw_bonus-ge-one stake h =
      let (n, e) = surplus stake h in
      rw (raw_bonus, e)
        (l.add_nonneg _ _ (
          l.mul_nonneg _ _ (l.div_nonneg _ _ (l.of_int_pos min positive) (l.of_int_nonneg n))
            (l.ratio_nonneg 1 2)))

  -- By the laws of float64, with a positive minimum, whatever the stake, the bonus is not below 1 and not above 2.
  pub compute_bonus_bounds :
      (stake : ℤ)
      → (lt (compute_bonus fp stake (pos min)) (one fp) ≡ false)
        × (lt (two fp) (compute_bonus fp stake (pos min)) ≡ false)
  unfolding compute_bonus
  compute_bonus_bounds stake = ground (
    arith,
    raw_bonus-ge-one stake,
    l.lt_irrefl (one fp),
    l.lt_irrefl (two fp),
    l.one_lt_two,
    l.lt_asymm (one fp) (two fp),
  )

  raw_bonus_mono :
      (a b : ℤ) → a ≤ℤ b → lt (raw_bonus fp b (pos min)) (raw_bonus fp a (pos min)) ≡ false
  raw_bonus_mono a b h = l.add_mono _ _ _ (
      l.mul_mono _ _ _ (l.ratio_nonneg 1 2) (
        l.div_mono _ _ _ (l.of_int_pos min positive)
          (l.of_int_mono _ _ (omega (arith, -ℤ_parts a (pos min), -ℤ_parts b (pos min), h)))))

  -- By the laws of float64, with a positive minimum, a larger stake never has a smaller bonus.
  pub compute_bonus_mono :
      (a b : ℤ) → a ≤ℤ b → lt (compute_bonus fp b (pos min)) (compute_bonus fp a (pos min)) ≡ false
  unfolding compute_bonus
  compute_bonus_mono a b h = ground (
    arith,
    raw_bonus-ge-one b,
    raw_bonus_mono a b h,
    l.lt_irrefl (one fp),
    l.lt_irrefl (two fp),
    l.one_lt_two,
    l.lt_asymm (one fp) (two fp),
    l.lt_trans (raw_bonus fp b (pos min)) (two fp) (raw_bonus fp a (pos min)),
  )
