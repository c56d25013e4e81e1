-- ===== src/Registry/Clamps.antt =====
-- The reliability score lies in [0, 1].
use open_world_model.Base.{ℕ, ◌≡◌, false, arith}
use open_world_model.Base.Int.{ℤ}
use open_world_model.Float64.{Float64, Laws}
use open_world_model.Registry.Reliability.{compute_reliability}

module _ (fp : Float64) (l : Laws fp) where
  open fp use {ratio, lt}

  -- By the laws of float64, whatever the counts and the window, the score is not below 0 and not above 1.
  pub compute_reliability_bounds :
      (completed total received : ℤ) (window : ℕ)
      → (lt (compute_reliability fp completed total received window) (ratio 0 1) ≡ false)
        × (lt (ratio 1 1) (compute_reliability fp completed total received window) ≡ false)
  unfolding compute_reliability
  compute_reliability_bounds completed total received window = ground (
    arith,
    l.lt_irrefl (ratio 0 1),
    l.lt_irrefl (ratio 1 1),
    l.zero_lt_one,
    l.lt_asymm (ratio 0 1) (ratio 1 1),
  )
