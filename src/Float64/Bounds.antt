-- ===== src/Float64/Bounds.antt =====
-- A value cut off at a bound lies within it.
use open_world_model.Base.{◌≡◌, false, if◌then◌else◌, arith}
use open_world_model.Float64.Defs.{Float64, Laws}

module _ (fp : Float64) where
  abbrev pub cut_above : fp.F → fp.F → fp.F
  cut_above hi x = if fp.lt hi x then hi else x

  pub cut_above-le : (l : Laws fp) (hi x : fp.F) → fp.lt hi (cut_above hi x) ≡ false
  cut_above-le l hi x = ground (arith, l.lt_irrefl hi)

  pub cut_above_mono :
      (l : Laws fp) (hi x y : fp.F)
      → fp.lt y x ≡ false
      → fp.lt (cut_above hi y) (cut_above hi x) ≡ false
  cut_above_mono l hi x y h = ground (arith, l.lt_irrefl hi, l.lt_trans y hi x)
