-- ===== src/Effect/Examples.antt =====
-- The theorems on effects at concrete names and numbers.
use luma_core.Prelude.{◌≤◌, pos, negsuc}
use luma_core.Color.{black}
use luma_core.Real.Hundredths.{hundredths}
use luma_core.Effect.{color_cycle, make_effect, set_brightness}
use luma_core.Effect.Laws.{brightness_bounds}

brightness_bounds_example :
    ((make_effect ⦃r = hundredths⦄ color_cycle black 100 (pos 140)).brightness ≤ 100)
    × ((set_brightness ⦃r = hundredths⦄
          (make_effect ⦃r = hundredths⦄ color_cycle black 100 (pos 140))
          (negsuc 3)).brightness
        ≤ 100)
brightness_bounds_example =
    brightness_bounds ⦃r = hundredths⦄ color_cycle black 100 (pos 140) (negsuc 3)
