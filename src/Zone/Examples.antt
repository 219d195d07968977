-- ===== src/Zone/Examples.antt =====
-- The theorems on zones at a concrete zone.
use luma_core.Prelude.{ℕ, ◌≡◌, refl, pos, [], ◌∷◌, replicate, length, take, ◌++◌}
use luma_core.Text.{codes}
use luma_core.Color.{RgbColor, black}
use luma_core.Effect.{make_effect, rainbow}
use luma_core.Real.Hundredths.{hundredths}
use luma_core.Zone.{
  RgbZone, addressable_header, make_zone, set_name, set_led_count, set_color, set_led_colors,
  set_effect,
}
use luma_core.Zone.Laws.{IsNumbered, colors_of, zone_ops-IsNumbered, colors_of-set_led_count}

abbrev red : RgbColor
red = record { red = 255; green = 0; blue = 0 }

abbrev strip : RgbZone ℕ
strip = make_zone ⦃r = hundredths⦄ (codes "Strip") addressable_header (pos 3) red

strip-IsNumbered : IsNumbered strip
unfolding make_zone
strip-IsNumbered = (refl, (refl, (refl, tt)))

zone_ops-IsNumbered_example :
    IsNumbered (make_zone ⦃r = hundredths⦄ (codes "Fan") addressable_header (pos 2) black)
    × IsNumbered (set_name strip (codes "Fan"))
    × IsNumbered (set_led_count strip (pos 2))
    × IsNumbered (set_color strip black)
    × IsNumbered (set_led_colors strip (red ∷ black ∷ []))
    × IsNumbered (set_effect strip (make_effect ⦃r = hundredths⦄ rainbow red 100 (pos 50)))
zone_ops-IsNumbered_example =
    zone_ops-IsNumbered ⦃r = hundredths⦄ (codes "Fan") addressable_header (pos 2) black strip
      (make_effect ⦃r = hundredths⦄ rainbow red 100 (pos 50)) (red ∷ black ∷ []) strip-IsNumbered

colors_of-set_led_count_example :
    (length (set_led_count strip (pos 5)).leds ≡ 5)
    × (colors_of (set_led_count strip (pos 5)).leds
        ≡ take 5 (colors_of strip.leds) ++ replicate 2 red)
unfolding make_zone
colors_of-set_led_count_example = colors_of-set_led_count strip (pos 5)
