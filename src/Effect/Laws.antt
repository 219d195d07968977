-- ===== src/Effect/Laws.antt =====
-- The laws of effects: names and numbers name each kind once, and an effect stays within its bounds.
use luma_core.Prelude.{ℕ, ◌≤◌, ℤ, pos, true, ◌≡◌, refl, ◌↔◌, arith, ◌∙◌, ◌<◌}
use luma_core.Text.{FoldsAscii, same_text, lower_ascii, same_codes, same_text-ascii, AllAscii}
use luma_core.Color.{RgbColor}
use luma_core.Real.{Real}
use luma_core.Effect.{
  RgbEffectType, static, rainbow, rgb_effect_type_to_string, rgb_effect_type_from_string,
  is_valid_rgb_effect_type, is_animated_rgb_effect_type, set_brightness, make_effect, List, codes,
  known_effect,
}

from_string-ascii :
    (fold : ℕ → ℕ) (v : List ℕ)
    → FoldsAscii fold
    → AllAscii v
    → rgb_effect_type_from_string fold v ≡ rgb_effect_type_from_string lower_ascii v
unfolding rgb_effect_type_from_string
from_string-ascii fold v law a = rw (
  same_text-ascii fold v (codes "Rainbow") law a (omega arith),
  same_text-ascii fold v (codes "Breathing") law a (omega arith),
  same_text-ascii fold v (codes "ColorCycle") law a (omega arith),
  same_text-ascii fold v (codes "Wave") law a (omega arith),
  same_text-ascii fold v (codes "Marquee") law a (omega arith),
  same_text-ascii fold v (codes "Strobe") law a (omega arith),
)

name-AllAscii : (t : RgbEffectType) → AllAscii (rgb_effect_type_to_string t)
unfolding rgb_effect_type_to_string
name-AllAscii static = omega arith
name-AllAscii rainbow = omega arith
name-AllAscii _ = omega arith

read-name :
    (t : RgbEffectType) → rgb_effect_type_from_string lower_ascii (rgb_effect_type_to_string t) ≡ t
unfolding rgb_effect_type_from_string rgb_effect_type_to_string same_text lower_ascii same_codes
read-name static = refl
read-name rainbow = refl
read-name _ = refl

-- If case folding lowers the ASCII letters, the name written for a kind of effect is read back as
-- that kind.
pub rgb_effect_type_from_string-to_string :
    (fold : ℕ → ℕ) (t : RgbEffectType)
    → FoldsAscii fold
    → rgb_effect_type_from_string fold (rgb_effect_type_to_string t) ≡ t
rgb_effect_type_from_string-to_string fold t law =
    from_string-ascii fold (rgb_effect_type_to_string t) law (name-AllAscii t) ∙ read-name t

pub effect_numbers :
    (n : ℕ)
    → ((is_valid_rgb_effect_type (pos n) ≡ true) ↔ (n < 7))
      × ((is_animated_rgb_effect_type (pos n) ≡ true) ↔ ((1 ≤ n) × (n < 7)))
unfolding is_valid_rgb_effect_type is_animated_rgb_effect_type known_effect
effect_numbers n = ((ground arith, ground arith), (ground arith, ground arith))

-- The brightness of an effect is at most 100, whatever the constructor and `set_brightness` get.
pub brightness_bounds :
    {D : Type 0} ⦃r : Real D⦄ (k : RgbEffectType) (c : RgbColor) (s : D) (b b' : ℤ)
    → ((make_effect k c s b).brightness ≤ 100)
      × ((set_brightness (make_effect k c s b) b').brightness ≤ 100)
unfolding make_effect
brightness_bounds k c s b b' = omega arith
