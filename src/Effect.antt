-- ===== src/Effect.antt =====
-- core/RgbEffect.h and core/RgbEffect.cpp: the kinds of effects with their numbers and names, and an
-- effect with its bounded speed and brightness. The JSON object is not modelled here.
pub mod Laws
pub mod Examples
use luma_core.Prelude.{
  ℕ, ℤ, pos, bound, ◌==ℤ◌, Bool, true, false, not, ◌&&◌, ◌||◌, List, [], ◌∷◌, if◌then◌else◌, ◌≤◌,
}
use luma_core.Text.{codes, same_text}
use luma_core.Color.{RgbColor, black}
use luma_core.Real.{Real}

pub data RgbEffectType : Type 0 where
  static rainbow breathing color_cycle wave marquee strobe : RgbEffectType

-- `static_cast<int>` of an effect type.
abbrev pub effect_number : RgbEffectType → ℕ
effect_number static = 0
effect_number rainbow = 1
effect_number breathing = 2
effect_number color_cycle = 3
effect_number wave = 4
effect_number marquee = 5
effect_number strobe = 6

unfoldable pub rgb_effect_type_to_string : RgbEffectType → List ℕ
rgb_effect_type_to_string static = codes "Static"
rgb_effect_type_to_string rainbow = codes "Rainbow"
rgb_effect_type_to_string breathing = codes "Breathing"
rgb_effect_type_to_string color_cycle = codes "ColorCycle"
rgb_effect_type_to_string wave = codes "Wave"
rgb_effect_type_to_string marquee = codes "Marquee"
rgb_effect_type_to_string strobe = codes "Strobe"

unfoldable pub rgb_effect_type_from_string : (ℕ → ℕ) → List ℕ → RgbEffectType
rgb_effect_type_from_string fold value =
    if same_text fold value (codes "Rainbow")
    then rainbow
    else if same_text fold value (codes "Breathing")
    then breathing
    else if same_text fold value (codes "ColorCycle")
    then color_cycle
    else if same_text fold value (codes "Wave")
    then wave
    else if same_text fold value (codes "Marquee")
    then marquee
    else if same_text fold value (codes "Strobe")
    then strobe
    else static

abbrev pub all_rgb_effect_types : List RgbEffectType
all_rgb_effect_types = static ∷ rainbow ∷ breathing ∷ color_cycle ∷ wave ∷ marquee ∷ strobe ∷ []

-- The loop of `isValidRgbEffectType`.
unfoldable pub known_effect : ℤ → List RgbEffectType → Bool
known_effect number [] = false
known_effect number (known ∷ rest) =
    number ==ℤ pos (effect_number known) || known_effect number rest

unfoldable pub is_valid_rgb_effect_type : ℤ → Bool
unfolding known_effect
is_valid_rgb_effect_type number = known_effect number all_rgb_effect_types

unfoldable pub is_animated_rgb_effect_type : ℤ → Bool
unfolding is_valid_rgb_effect_type
is_animated_rgb_effect_type number =
    is_valid_rgb_effect_type number && not (number ==ℤ pos (effect_number static))

pub record RgbEffect (D : Type 0) : Type 0 where
  pub kind : RgbEffectType
  pub color : RgbColor
  pub speed : D
  pub brightness : ℕ

abbrev pub is_animated : {D : Type 0} → RgbEffect D → Bool
is_animated e = elim (e.kind) [ static ↦ false | _ ↦ true ]

module _ {D : Type 0} ⦃r : Real D⦄ where
  -- `qMin`, `qMax` and `qBound` of two or three doubles.
  abbrev pub q_min : D → D → D
  q_min a b = if r.lt a b then a else b

  abbrev pub q_max : D → D → D
  q_max a b = if r.lt a b then b else a

  abbrev pub q_bound : D → D → D → D
  q_bound low value high = q_max low (q_min high value)

  unfoldable pub set_speed : RgbEffect D → D → RgbEffect D
  set_speed e speed = record e { speed = q_bound (r.literal 1 1) speed (r.literal 50 1) }

  unfoldable pub set_brightness : RgbEffect D → ℤ → RgbEffect D
  set_brightness e brightness = record e { brightness = bound brightness 100 }

  abbrev pub default_effect : RgbEffect D
  default_effect = record { kind = static; color = black; speed = r.literal 1 0; brightness = 100 }

  unfoldable pub make_effect : RgbEffectType → RgbColor → D → ℤ → RgbEffect D
  unfolding set_speed set_brightness
  make_effect kind color speed brightness =
      set_brightness (set_speed (record default_effect { kind = kind; color = color }) speed)
        brightness
