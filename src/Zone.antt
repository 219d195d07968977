-- ===== src/Zone.antt =====
-- core/RgbLed.h, core/RgbLed.cpp, core/RgbZone.h and core/RgbZone.cpp: a zone with its lamps, its
-- current colour and its effect. A `QVector` is a list.
pub mod Laws
pub mod Examples
use luma_core.Prelude.{
  ℕ, zero, suc, ◌+◌, ◌-◌, ◌/◌, ◌%◌, ℤ, pos_part, List, [], ◌∷◌, ◌++◌, ltb, ◌==◌, if◌then◌else◌,
  length, get_or, take, ◌||◌,
}
use luma_core.Text.{codes, same_text}
use luma_core.Color.{RgbColor, black}
use luma_core.Effect.{RgbEffect, default_effect}
use luma_core.Real.{Real}

pub data RgbZoneType : Type 0 where
  motherboard addressable_header unknown : RgbZoneType

unfoldable pub rgb_zone_type_to_string : RgbZoneType → List ℕ
rgb_zone_type_to_string motherboard = codes "Motherboard"
rgb_zone_type_to_string addressable_header = codes "Addressable Header"
rgb_zone_type_to_string unknown = codes "Unknown"

unfoldable pub rgb_zone_type_from_string : (ℕ → ℕ) → List ℕ → RgbZoneType
rgb_zone_type_from_string fold value =
    if same_text fold value (codes "Motherboard")
    then motherboard
    else if same_text fold value (codes "Addressable Header")
        || same_text fold value (codes "AddressableHeader")
    then addressable_header
    else unknown

pub record RgbLed : Type 0 where
  pub index : ℕ
  pub color : RgbColor

pub record RgbZone (D : Type 0) : Type 0 where
  pub name : List ℕ
  pub kind : RgbZoneType
  pub leds : List RgbLed
  pub current_color : RgbColor
  pub effect : RgbEffect D

abbrev pub led_count : {D : Type 0} → RgbZone D → ℕ
led_count z = length z.leds

-- The loops that append a lamp for each index: `count` lamps, numbered from `index`.
unfoldable pub fresh_leds : ℕ → ℕ → RgbColor → List RgbLed
fresh_leds index zero color = []
fresh_leds index (suc count) color =
    record { index = index; color = color } ∷ fresh_leds (suc index) count color

module _ {D : Type 0} ⦃r : Real D⦄ where
  unfoldable pub make_zone : List ℕ → RgbZoneType → ℤ → RgbColor → RgbZone D
  unfolding fresh_leds
  make_zone name kind count initial = record {
    name = name;
    kind = kind;
    leds = fresh_leds 0 (pos_part count) initial;
    current_color = initial;
    effect = default_effect;
  }

-- `led.setColor(color)` for each lamp.
unfoldable pub paint_all : RgbColor → List RgbLed → List RgbLed
paint_all color [] = []
paint_all color (led ∷ rest) = record led { color = color } ∷ paint_all color rest

-- The loop of `setLedColors`, from the lamp at `index` on.
unfoldable pub paint_from : ℕ → List RgbColor → List RgbLed → List RgbLed
paint_from index colors [] = []
paint_from index colors (led ∷ rest) =
    record led { color = get_or colors (index % length colors) black }
    ∷ paint_from (suc index) colors rest

module _ {D : Type 0} where
  unfoldable pub set_name : RgbZone D → List ℕ → RgbZone D
  set_name z name = record z { name = name }

  unfoldable pub set_led_count : RgbZone D → ℤ → RgbZone D
  unfolding fresh_leds
  set_led_count z count =
      let sanitized = pos_part count in
      let current = led_count z in
      if sanitized == current
      then z
      else if ltb sanitized current
      then record z { leds = take sanitized z.leds }
      else record z { leds = z.leds ++ fresh_leds current (sanitized - current) z.current_color }

  unfoldable pub set_color : RgbZone D → RgbColor → RgbZone D
  unfolding paint_all
  set_color z color = record z { current_color = color; leds = paint_all color z.leds }

  unfoldable pub set_led_colors : RgbZone D → List RgbColor → RgbZone D
  unfolding paint_from
  set_led_colors z [] = z
  set_led_colors z (c ∷ cs) = record z {
    leds = paint_from 0 (c ∷ cs) z.leds;
    current_color = get_or (c ∷ cs) (length (c ∷ cs) / 2) black;
  }

  unfoldable pub set_effect : RgbZone D → RgbEffect D → RgbZone D
  set_effect z effect = record z { effect = effect }
