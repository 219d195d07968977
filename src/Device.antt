-- ===== src/Device.antt =====
-- core/RgbDevice.h and core/RgbDevice.cpp: a device with its zones, and the methods that the backends
-- inherit. A method that changes the device returns what the source returns and the device after it;
-- the signals are not modelled. `trimmed` is Qt's.
pub mod Laws
pub mod Change
pub mod Step
pub mod Examples
use luma_core.Prelude.{
  ℕ, ℤ, pos, negsuc, pos_part, ltb_ℤ, ◌==ℤ◌, Bool, true, false, ◌||◌, ◌&&◌, List, [], ◌∷◌, Option,
  some, none, length, get_elem?, set, if◌then◌else◌, ◌==◌, not,
}
use luma_core.Text.{codes, same_text, same_codes}
use luma_core.Message.{format, end, txt}
use luma_core.Color.{RgbColor}
use luma_core.Effect.{
  RgbEffect, is_valid_rgb_effect_type, is_animated_rgb_effect_type, default_effect,
}
use luma_core.Real.{Real}
use luma_core.Zone.{RgbZone, led_count, set_name, set_led_count, set_led_colors, set_effect}
use luma_core.Permission.{
  BackendCapability, BackendCapabilities, zone_color_write, zone_effect_write, test_flag,
  PermissionResult, denied,
}

pub data RgbDeviceType : Type 0 where
  motherboard controller unknown : RgbDeviceType

unfoldable pub rgb_device_type_to_string : RgbDeviceType → List ℕ
rgb_device_type_to_string motherboard = codes "Motherboard"
rgb_device_type_to_string controller = codes "Controller"
rgb_device_type_to_string unknown = codes "Unknown"

unfoldable pub rgb_device_type_from_string : (ℕ → ℕ) → List ℕ → RgbDeviceType
rgb_device_type_from_string fold value =
    if same_text fold value (codes "Motherboard")
    then motherboard
    else if same_text fold value (codes "Controller")
    then controller
    else unknown

pub record RgbDevice (D : Type 0) : Type 0 where
  pub id : List ℕ
  pub name : List ℕ
  pub vendor : List ℕ
  pub backend_id : List ℕ
  pub kind : RgbDeviceType
  pub zones : List (RgbZone D)
  pub likely_rgb_controller : Bool
  pub rgb_controller_override : Option Bool

abbrev pub with_index {ℓ} : {A : Type ℓ} → ℕ → Option A → Option (ℕ × A)
with_index i none = none
with_index i (some z) = some (i, z)

-- The zone at an index, with the index, where `zoneIndex < 0 || zoneIndex >= m_zones.size()` fails.
abbrev pub zone_at : {D : Type 0} → List (RgbZone D) → ℤ → Option (ℕ × RgbZone D)
zone_at zones (negsuc _) = none
zone_at zones (pos i) = with_index i (get_elem? zones i)

unfoldable pub is_writable : BackendCapabilities → Bool
is_writable c = test_flag c zone_color_write || test_flag c zone_effect_write

-- `supportsEffect` and the methods below it, on the capabilities of the device.
unfoldable pub supports_effect : BackendCapabilities → ℤ → Bool
supports_effect c number =
    if not (is_valid_rgb_effect_type number)
    then false
    else test_flag c
        (if is_animated_rgb_effect_type number then zone_effect_write else zone_color_write)

unfoldable pub supports_effect_speed : BackendCapabilities → ℤ → Bool
unfolding supports_effect
supports_effect_speed c number = is_animated_rgb_effect_type number && supports_effect c number

module _ {D : Type 0} where
  unfoldable pub set_backend_id : RgbDevice D → List ℕ → RgbDevice D
  set_backend_id d id = record d { backend_id = id }

  unfoldable pub set_likely_rgb_controller : RgbDevice D → Bool → RgbDevice D
  set_likely_rgb_controller d b = record d { likely_rgb_controller = b }

  unfoldable pub set_rgb_controller_override : RgbDevice D → Bool → RgbDevice D
  set_rgb_controller_override d b = record d { rgb_controller_override = some b }

  unfoldable pub clear_rgb_controller_override : RgbDevice D → RgbDevice D
  clear_rgb_controller_override d = record d { rgb_controller_override = none }

  unfoldable pub is_rgb_controller : RgbDevice D → Bool
  is_rgb_controller d = elim (d.rgb_controller_override) [
    | some b ↦ b
    | none ↦ d.likely_rgb_controller
  ]

  abbrev pub put_zone : RgbDevice D → ℕ → RgbZone D → RgbDevice D
  put_zone d i z = record d { zones = set d.zones i z }

  unfoldable pub set_zone_name : (List ℕ → List ℕ) → RgbDevice D → ℤ → List ℕ → Bool × RgbDevice D
  set_zone_name trimmed d zone name = elim (zone_at d.zones zone) [
    | none ↦ (false, d)
    | some (i, z) ↦
        let sanitized = trimmed name in
        if length sanitized == 0 || same_codes z.name sanitized
        then (false, d)
        else (true, put_zone d i (set_name z sanitized))
  ]

  unfoldable pub set_zone_led_count : RgbDevice D → ℤ → ℤ → Bool × RgbDevice D
  set_zone_led_count d zone count = elim (zone_at d.zones zone) [
    | none ↦ (false, d)
    | some (i, z) ↦
        if ltb_ℤ count (pos 0) || pos (led_count z) ==ℤ count
        then (false, d)
        else (true, put_zone d i (set_led_count z count))
  ]

  unfoldable pub update_zone_metadata :
      (List ℕ → List ℕ) → RgbDevice D → ℤ → List ℕ → ℤ → Bool × RgbDevice D
  unfolding set_zone_name set_zone_led_count
  update_zone_metadata trimmed d zone name count =
      let (name_changed, named) = set_zone_name trimmed d zone name in
      let (count_changed, counted) = set_zone_led_count named zone count in
      elim (zone_at d.zones zone) [
        | none ↦ (false, d)
        | some _ ↦ (name_changed || count_changed, counted)
      ]

  unfoldable pub set_zone_effect : RgbDevice D → ℤ → RgbEffect D → RgbDevice D
  set_zone_effect d zone e = elim (zone_at d.zones zone) [
    | none ↦ d
    | some (i, z) ↦ put_zone d i (set_effect z e)
  ]

  -- `RgbDevice::applyZoneEffect`, which some backends override.
  unfoldable pub apply_zone_effect : RgbDevice D → ℤ → RgbEffect D → Bool × RgbDevice D
  unfolding set_zone_effect
  apply_zone_effect d zone e = elim (zone_at d.zones zone) [
    | none ↦ (false, d)
    | some _ ↦ (true, set_zone_effect d zone e)
  ]

  unfoldable pub set_zone_effect_colors : RgbDevice D → ℤ → List RgbColor → Bool × RgbDevice D
  set_zone_effect_colors d zone colors = elim (zone_at d.zones zone) [
    | none ↦ (false, d)
    | some (i, z) ↦
        if length colors == 0 then (false, d) else (true, put_zone d i (set_led_colors z colors))
  ]

  -- `RgbDevice::applyZoneFrame`, which some backends override.
  unfoldable pub apply_zone_frame : RgbDevice D → ℤ → List RgbColor → Bool × RgbDevice D
  unfolding set_zone_effect_colors
  apply_zone_frame d zone colors = set_zone_effect_colors d zone colors

  unfoldable pub zone_effect : ⦃r : Real D⦄ → RgbDevice D → ℤ → RgbEffect D
  zone_effect d zone = elim (zone_at d.zones zone) [
    | none ↦ default_effect
    | some (i, z) ↦ z.effect
  ]

  abbrev is_zone : RgbDevice D → ℤ → Bool
  is_zone d zone = elim (zone_at d.zones zone) [ none ↦ false | some _ ↦ true ]

  unfoldable pub supports_zone_effect : RgbDevice D → BackendCapabilities → ℤ → ℤ → Bool
  unfolding supports_effect
  supports_zone_effect d c zone number = is_zone d zone && supports_effect c number

  unfoldable pub supports_zone_effect_speed : RgbDevice D → BackendCapabilities → ℤ → ℤ → Bool
  unfolding supports_effect_speed
  supports_zone_effect_speed d c zone number = is_zone d zone && supports_effect_speed c number

-- `RgbDevice::checkRuntimePermission`, which the backends override.
unfoldable pub check_runtime_permission :
    {D : Type 0} → RgbDevice D → BackendCapability → PermissionResult
check_runtime_permission d _ = record {
  status = denied;
  reason = format "No backend capabilities declared for %1." (txt d.name end);
}
