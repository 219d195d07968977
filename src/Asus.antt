-- ===== src/Asus.antt =====
-- backends/asus/AsusAuraHidDevice.h and backends/asus/AsusAuraHidDevice.cpp: the ASUS Aura device: how
-- it builds its zones from the verified config table, and how it writes to them. The device carries
-- `H`, the state of HIDAPI that its writer works on. `print` is the text of `QString::arg` for a number,
-- `trimmed` is Qt's; the texts on the support stage of a device are not modelled.
pub mod Zones
pub mod Write
pub mod Guard
pub mod Safe
pub mod Follows
pub mod Metadata
pub mod Approved
pub mod Live
pub mod Examples
use luma_core.Prelude.{
  ℕ, zero, suc, ◌+◌, ◌-◌, ◌%◌, ℤ, pos, negsuc, bound, ltb_ℤ, ◌==ℤ◌, Bool, true, false, not, ◌&&◌,
  ◌||◌, List, [], ◌∷◌, ◌++◌, length, get_or, ltb, ◌==◌, if◌then◌else◌, max, none,
}
use luma_core.Text.{codes}
use luma_core.Message.{Message, blank, format, end, sub, is_empty}
use luma_core.Color.{RgbColor, black}
use luma_core.Effect.{
  make_effect, static, effect_number, rainbow, breathing, color_cycle, wave, marquee, strobe,
}
use luma_core.Real.{Real}
use luma_core.Zone.{RgbZone, RgbZoneType, make_zone, set_effect, addressable_header}
use luma_core.Device.{RgbDevice, RgbDeviceType}
use luma_core.Permission.{
  BackendCapabilities, BackendCapability, PermissionResult, granted, denied, requires_confirmation,
  test_flag, zone_color_write, zone_effect_write, discovery_read, no_capability,
}
use luma_core.Aura.{
  AsusAuraConfigTable, AsusAuraConfigChannel, fixed, addressable, header_limit, max_research_leds,
}
use luma_core.Aura.Config.{fixed_exposed_zone_count, is_write_ready}

-- The fields of `ProbeDevice` that the device uses.
pub record ProbeDevice : Type 0 where
  pub id : List ℕ
  pub name : List ℕ
  pub vendor : List ℕ
  pub path : List ℕ
  pub interface_number : ℤ

pub record AsusAuraHidDevice (D : Type 0) (H : Type 0) : Type 0 where
  pub base : RgbDevice D
  pub device : ProbeDevice
  pub config_table_verified : Bool
  pub config_table : AsusAuraConfigTable
  pub config_summary : Message
  pub last_hardware_write_status : Message
  pub hid : H

abbrev pub preview_colors : List RgbColor
preview_colors =
    record { red = 30; green = 84; blue = 214 }
    ∷ record { red = 34; green = 211; blue = 238 }
    ∷ record { red = 124; green = 92; blue = 255 }
    ∷ []

abbrev pub preview_color : ℕ → RgbColor
preview_color number = get_or preview_colors ((number - 1) % 3) black

module _ {D : Type 0} ⦃r : Real D⦄ where
  -- A zone that is appended, with its effect set.
  abbrev pub preview_zone : List ℕ → RgbZoneType → ℤ → RgbColor → RgbZone D
  preview_zone name kind count color =
      set_effect (make_zone name kind count color)
        (make_effect static color (r.literal 1 0) (pos 25))

  -- The loop over the headers of a fixed channel, the zones numbered from `number`.
  unfoldable pub header_zones : (ℕ → List ℕ) → ℕ → ℕ → List (RgbZone D)
  header_zones print number zero = []
  header_zones print number (suc n) =
      preview_zone (codes "Header " ++ print number) RgbZoneType.motherboard (pos 1)
        (preview_color number)
      ∷ header_zones print (suc number) n

  -- What one fixed channel appends.
  unfoldable pub fixed_channel_zones :
      (ℕ → List ℕ) → AsusAuraConfigTable → ℕ → AsusAuraConfigChannel → List (RgbZone D)
  unfolding header_zones
  fixed_channel_zones print config number channel =
      let fixed_headers = bound channel.header_count header_limit in
      if fixed_headers == 0
      then if ltb 0 (fixed_exposed_zone_count config)
        then preview_zone (codes "Mainboard LEDs") RgbZoneType.motherboard channel.led_count
            (preview_color number)
          ∷ []
        else []
      else header_zones print number fixed_headers

  -- The first loop of `initializeZones`; `number` is `zoneNumber`.
  unfoldable pub fixed_loop :
      (ℕ → List ℕ) → AsusAuraConfigTable → ℕ → List AsusAuraConfigChannel → List (RgbZone D)
  unfolding fixed_channel_zones
  fixed_loop print config number [] = []
  fixed_loop print config number (c ∷ cs) =
      let zones = fixed_channel_zones print config number c in
      elim (c.kind) [
        | addressable ↦ fixed_loop print config number cs
        | fixed ↦ zones ++ fixed_loop print config (number + length zones) cs
      ]

  -- The second loop; `k` is `addressableNumber`.
  unfoldable pub addressable_loop :
      (ℕ → List ℕ) → ℕ → ℕ → List AsusAuraConfigChannel → List (RgbZone D)
  addressable_loop print number k [] = []
  addressable_loop print number k (c ∷ cs) = elim (c.kind) [
    | fixed ↦ addressable_loop print number k cs
    | addressable ↦
        preview_zone (codes "Addressable Header " ++ print k) addressable_header
          (pos (max 1 (bound c.led_count max_research_leds))) (preview_color number)
        ∷ addressable_loop print (suc number) (suc k) cs
  ]

  unfoldable pub default_zones : List (RgbZone D)
  default_zones =
      preview_zone (codes "Header 1") RgbZoneType.motherboard (pos 10) (preview_color 1)
      ∷ preview_zone (codes "Header 2") addressable_header (pos 30) (preview_color 2)
      ∷ preview_zone (codes "Header 3") addressable_header (pos 30) (preview_color 3)
      ∷ []

  unfoldable pub initialize_zones : (ℕ → List ℕ) → Bool → AsusAuraConfigTable → List (RgbZone D)
  unfolding fixed_loop addressable_loop default_zones
  initialize_zones print verified config =
      let first = fixed_loop print config 1 config.channels in
      let zones = first ++ addressable_loop print (1 + length first) 1 config.channels in
      let built = if verified && config.valid then zones else [] in
      if length built == 0 then default_zones else built

  unfoldable pub make_asus_device :
      {H : Type 0}
      → (ℕ → List ℕ)
      → ProbeDevice
      → Bool
      → AsusAuraConfigTable
      → Message
      → H
      → AsusAuraHidDevice D H
  unfolding initialize_zones
  make_asus_device print device verified config summary hid =
      let usable = verified && is_write_ready config in
      record {
        base = record {
          id = device.id;
          name = if length device.name == 0 then codes "ASUS Aura HID Controller" else device.name;
          vendor = if length device.vendor == 0 then codes "ASUS" else device.vendor;
          backend_id = [];
          kind = RgbDeviceType.motherboard;
          zones = initialize_zones print usable config;
          likely_rgb_controller = true;
          rgb_controller_override = none;
        };
        device = device;
        config_table_verified = usable;
        config_table = config;
        config_summary = summary;
        last_hardware_write_status = blank;
        hid = hid;
      }

-- The loop of `supportsEffect` and of the two methods like it, from the zone at `index` on.
unfoldable pub some_zone {ℓ} : {A : Type ℓ} → (ℤ → Bool) → ℕ → List A → Bool
some_zone test index [] = false
some_zone test index (z ∷ zs) = if test (pos index) then true else some_zone test (suc index) zs

module _ {D : Type 0} {H : Type 0} where
  unfoldable pub write_disabled_reason : AsusAuraHidDevice D H → Message
  write_disabled_reason d =
      if is_empty d.config_summary
      then format
          "ASUS Aura HID writes are disabled because no verified config-table response was received."
          end
      else format "ASUS Aura HID writes are disabled: %1" (sub d.config_summary end)

  unfoldable pub fixed_zone_count : AsusAuraHidDevice D H → ℕ
  fixed_zone_count d =
      if not d.config_table_verified || not d.config_table.valid
      then 0
      else fixed_exposed_zone_count d.config_table

  unfoldable pub is_addressable_zone : AsusAuraHidDevice D H → ℤ → Bool
  unfolding fixed_zone_count
  is_addressable_zone d zone =
      d.config_table_verified
      && d.config_table.valid
      && not (ltb_ℤ zone (pos (fixed_zone_count d)))
      && ltb_ℤ zone (pos (length d.base.zones))

  unfoldable pub capabilities : AsusAuraHidDevice D H → BackendCapabilities
  capabilities d = record {
    can_discover = true;
    can_write_color = d.config_table_verified;
    can_write_effect = d.config_table_verified;
  }

  unfoldable pub check_runtime_permission :
      AsusAuraHidDevice D H → BackendCapability → PermissionResult
  unfolding write_disabled_reason
  check_runtime_permission d operation =
      let write =
        if not d.config_table_verified
        then record { status = denied; reason = write_disabled_reason d }
        else record {
          status = requires_confirmation;
          reason =
              format
                "ASUS Aura HID writes require confirmation before real hardware writes are allowed for this daemon session."
                end;
        } in
      elim operation [
        | discovery_read ↦ record { status = granted; reason = blank }
        | no_capability ↦ record {
          status = denied;
          reason = format "Unsupported ASUS Aura HID operation." end;
        }
        | zone_color_write ↦ write
        | zone_effect_write ↦ write
      ]

  unfoldable pub supports_host_streamed_effect : AsusAuraHidDevice D H → ℤ → ℤ → Bool
  unfolding is_addressable_zone
  supports_host_streamed_effect d zone number =
      is_addressable_zone d zone
      && (number ==ℤ pos (effect_number rainbow)
          || number ==ℤ pos (effect_number breathing)
          || number ==ℤ pos (effect_number color_cycle)
          || number ==ℤ pos (effect_number wave)
          || number ==ℤ pos (effect_number marquee)
          || number ==ℤ pos (effect_number strobe))

  unfoldable pub supports_zone_effect : AsusAuraHidDevice D H → ℤ → ℤ → Bool
  unfolding supports_host_streamed_effect capabilities is_addressable_zone
  supports_zone_effect d zone number =
      if ltb_ℤ zone (pos 0) || not (ltb_ℤ zone (pos (length d.base.zones)))
      then false
      else if number ==ℤ pos (effect_number static)
      then is_addressable_zone d zone && test_flag (capabilities d) zone_color_write
      else if not (test_flag (capabilities d) zone_effect_write)
      then false
      else supports_host_streamed_effect d zone number

  unfoldable pub supports_zone_effect_speed : AsusAuraHidDevice D H → ℤ → ℤ → Bool
  unfolding supports_host_streamed_effect
  supports_zone_effect_speed d zone number = supports_host_streamed_effect d zone number

  unfoldable pub supports_effect : AsusAuraHidDevice D H → ℤ → Bool
  unfolding some_zone supports_zone_effect
  supports_effect d number = some_zone (λ zone. supports_zone_effect d zone number) 0 d.base.zones

  unfoldable pub supports_effect_speed : AsusAuraHidDevice D H → ℤ → Bool
  unfolding some_zone supports_zone_effect_speed
  supports_effect_speed d number =
      some_zone (λ zone. supports_zone_effect_speed d zone number) 0 d.base.zones
