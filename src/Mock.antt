-- ===== src/Mock.antt =====
-- backends/mock/MockRgbDevice.h and backends/mock/MockRgbDevice.cpp: the device without hardware, and
-- the methods that the manager calls on it.
use luma_core.Prelude.{
  ℕ, ℤ, pos, Bool, true, false, not, List, [], ◌∷◌, none, some, map, if◌then◌else◌,
}
use luma_core.Text.{codes}
use luma_core.Message.{Message, blank, format, end, txt}
use luma_core.Color.{RgbColor, black}
use luma_core.Effect.{RgbEffect, make_effect, static}
use luma_core.Real.{Real}
use luma_core.Zone.{RgbZone, make_zone, set_effect, set_color, addressable_header, RgbZoneType}
use luma_core.Permission.{
  BackendCapability, BackendCapabilities, PermissionResult, granted, denied, discovery_read,
  test_flag, backend_capability_to_string,
}
use luma_core.Device.{
  RgbDevice, RgbDeviceType, zone_at, put_zone, update_zone_metadata, supports_zone_effect,
  supports_zone_effect_speed,
}
use luma_core.Asus.{preview_color}
use luma_core.Manager.{RgbDevices}

pub record MockRgbDeviceConfig (D : Type 0) : Type 0 where
  pub id : List ℕ
  pub name : List ℕ
  pub vendor : List ℕ
  pub kind : RgbDeviceType
  pub zones : List (RgbZone D)
  pub capabilities : BackendCapabilities
  pub runtime_write_permission : PermissionResult
  pub fail_writes : Bool
  pub likely_rgb_controller : Bool

pub record MockRgbDevice (D : Type 0) : Type 0 where
  pub base : RgbDevice D
  pub capabilities : BackendCapabilities
  pub runtime_write_permission : PermissionResult
  pub fail_writes : Bool
  pub last_hardware_write_status : Message

abbrev rejected : List ℕ → Message
rejected operation = format "Mock failing-writes scenario rejected %1 write." (txt operation end)

module _ {D : Type 0} where
  abbrev pub with_base : MockRgbDevice D → RgbDevice D → MockRgbDevice D
  with_base d base = record d { base = base }

  unfoldable pub reject_write : MockRgbDevice D → Message → Bool × MockRgbDevice D
  reject_write d operation = (false, record d { last_hardware_write_status = operation })

  unfoldable pub set_zone_static_color : MockRgbDevice D → ℤ → RgbColor → Bool × MockRgbDevice D
  unfolding reject_write
  set_zone_static_color d zone color =
      if d.fail_writes
      then reject_write d (rejected (codes "static color"))
      else elim (zone_at d.base.zones zone) [
        | none ↦ (false, d)
        | some (i, z) ↦ (true, with_base d (put_zone d.base i (set_color z color)))
      ]

  unfoldable pub apply_zone_effect : MockRgbDevice D → ℤ → RgbEffect D → Bool × MockRgbDevice D
  unfolding reject_write
  apply_zone_effect d zone e =
      let (success, base) = luma_core.Device.apply_zone_effect d.base zone e in
      if d.fail_writes
      then reject_write d (rejected (codes "effect"))
      else (success, with_base d base)

  unfoldable pub apply_zone_frame : MockRgbDevice D → ℤ → List RgbColor → Bool × MockRgbDevice D
  unfolding reject_write
  apply_zone_frame d zone colors =
      let (success, base) = luma_core.Device.apply_zone_frame d.base zone colors in
      if d.fail_writes
      then reject_write d (rejected (codes "frame"))
      else (success, with_base d base)

  unfoldable pub check_runtime_permission : MockRgbDevice D → BackendCapability → PermissionResult
  check_runtime_permission d operation =
      let write =
        if not (test_flag d.capabilities operation)
        then record {
          status = denied;
          reason =
              format "Mock backend does not support %1."
                (txt (backend_capability_to_string operation) end);
        }
        else d.runtime_write_permission in
      elim operation [
        | discovery_read ↦
            if not (test_flag d.capabilities discovery_read)
            then write
            else record { status = granted; reason = blank }
        | _ ↦ write
      ]

module _ {D : Type 0} ⦃r : Real D⦄ where
  abbrev off_zone : RgbZone D → RgbZone D
  off_zone z = set_color (set_effect z (make_effect static black (r.literal 1 0) (pos 0))) black

  unfoldable pub apply_all_off : MockRgbDevice D → Bool × MockRgbDevice D
  unfolding reject_write
  apply_all_off d =
      if d.fail_writes
      then reject_write d (rejected (codes "all-off"))
      else (true, with_base d (record (d.base) { zones = map off_zone d.base.zones }))

  -- The zones of a configuration, each with its current colour as its effect.
  unfoldable pub configured_zones : List (RgbZone D) → List (RgbZone D)
  configured_zones [] = []
  configured_zones (z ∷ zs) =
      set_effect z (make_effect static z.current_color (r.literal 1 0) (pos 100))
      ∷ configured_zones zs

  unfoldable pub make_mock_device : MockRgbDeviceConfig D → MockRgbDevice D
  unfolding configured_zones
  make_mock_device c = record {
    base = record {
      id = c.id;
      name = c.name;
      vendor = c.vendor;
      backend_id = [];
      kind = c.kind;
      zones = configured_zones c.zones;
      likely_rgb_controller = c.likely_rgb_controller;
      rgb_controller_override = none;
    };
    capabilities = c.capabilities;
    runtime_write_permission = c.runtime_write_permission;
    fail_writes = c.fail_writes;
    last_hardware_write_status = blank;
  }

  unfoldable pub default_config : MockRgbDeviceConfig D
  default_config = record {
    id = codes "mock-asus-tuf-x870-plus-wifi";
    name = codes "Mock ASUS TUF X870-PLUS WIFI";
    vendor = codes "ASUS";
    kind = RgbDeviceType.motherboard;
    zones =
        make_zone (codes "Header 1") RgbZoneType.motherboard (pos 10) (preview_color 1)
        ∷ make_zone (codes "Header 2") addressable_header (pos 30) (preview_color 2)
        ∷ make_zone (codes "Header 3") addressable_header (pos 30) (preview_color 3)
        ∷ [];
    capabilities = record { can_discover = true; can_write_color = true; can_write_effect = true };
    runtime_write_permission = record { status = granted; reason = blank };
    fail_writes = false;
    likely_rgb_controller = true;
  }

  -- The mock device behind the interface of the manager; what it does not override is that of
  -- `RgbDevice`.
  unfoldable pub mock_devices : (List ℕ → List ℕ) → RgbDevices (MockRgbDevice D) D
  unfolding apply_zone_effect apply_zone_frame apply_all_off check_runtime_permission
  mock_devices trimmed = record {
    base = λ d. d.base;
    with_base = with_base;
    guarded = λ d. record {
      name = d.base.name;
      capabilities = d.capabilities;
      check_runtime_permission = check_runtime_permission d;
    };
    supports_zone_effect = λ d. supports_zone_effect d.base d.capabilities;
    supports_zone_effect_speed = λ d. supports_zone_effect_speed d.base d.capabilities;
    supports_zone_effect_brightness = λ d. supports_zone_effect d.base d.capabilities;
    uses_local_frame_rendering_for_effect = λ _ _ _. true;
    preview_zone_effect_write = λ _ _ _. blank;
    last_hardware_write_status = λ d. d.last_hardware_write_status;
    apply_zone_effect = apply_zone_effect;
    apply_zone_frame = apply_zone_frame;
    apply_all_off = apply_all_off;
    update_zone_metadata = λ d zone name count.
        let (changed, base) = update_zone_metadata trimmed d.base zone name count in
        (changed, with_base d base);
  }
