-- ===== src/Manager/Asus.antt =====
-- backends/asus/AsusAuraHidDevice.cpp behind the interface of core/DeviceManager.cpp: what the manager
-- never does to ASUS hardware.
use luma_core.Prelude.{ℕ, ◌≡◌, inl, inr, ℤ, Bool, false, List, Bool-cases, arith, subst}
use luma_core.Effect.{RgbEffect, is_animated, effect_number}
use luma_core.Real.{Real}
use luma_core.Permission.{
  BackendCapability, zone_color_write, zone_effect_write, check_write, test_flag,
}
use luma_core.Permission.Laws.{Permits}
use luma_core.Hid.{Hidapi}
use luma_core.Asus.{
  AsusAuraHidDevice, capabilities, check_runtime_permission, supports_zone_effect,
  supports_zone_effect_speed, supports_host_streamed_effect,
}
use luma_core.Asus.Write.{with_base, preview_zone_effect_write, apply_zone_frame, update_metadata}
use luma_core.Manager.{RgbDevices, DeviceManager, device_write_confirmed, pos}
use luma_core.Manager.Effect.{operation_of}
use luma_core.Manager.Safe.{Allowed, writes-Allowed}

module _ {D H : Type 0} ⦃r : Real D⦄ (api : Hidapi H) (trimmed : List ℕ → List ℕ) where
  -- The ASUS device behind the interface of the manager.
  unfoldable pub asus_devices : RgbDevices (AsusAuraHidDevice D H) D
  asus_devices = record {
    base = λ d. d.base;
    with_base = with_base;
    guarded = λ d. record {
      name = d.base.name;
      capabilities = capabilities d;
      check_runtime_permission = check_runtime_permission d;
    };
    supports_zone_effect = supports_zone_effect;
    supports_zone_effect_speed = supports_zone_effect_speed;
    supports_zone_effect_brightness = supports_zone_effect;
    uses_local_frame_rendering_for_effect =
        λ d zone e. supports_host_streamed_effect d zone (pos (effect_number e.kind));
    preview_zone_effect_write = preview_zone_effect_write;
    last_hardware_write_status = λ d. d.last_hardware_write_status;
    apply_zone_effect = luma_core.Asus.Write.apply_zone_effect api trimmed;
    apply_zone_frame = apply_zone_frame api trimmed;
    apply_all_off = luma_core.Asus.Write.apply_all_off api trimmed;
    update_zone_metadata = update_metadata trimmed;
  }

  -- An ASUS device never grants a write outright.
  color-asks :
      (d : AsusAuraHidDevice D H)
      → ¬ Permits (check_write (asus_devices.guarded d) zone_color_write) false
  unfolding asus_devices check_write capabilities check_runtime_permission test_flag
  color-asks d p = ground arith

  effect-asks :
      (d : AsusAuraHidDevice D H)
      → ¬ Permits (check_write (asus_devices.guarded d) zone_effect_write) false
  unfolding asus_devices check_write capabilities check_runtime_permission test_flag
  effect-asks d p = ground arith

  unconfirmed-refused :
      {Q : Type 0} (m : DeviceManager (AsusAuraHidDevice D H) Q) (device : ℤ)
      (op : BackendCapability)
      → ((d : AsusAuraHidDevice D H) → ¬ Permits (check_write (asus_devices.guarded d) op) false)
      → device_write_confirmed asus_devices m device ≡ false
      → ¬ Allowed asus_devices m device op
  unconfirmed-refused m device op asks unconfirmed a =
      asks a.target
        (subst (Permits (check_write (asus_devices.guarded a.target) op)) unconfirmed a.permitted)

  -- Without a confirmation for the device in this session, no effect and no all-off that is asked of the
  -- manager changes an ASUS device or the state of HIDAPI behind it, whether dry-run is on or off.
  pub unconfirmed-untouched :
      {Q : Type 0} (m : DeviceManager (AsusAuraHidDevice D H) Q) (device zone : ℤ) (e : RgbEffect D)
      (client_streams : Bool)
      → device_write_confirmed asus_devices m device ≡ false
      → ((luma_core.Manager.Effect.apply_zone_effect asus_devices m device zone e
            client_streams).1.devices
          ≡ m.devices)
        × ((luma_core.Manager.Write.apply_all_off asus_devices m device).2.devices ≡ m.devices)
  unconfirmed-untouched m device zone e client_streams unconfirmed =
      let (effect, off) = writes-Allowed asus_devices m device zone e client_streams in
      let asks : (d : AsusAuraHidDevice D H)
          → ¬ Permits (check_write (asus_devices.guarded d) (operation_of e)) false =
        λ d. elim (Bool-cases (is_animated e)) [
          | inl moving ↦ rw moving (effect-asks d)
          | inr still ↦ rw still (color-asks d)
        ] in
      (
        elim effect [
          | inl same ↦ same
          | inr a ↦ absurd (unconfirmed-refused m device (operation_of e) asks unconfirmed a)
        ],
        elim off [
          | inl same ↦ same
          | inr a ↦ absurd (unconfirmed-refused m device zone_color_write color-asks unconfirmed a)
        ],
      )
