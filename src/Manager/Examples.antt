-- ===== src/Manager/Examples.antt =====
-- A manager with one mock device and one with an ASUS device, and the theorems at them.
use luma_core.Prelude.{
  ℕ, ◌≡◌, refl, ◌⊎◌, inl, inr, ◌↔◌, pos, true, false, List, [], ◌∷◌, some, none, length,
}
use luma_core.Color.{black}
use luma_core.Effect.{
  effect_number, is_animated, is_valid_rgb_effect_type, is_animated_rgb_effect_type,
}
use luma_core.Real.Hundredths.{hundredths}
use luma_core.Log.{new_log}
use luma_core.Log.Examples.{drop_spaces}
use luma_core.Zone.{RgbZone, make_zone, addressable_header}
use luma_core.Aura.Examples.{full_rainbow}
use luma_core.Permission.{
  check_write, check_any_write, test_flag, allows_write_or_confirmation, zone_color_write,
}
use luma_core.Permission.Laws.{Permits}
use luma_core.Engine.{EffectsEngine, has_zone, is_zone_streaming}
use luma_core.Mock.{MockRgbDevice, make_mock_device, default_config, mock_devices, configured_zones}
use luma_core.Manager.{
  RgbDevices, QSettings, DeviceManager, device_at, device_for_zone, device_write_confirmed,
  confirm_device_writes, revoke_device_writes, replace_devices, has_id,
}
use luma_core.Manager.Write.{apply_all_off}
use luma_core.Manager.Effect.{apply_zone_effect, operation_of, prepared_effect}
use luma_core.Manager.Safe.{Allowed, writes-Allowed, apply_zone_effect_iff}
use luma_core.Manager.Session.{confirm_device_writes_lem, replace_devices_lem}
use luma_core.Hid.Examples.{Bus, bus_api}
use luma_core.Asus.{AsusAuraHidDevice}
use luma_core.Asus.Examples.{board}
use luma_core.Manager.Asus.{asus_devices, unconfirmed-untouched}
use luma_core.Manager.Engine.{apply_zone_effect-streams}

abbrev trim_none : List ℕ → List ℕ
trim_none t = t

abbrev mocks : RgbDevices (MockRgbDevice ℕ) ℕ
mocks = mock_devices ⦃r = hundredths⦄ trim_none

abbrev mock : MockRgbDevice ℕ
mock = make_mock_device ⦃r = hundredths⦄ (default_config ⦃r = hundredths⦄)

-- Settings that hold nothing.
abbrev no_settings : QSettings (Unit {0})
no_settings = record { value = λ _ _. none; set_value = λ s _ _. s; remove = λ s _. s }

abbrev idle_engine : EffectsEngine
idle_engine = record { active_zones = []; last_accepted_frames = []; timer_active = false }

abbrev desk : DeviceManager (MockRgbDevice ℕ) (Unit {0})
desk = record {
  devices = mock ∷ [];
  effects_engine = idle_engine;
  activity_log = new_log drop_spaces;
  confirmed_write_device_ids = [];
  dry_run_enabled = false;
  discovery_complete = true;
  discovery_in_progress = false;
  settings = tt;
}

abbrev first_zone : RgbZone ℕ
first_zone = elim (mock.base.zones) [
  | [] ↦ make_zone ⦃r = hundredths⦄ [] addressable_header (pos 0) black
  | z ∷ _ ↦ z
]

writes-Allowed_example :
    (((apply_zone_effect ⦃r = hundredths⦄ mocks desk (pos 0) (pos 1) full_rainbow false).1.devices
        ≡ desk.devices)
      ⊎ Allowed mocks desk (pos 0) (operation_of full_rainbow))
    × (((apply_all_off mocks desk (pos 0)).2.devices ≡ desk.devices)
        ⊎ Allowed mocks desk (pos 0) zone_color_write)
writes-Allowed_example =
    writes-Allowed ⦃r = hundredths⦄ mocks desk (pos 0) (pos 1) full_rainbow false

confirm_device_writes_lem_example :
    ((confirm_device_writes mocks desk (pos 0)).0
      ≡ allows_write_or_confirmation (check_any_write (mocks.guarded mock)))
    × ((confirm_device_writes mocks desk (pos 0)).0 ≡ true
        → device_write_confirmed mocks (confirm_device_writes mocks desk (pos 0)).1 (pos 0) ≡ true)
    × ((revoke_device_writes mocks desk (pos 0)).0 ≡ true)
    × (device_write_confirmed mocks (revoke_device_writes mocks desk (pos 0)).1 (pos 0) ≡ false)
unfolding device_at
confirm_device_writes_lem_example = confirm_device_writes_lem mocks desk (pos 0) 0 mock refl

replace_devices_lem_example :
    (length (replace_devices mocks no_settings trim_none desk (mock ∷ mock ∷ [])).devices ≡ 2)
    × (device_write_confirmed mocks
          (replace_devices mocks no_settings trim_none desk (mock ∷ mock ∷ []))
          (pos 0)
        ≡ false)
    × (is_zone_streaming
          (replace_devices mocks no_settings trim_none desk (mock ∷ mock ∷ [])).effects_engine
          (record { device_index = pos 0; zone_index = pos 1 })
        ≡ false)
replace_devices_lem_example =
    replace_devices_lem mocks no_settings trim_none desk (mock ∷ mock ∷ []) (pos 0)
      (record { device_index = pos 0; zone_index = pos 1 })

there : device_for_zone mocks desk (pos 0) (pos 0) ≡ some ((0, mock), (0, first_zone))
unfolding device_for_zone device_at mock_devices make_mock_device configured_zones default_config
there = refl

rainbow_sent :
    (apply_zone_effect ⦃r = hundredths⦄ mocks desk (pos 0) (pos 0) full_rainbow false).0 ≡ true
unfolding mock_devices luma_core.Device.supports_zone_effect make_mock_device default_config
    is_valid_rgb_effect_type test_flag is_animated_rgb_effect_type check_write
    luma_core.Device.apply_zone_effect
rainbow_sent =
    (apply_zone_effect_iff ⦃r = hundredths⦄ mocks desk (pos 0) (pos 0) full_rainbow false 0 mock 0
        first_zone there).1
      (refl, inr (refl, inl refl, refl))

apply_zone_effect-streams_example :
    ((is_zone_streaming
          (apply_zone_effect ⦃r = hundredths⦄ mocks desk
            (pos 0)
            (pos 0)
            full_rainbow
            false).1.effects_engine
          (record { device_index = pos 0; zone_index = pos 0 })
        ≡ true)
      ↔ ((is_animated full_rainbow ≡ true)
          × (mocks.uses_local_frame_rendering_for_effect mock
                (pos 0)
                (prepared_effect ⦃r = hundredths⦄ mocks mock (pos 0) full_rainbow)
              ≡ true)
          × (false ≡ false)))
    × (is_zone_streaming
          (apply_zone_effect ⦃r = hundredths⦄ mocks desk
            (pos 0)
            (pos 0)
            full_rainbow
            false).1.effects_engine
          (record { device_index = pos 0; zone_index = pos 1 })
        ≡ false)
unfolding has_zone
apply_zone_effect-streams_example =
    apply_zone_effect-streams ⦃r = hundredths⦄ mocks desk (pos 0) (pos 0) full_rainbow false 0 mock
      0 first_zone (record { device_index = pos 0; zone_index = pos 1 }) there refl rainbow_sent
      (λ same. let bad : pos 1 ≡ pos 0 = cc in cc)

apply_zone_effect_iff_example :
    ((apply_zone_effect ⦃r = hundredths⦄ mocks desk (pos 0) (pos 0) full_rainbow false).0 ≡ true)
    ↔ ((mocks.supports_zone_effect mock (pos 0) (pos (effect_number full_rainbow.kind)) ≡ true)
        × (((desk.dry_run_enabled ≡ true)
              × Permits (check_write (mocks.guarded mock) (operation_of full_rainbow)) true)
            ⊎ ((desk.dry_run_enabled ≡ false)
                × Permits
                    (check_write (mocks.guarded mock) (operation_of full_rainbow))
                    (device_write_confirmed mocks desk (pos 0))
                × ((mocks.apply_zone_effect mock
                      (pos 0)
                      (prepared_effect ⦃r = hundredths⦄ mocks mock (pos 0) full_rainbow)).0
                    ≡ true))))
apply_zone_effect_iff_example =
    apply_zone_effect_iff ⦃r = hundredths⦄ mocks desk (pos 0) (pos 0) full_rainbow false 0 mock 0
      first_zone there

-- A manager with the ASUS device of three zones, which nobody has confirmed.
abbrev boards : RgbDevices (AsusAuraHidDevice ℕ Bus) ℕ
boards = asus_devices ⦃r = hundredths⦄ bus_api trim_none

abbrev rig : DeviceManager (AsusAuraHidDevice ℕ Bus) (Unit {0})
rig = record {
  devices = board ∷ [];
  effects_engine = idle_engine;
  activity_log = new_log drop_spaces;
  confirmed_write_device_ids = [];
  dry_run_enabled = false;
  discovery_complete = true;
  discovery_in_progress = false;
  settings = tt;
}

rig-unconfirmed : device_write_confirmed boards rig (pos 0) ≡ false
unfolding device_write_confirmed device_at has_id
rig-unconfirmed = refl

unconfirmed-untouched_example :
    ((apply_zone_effect ⦃r = hundredths⦄ boards rig (pos 0) (pos 2) full_rainbow false).1.devices
      ≡ rig.devices)
    × ((apply_all_off boards rig (pos 0)).2.devices ≡ rig.devices)
unconfirmed-untouched_example =
    unconfirmed-untouched ⦃r = hundredths⦄ bus_api trim_none rig (pos 0) (pos 2) full_rainbow false
      rig-unconfirmed
