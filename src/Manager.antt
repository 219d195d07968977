-- ===== src/Manager.antt =====
-- core/DeviceManager.h and core/DeviceManager.cpp: the devices with the engine, the log, the confirmed
-- writes and the states of dry-run and of discovery. The devices are behind the interface `RgbDevices`,
-- since each backend has its own state `V`; `QSettings` is an interface too, with its state `Q`. The
-- signals, the backends and the profiles are not modelled here.
pub mod Write
pub mod Effect
pub mod Safe
pub mod Session
pub mod Engine
pub mod Asus
pub mod Examples
use luma_core.Prelude.{
  ℕ, ℤ, pos, negsuc, ltb_ℤ, ◌==ℤ◌, Bool, true, false, not, ◌&&◌, ◌||◌, List, [], ◌∷◌, ◌++◌, Option,
  some, none, length, get_elem?, set, if◌then◌else◌, ◌==◌, same_bool,
}
use luma_core.Text.{same_codes}
use luma_core.Message.{Message, format, end, num, int, txt, is_empty}
use luma_core.Color.{RgbColor}
use luma_core.Effect.{RgbEffect}
use luma_core.Zone.{RgbZone, led_count}
use luma_core.Log.{ActivityLog, LogCategory, log_info, log_warning, log_error}
use luma_core.Permission.{Guarded, check_any_write, allows_write_or_confirmation}
use luma_core.Device.{
  RgbDevice, with_index, zone_at, set_rgb_controller_override, clear_rgb_controller_override,
}
use luma_core.Engine.{EffectsEngine, ZoneKey, stop_all, start_zone, stop_zone, stop_device}

-- The methods of a device that the manager calls.
pub record RgbDevices (V D : Type 0) : Type 0 where
  pub base : V → RgbDevice D
  pub with_base : V → RgbDevice D → V
  pub guarded : V → Guarded
  pub supports_zone_effect : V → ℤ → ℤ → Bool
  pub supports_zone_effect_speed : V → ℤ → ℤ → Bool
  pub supports_zone_effect_brightness : V → ℤ → ℤ → Bool
  pub uses_local_frame_rendering_for_effect : V → ℤ → RgbEffect D → Bool
  pub preview_zone_effect_write : V → ℤ → RgbEffect D → Message
  pub last_hardware_write_status : V → Message
  pub apply_zone_effect : V → ℤ → RgbEffect D → Bool × V
  pub apply_zone_frame : V → ℤ → List RgbColor → Bool × V
  pub apply_all_off : V → Bool × V
  pub update_zone_metadata : V → ℤ → List ℕ → ℤ → Bool × V

-- `QSettings`, under the keys of the RGB controller override.
pub record QSettings (Q : Type 0) : Type 0 where
  pub value : Q → List ℕ → Option Bool
  pub set_value : Q → List ℕ → Bool → Q
  pub remove : Q → List ℕ → Q

pub record DeviceManager (V Q : Type 0) : Type 0 where
  pub devices : List V
  pub effects_engine : EffectsEngine
  pub activity_log : ActivityLog
  pub confirmed_write_device_ids : List (List ℕ)
  pub dry_run_enabled : Bool
  pub discovery_complete : Bool
  pub discovery_in_progress : Bool
  pub settings : Q

-- `QSet::contains` and `QSet::remove`.
unfoldable pub has_id : List (List ℕ) → List ℕ → Bool
has_id [] id = false
has_id (x ∷ xs) id = if same_codes x id then true else has_id xs id

unfoldable pub remove_id : List ℕ → List (List ℕ) → List (List ℕ)
remove_id id [] = []
remove_id id (x ∷ xs) = let rest = remove_id id xs in if same_codes x id then rest else x ∷ rest

abbrev pub paired {ℓ κ} : {A : Type ℓ} {B : Type κ} → A → Option B → Option (A × B)
paired a none = none
paired a (some b) = some (a, b)

module _ {V D Q : Type 0} (i : RgbDevices V D) where
  unfoldable pub device_at : DeviceManager V Q → ℤ → Option (ℕ × V)
  device_at m (negsuc _) = none
  device_at m (pos n) = with_index n (get_elem? m.devices n)

  -- The device, with its place, and the zone, with its place.
  unfoldable pub device_for_zone : DeviceManager V Q → ℤ → ℤ → Option ((ℕ × V) × (ℕ × RgbZone D))
  unfolding device_at
  device_for_zone m device zone = elim (device_at m device) [
    | none ↦ none
    | some (n, v) ↦ paired (n, v) (zone_at (i.base v).zones zone)
  ]

  unfoldable pub device_write_confirmed : DeviceManager V Q → ℤ → Bool
  unfolding device_at has_id
  device_write_confirmed m device = elim (device_at m device) [
    | none ↦ false
    | some (_, v) ↦ has_id m.confirmed_write_device_ids (i.base v).id
  ]

  abbrev pub with_log : DeviceManager V Q → ActivityLog → DeviceManager V Q
  with_log m l = record m { activity_log = l }

  abbrev pub put_device : DeviceManager V Q → ℕ → V → DeviceManager V Q
  put_device m n v = record m { devices = set m.devices n v }

  unfoldable pub set_discovery_state : DeviceManager V Q → Bool → Bool → DeviceManager V Q
  set_discovery_state m complete in_progress = record m {
    discovery_complete = complete;
    discovery_in_progress = in_progress;
  }

  unfoldable pub set_dry_run_enabled : DeviceManager V Q → Bool → DeviceManager V Q
  set_dry_run_enabled m enabled =
      if same_bool m.dry_run_enabled enabled
      then m
      else with_log (record m { dry_run_enabled = enabled })
          (log_info m.activity_log LogCategory.backend (
            if enabled
            then format "Dry-run mode enabled. Writes will be logged but not applied." end
            else format "Dry-run mode disabled. Writes will be applied." end))

  unfoldable pub confirm_device_writes : DeviceManager V Q → ℤ → Bool × DeviceManager V Q
  unfolding device_at has_id
  confirm_device_writes m device = elim (device_at m device) [
    | none ↦ (false, m)
    | some (_, v) ↦
        let permission = check_any_write (i.guarded v) in
        if not (allows_write_or_confirmation permission)
        then (
          false,
          with_log m (log_warning m.activity_log LogCategory.permission permission.reason),
        )
        else if has_id m.confirmed_write_device_ids (i.base v).id
        then (true, m)
        else (
          true,
          with_log
              (record m {
                confirmed_write_device_ids = (i.base v).id ∷ m.confirmed_write_device_ids;
              })
              (log_warning m.activity_log LogCategory.permission (
                format "Confirmed hardware writes for '%1' for this daemon session."
                  (txt (i.base v).name end))),
        )
  ]

  unfoldable pub revoke_device_writes : DeviceManager V Q → ℤ → Bool × DeviceManager V Q
  unfolding device_at has_id remove_id
  revoke_device_writes m device = elim (device_at m device) [
    | none ↦ (false, m)
    | some (_, v) ↦
        if has_id m.confirmed_write_device_ids (i.base v).id
        then (
          true,
          with_log
              (record m {
                confirmed_write_device_ids = remove_id (i.base v).id m.confirmed_write_device_ids;
              })
              (log_info m.activity_log LogCategory.permission
                (format "Revoked hardware write confirmation for '%1'." (txt (i.base v).name end))),
        )
        else (true, m)
  ]

module _ {V D Q : Type 0} (i : RgbDevices V D) (q : QSettings Q) (key : List ℕ → List ℕ) where
  unfoldable pub apply_saved_override : Q → V → V
  apply_saved_override settings v = elim (q.value settings (key (i.base v).id)) [
    | none ↦ v
    | some b ↦ i.with_base v (set_rgb_controller_override (i.base v) b)
  ]

  unfoldable pub register_device : DeviceManager V Q → V → DeviceManager V Q
  unfolding apply_saved_override
  register_device m v = record m { devices = m.devices ++ (apply_saved_override m.settings v ∷ []) }

  -- The loop over the devices that are given, less those that are null.
  unfoldable pub register_all : DeviceManager V Q → List V → DeviceManager V Q
  unfolding register_device
  register_all m [] = m
  register_all m (v ∷ vs) = register_all (register_device m v) vs

  -- `replaceDevices`, and the first statements of `prepareBackendDiscovery`, start from this.
  unfoldable pub forget_devices : DeviceManager V Q → DeviceManager V Q
  forget_devices m = record m {
    effects_engine = stop_all m.effects_engine;
    devices = [];
    confirmed_write_device_ids = [];
  }

  unfoldable pub replace_devices : DeviceManager V Q → List V → DeviceManager V Q
  unfolding register_all forget_devices
  replace_devices m vs =
      let n = register_all (forget_devices m) vs in
      with_log i n (
        log_info n.activity_log LogCategory.device
          (format "Refreshed %1 device(s)." (num (length n.devices) end)))

  -- A device without a backend gets the one that found it.
  unfoldable pub with_backend : List ℕ → V → V
  with_backend backend v =
      if length (i.base v).backend_id == 0
      then i.with_base v (record (i.base v) { backend_id = backend })
      else v

  unfoldable pub register_found : List ℕ → DeviceManager V Q → List V → DeviceManager V Q
  unfolding register_device with_backend
  register_found backend m [] = m
  register_found backend m (v ∷ vs) =
      register_found backend (register_device m (with_backend backend v)) vs

  unfoldable pub finish_backend_discovery :
      DeviceManager V Q → List ℕ → List V → Message → DeviceManager V Q
  unfolding register_found set_discovery_state
  finish_backend_discovery m backend vs error =
      let n = register_found backend m vs in
      let warned =
        if length n.devices == 0 && not (is_empty error)
        then log_warning n.activity_log LogCategory.backend error
        else n.activity_log in
      with_log i (set_discovery_state i n true false) (
        log_info warned LogCategory.device
          (format "Loaded %1 device(s)." (num (length n.devices) end)))

  unfoldable pub mark_device_rgb_controller :
      DeviceManager V Q → ℤ → Bool → Bool × DeviceManager V Q
  unfolding device_at
  mark_device_rgb_controller m device b = elim (device_at i m device) [
    | none ↦ (false, m)
    | some (n, v) ↦
        let marked = put_device i m n (i.with_base v (set_rgb_controller_override (i.base v) b)) in
        (
          true,
          with_log i (record marked { settings = q.set_value m.settings (key (i.base v).id) b })
              (log_info m.activity_log LogCategory.backend (
                if b
                then format "Marked '%1' as an RGB controller." (txt (i.base v).name end)
                else format "Removed '%1' from RGB controller filter." (txt (i.base v).name end))),
        )
  ]

  unfoldable pub clear_device_rgb_controller_override :
      DeviceManager V Q → ℤ → Bool × DeviceManager V Q
  unfolding device_at
  clear_device_rgb_controller_override m device = elim (device_at i m device) [
    | none ↦ (false, m)
    | some (n, v) ↦
        let cleared = put_device i m n (i.with_base v (clear_rgb_controller_override (i.base v))) in
        (
          true,
          with_log i (record cleared { settings = q.remove m.settings (key (i.base v).id) })
              (log_info m.activity_log LogCategory.backend (
                format "Reset RGB controller filter override for '%1'." (txt (i.base v).name end))),
        )
  ]
