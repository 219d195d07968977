-- ===== src/Manager/Write.antt =====
-- core/DeviceManager.cpp, `updateZone` and `applyAllOff`, with what the writes to a device share.
use luma_core.Prelude.{
  ℕ, ℤ, pos, ltb_ℤ, ◌==ℤ◌, Bool, true, false, not, ◌&&◌, ◌||◌, List, [], ◌∷◌, some, none, length,
  if◌then◌else◌, ◌==◌, suc,
}
use luma_core.Text.{same_codes}
use luma_core.Message.{Message, blank, format, end, num, int, txt, sub, is_empty}
use luma_core.Zone.{led_count}
use luma_core.Log.{ActivityLog, LogCategory, log_info, log_warning, log_error}
use luma_core.Permission.{zone_color_write}
use luma_core.Permission.Gate.{evaluate}
use luma_core.Device.{zone_at}
use luma_core.Engine.{EffectsEngine, stop_zone}
use luma_core.Manager.{
  RgbDevices, DeviceManager, device_at, device_for_zone, device_write_confirmed, with_log,
  put_device,
}

-- The loop that stops the zones from `zone` on, as many as are left.
unfoldable pub stop_zones {ℓ} : {A : Type ℓ} → ℤ → ℕ → List A → EffectsEngine → EffectsEngine
stop_zones device zone [] e = e
stop_zones device zone (z ∷ zs) e =
    stop_zones device (suc zone) zs
      (stop_zone e (record { device_index = device; zone_index = pos zone }))

module _ {V D : Type 0} (i : RgbDevices V D) where
  abbrev pub zone_name_of : V → ℤ → List ℕ
  zone_name_of v zone = elim (zone_at (i.base v).zones zone) [ none ↦ [] | some (_, z) ↦ z.name ]

  abbrev pub zone_leds_of : V → ℤ → ℕ
  zone_leds_of v zone = elim (zone_at (i.base v).zones zone) [
    | none ↦ 0
    | some (_, z) ↦ led_count z
  ]

  -- The entries of a change of metadata that took place.
  unfoldable pub log_changes : ActivityLog → V → List ℕ → List ℕ → ℕ → ℤ → Bool → Bool → ActivityLog
  log_changes l v name old_name old_count count name_changed count_changed =
      let updated =
        log_info l LogCategory.zone
          (format "%1 / %2 updated (%3 LEDs)." (txt (i.base v).name (txt name (int count end)))) in
      let renamed =
        if name_changed && not (same_codes old_name name)
        then log_info updated LogCategory.zone
            (format "Renamed zone '%1' to '%2'." (txt old_name (txt name end)))
        else updated in
      if count_changed && not (pos old_count ==ℤ count)
      then log_info renamed LogCategory.zone
          (format "Changed '%1' from %2 to %3 LED(s)." (txt name (num old_count (int count end))))
      else renamed

  unfoldable pub all_off_failure : V → Message
  all_off_failure v =
      if is_empty (i.last_hardware_write_status v)
      then format "Could not turn off selected device." end
      else format "%1 %2" (
          sub (format "Could not turn off selected device." end)
            (sub (i.last_hardware_write_status v) end))

  abbrev pub log_status : ActivityLog → V → ActivityLog
  log_status l v =
      if is_empty (i.last_hardware_write_status v)
      then l
      else log_info l LogCategory.backend (i.last_hardware_write_status v)

module _ {V D Q : Type 0} (i : RgbDevices V D) where
  -- `updateZone`; with a failure comes the text that is put into `errorMessage`.
  unfoldable pub update_zone :
      (List ℕ → List ℕ)
      → DeviceManager V Q
      → ℤ
      → ℤ
      → List ℕ
      → ℤ
      → Bool × Message × DeviceManager V Q
  unfolding device_for_zone log_changes
  update_zone trimmed m device zone name count =
      let refuse = λ (error : Message).
        let out : Bool × Message × DeviceManager V Q =
          (false, error, with_log i m (log_error m.activity_log LogCategory.zone error)) in
        out in
      elim (device_for_zone i m device zone) [
        | none ↦ refuse (format "Could not update selected zone." end)
        | some ((n, v), (_, z)) ↦
            let sanitized = trimmed name in
            let will_change =
              not (same_codes sanitized z.name) || not (count ==ℤ pos (led_count z)) in
            let (metadata_changed, w) = i.update_zone_metadata v zone sanitized count in
            let name_changed = not (same_codes z.name (zone_name_of i w zone)) in
            let count_changed = not (led_count z == zone_leds_of i w zone) in
            let moved = put_device i m n w in
            if length sanitized == 0
            then refuse (format "Zone name cannot be empty." end)
            else if ltb_ℤ count (pos 1)
            then refuse (format "LED count must be at least 1." end)
            else if not metadata_changed && will_change
            then (
              false,
              format "Could not update %1 / %2 metadata." (txt (i.base w).name (txt sanitized end)),
              with_log i moved (
                  log_error m.activity_log LogCategory.zone (
                    format "Could not update %1 / %2 metadata."
                      (txt (i.base w).name (txt sanitized end)))),
            )
            else if not metadata_changed && not name_changed && not count_changed
            then (
              true,
              blank,
              with_log i moved (
                  log_info m.activity_log LogCategory.zone (
                    format "%1 / %2 is already up to date."
                      (txt (i.base w).name (txt sanitized end)))),
            )
            else (
              true,
              blank,
              with_log i moved (
                  log_changes i m.activity_log w sanitized z.name (led_count z) count name_changed
                    count_changed),
            )
      ]

  unfoldable pub apply_all_off : DeviceManager V Q → ℤ → Bool × Message × DeviceManager V Q
  unfolding device_at device_write_confirmed all_off_failure stop_zones
  apply_all_off m device = elim (device_at i m device) [
    | none ↦ (
      false,
      format "Could not turn off selected device." end,
      with_log i m (
          log_error m.activity_log LogCategory.effect
            (format "Could not turn off selected device." end)),
    )
    | some (n, v) ↦
        let (outcome, l) =
          evaluate m.dry_run_enabled (i.guarded v) zone_color_write m.activity_log
            (format "Would turn off all zones on %1." (txt (i.base v).name end))
            (device_write_confirmed i m device) in
        let (success, w) = i.apply_all_off v in
        let moved = put_device i m n w in
        let engine = stop_zones device 0 (i.base w).zones m.effects_engine in
        if not outcome.report_success
        then (false, blank, with_log i m l)
        else if not outcome.apply_write
        then (true, blank, with_log i m l)
        else if not success
        then (
          false,
          all_off_failure i w,
          with_log i moved (log_error l LogCategory.effect (all_off_failure i w)),
        )
        else (
          true,
          blank,
          with_log i (record moved { effects_engine = engine })
              (log_warning (log_status i l w) LogCategory.effect
                (format "%1 all zones set to off." (txt (i.base w).name end))),
        )
  ]
