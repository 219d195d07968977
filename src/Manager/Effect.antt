-- ===== src/Manager/Effect.antt =====
-- core/DeviceManager.cpp, `applyZoneEffect` and `setZoneStaticColor`.
use luma_core.Prelude.{
  ℕ, ℤ, pos, Bool, true, false, not, ◌&&◌, some, none, length, if◌then◌else◌, ◌==◌,
}
use luma_core.Message.{Message, format, end, num, txt, sub, is_empty}
use luma_core.Color.{RgbColor, to_hex_string}
use luma_core.Effect.{
  RgbEffect, is_animated, set_speed, set_brightness, make_effect, static, effect_number,
  rgb_effect_type_to_string,
}
use luma_core.Real.{Real}
use luma_core.Zone.{RgbZone}
use luma_core.Log.{ActivityLog, LogCategory, log_info, log_warning, log_error}
use luma_core.Permission.{BackendCapability, zone_color_write, zone_effect_write}
use luma_core.Permission.Gate.{evaluate}
use luma_core.Engine.{ZoneKey, start_zone, stop_zone}
use luma_core.Engine.Frame.{compute_frame}
use luma_core.Manager.{
  RgbDevices, DeviceManager, device_for_zone, device_write_confirmed, with_log, put_device,
}
use luma_core.Manager.Write.{zone_name_of, zone_leds_of, log_status}

abbrev pub operation_of : {D : Type 0} → RgbEffect D → BackendCapability
operation_of e = if is_animated e then zone_effect_write else zone_color_write

module _ {V D : Type 0} ⦃r : Real D⦄ (i : RgbDevices V D) where
  -- `effectToApply`: what the zone does not support is set to its default.
  unfoldable pub prepared_effect : V → ℤ → RgbEffect D → RgbEffect D
  prepared_effect v zone e =
      let number = pos (effect_number e.kind) in
      let slow =
        if i.supports_zone_effect_speed v zone number then e else set_speed e (r.literal 1 0) in
      if i.supports_zone_effect_brightness v zone number
      then slow
      else set_brightness slow (pos 100)

  unfoldable pub dry_run_summary : V → ℤ → RgbZone D → RgbEffect D → Message
  dry_run_summary v zone z e =
      let would =
        if is_animated e
        then format "Would set %1 / %2 to %3 (speed %4x, brightness %5%)." (
            txt (i.base v).name (
              txt z.name (
                txt (rgb_effect_type_to_string e.kind)
                  (txt (r.print e.speed) (num e.brightness end)))))
        else format "Would set %1 / %2 to %3 (brightness %4%)." (
            txt (i.base v).name
              (txt z.name (txt (to_hex_string e.color) (num e.brightness end)))) in
      let preview = i.preview_zone_effect_write v zone e in
      if is_empty preview then would else format "%1 %2" (sub would (sub preview end))

  unfoldable pub effect_failure : V → Message
  effect_failure v =
      if is_empty (i.last_hardware_write_status v)
      then format "Could not apply effect to selected zone." end
      else format "Could not apply effect to selected zone. %1"
          (sub (i.last_hardware_write_status v) end)

  -- The device after the first frame of a static effect that is rendered here.
  unfoldable pub first_frame : Bool → V → ℤ → RgbEffect D → V
  first_frame local_rendering v zone e =
      let frame = compute_frame e (pos (zone_leds_of i v zone)) (r.literal 0 0) in
      if local_rendering && not (length frame == 0) then (i.apply_zone_frame v zone frame).1 else v

module _ {V D Q : Type 0} ⦃r : Real D⦄ (i : RgbDevices V D) where
  -- What follows a write that succeeded.
  unfoldable pub effect_applied :
      DeviceManager V Q
      → ZoneKey
      → ℕ
      → V
      → Bool
      → Bool
      → RgbEffect D
      → ActivityLog
      → DeviceManager V Q
  unfolding first_frame
  effect_applied m k n w local_rendering client_streams e l =
      let named = zone_name_of i w k.zone_index in
      let moving = put_device i m n w in
      let still = put_device i m n (first_frame i local_rendering w k.zone_index e) in
      if is_animated e
      then with_log i
          (record moving {
            effects_engine =
                if local_rendering && not client_streams
                then start_zone m.effects_engine k
                else stop_zone m.effects_engine k;
          })
          (log_info l LogCategory.effect (
            format "%1 / %2 set to %3 (speed %4x, brightness %5%)." (
              txt (i.base w).name (
                txt named (
                  txt (rgb_effect_type_to_string e.kind)
                    (txt (r.print e.speed) (num e.brightness end)))))))
      else with_log i (record still { effects_engine = stop_zone m.effects_engine k })
          (log_info l LogCategory.effect (
            format "%1 / %2 set to %3 (brightness %4%)." (
              txt (i.base w).name
                (txt named (txt (to_hex_string e.color) (num e.brightness end))))))

  unfoldable pub apply_zone_effect :
      DeviceManager V Q → ℤ → ℤ → RgbEffect D → Bool → Bool × DeviceManager V Q
  unfolding device_for_zone prepared_effect dry_run_summary effect_failure effect_applied
  apply_zone_effect m device zone effect client_streams = elim (device_for_zone i m device zone) [
    | none ↦ (
      false,
      with_log i m (
          log_error m.activity_log LogCategory.effect
            (format "Could not apply effect: invalid device or zone." end)),
    )
    | some ((n, v), (_, z)) ↦
        let e = prepared_effect i v zone effect in
        let local_rendering = i.uses_local_frame_rendering_for_effect v zone e in
        let (outcome, l) =
          evaluate m.dry_run_enabled (i.guarded v) (operation_of effect) m.activity_log
            (dry_run_summary i v zone z e) (device_write_confirmed i m device) in
        let (success, w) = i.apply_zone_effect v zone e in
        let key : ZoneKey = record { device_index = device; zone_index = zone } in
        if not (i.supports_zone_effect v zone (pos (effect_number effect.kind)))
        then (
          false,
          with_log i m (
              log_warning m.activity_log LogCategory.effect (
                format "%1 / %2 does not support %3." (
                  txt (i.base v).name
                    (txt z.name (txt (rgb_effect_type_to_string effect.kind) end))))),
        )
        else if not outcome.report_success
        then (false, with_log i m l)
        else if not outcome.apply_write
        then (true, with_log i m l)
        else if not success
        then (
          false,
          with_log i (put_device i m n w) (log_error l LogCategory.effect (effect_failure i w)),
        )
        else (true, effect_applied m key n w local_rendering client_streams e (log_status i l w))
  ]

  unfoldable pub set_zone_color : DeviceManager V Q → ℤ → ℤ → RgbColor → Bool × DeviceManager V Q
  unfolding apply_zone_effect
  set_zone_color m device zone color =
      apply_zone_effect m device zone (make_effect static color (r.literal 1 0) (pos 100)) false
