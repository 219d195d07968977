-- ===== src/Asus/Write.antt =====
-- AsusAuraHidDevice.cpp, the methods that write to the hardware. A write returns whether it succeeded
-- and the device after it.
use luma_core.Prelude.{
  ℕ, suc, zero, ℤ, pos, Bool, true, false, not, ◌||◌, List, [], ◌∷◌, length, none, some,
  if◌then◌else◌, ltb_ℤ, ◌==ℤ◌, ltb, ◌&&◌,
}
use luma_core.Message.{Message, blank, format, end, int, num, txt, sub}
use luma_core.Color.{RgbColor, black}
use luma_core.Effect.{RgbEffect, make_effect, static, is_animated}
use luma_core.Real.{Real}
use luma_core.Zone.{RgbZone, led_count, set_color, set_led_colors, set_effect}
use luma_core.Device.{RgbDevice, zone_at, put_zone, update_zone_metadata}
use luma_core.Aura.{AsusAuraHidPacket, ProtocolResult, ok, fail, max_research_leds}
use luma_core.Aura.Write.{static_color_packet}
use luma_core.Aura.Write.Direct.{direct_frame_packet, all_off_packet}
use luma_core.Engine.Frame.{compute_frame}
use luma_core.Hid.{Hidapi, write_reports}
use luma_core.Asus.{AsusAuraHidDevice, write_disabled_reason, fixed_zone_count, is_addressable_zone}

module _ {D : Type 0} {H : Type 0} where
  abbrev pub with_status : AsusAuraHidDevice D H → Message → AsusAuraHidDevice D H
  with_status d status = record d { last_hardware_write_status = status }

  abbrev pub with_base : AsusAuraHidDevice D H → RgbDevice D → AsusAuraHidDevice D H
  with_base d base = record d { base = base }

module _ {D : Type 0} {H : Type 0} (api : Hidapi H) (trimmed : List ℕ → List ℕ) where
  unfoldable pub send_approved_packet :
      ProtocolResult AsusAuraHidPacket
      → Message
      → AsusAuraHidDevice D H
      → Bool × AsusAuraHidDevice D H
  send_approved_packet (fail error) operation d =
      (false, with_status d (format "ASUS Aura HID %1 skipped: %2" (sub operation (sub error end))))
  send_approved_packet (ok packet) operation d =
      let (write, hid) = write_reports api trimmed d.device.path packet.reports d.hid in
      let sent = record d { hid = hid } in
      if not packet.hardware_write_approved
      then (
        false,
        with_status d (
            format "ASUS Aura HID %1 skipped: packet was not hardware-approved."
              (sub operation end)),
      )
      else if not write.success
      then (
        false,
        with_status sent (
            format "ASUS Aura HID %1 failed on %2: %3"
              (sub operation (txt d.device.path (sub write.error end)))),
      )
      else (
        true,
        with_status sent (
            format "ASUS Aura HID %1 sent on interface %2 path %3: %4 report(s), %5 byte(s). %6" (
              sub operation (
                int d.device.interface_number (
                  txt d.device.path (
                    num (length packet.reports)
                      (num write.bytes_written (sub packet.summary end))))))),
      )

module _ {D : Type 0} ⦃r : Real D⦄ where
  -- The zone after an effect was sent.
  unfoldable pub shown : RgbEffect D → RgbZone D → RgbZone D
  shown e z =
      let given = set_effect z e in
      if is_animated e
      then set_led_colors given (compute_frame e (pos (led_count given)) (r.literal 0 0))
      else set_color given e.color

  abbrev pub off_effect : RgbEffect D
  off_effect = make_effect static black (r.literal 1 0) (pos 0)

  -- The loop of `applyLocalAllOff`, behind the given number of fixed zones.
  unfoldable pub off_from : ℕ → List (RgbZone D) → List (RgbZone D)
  off_from n [] = []
  off_from zero (z ∷ zs) = set_color (set_effect z off_effect) black ∷ off_from zero zs
  off_from (suc n) (z ∷ zs) = z ∷ off_from n zs

module _ {D : Type 0} {H : Type 0} ⦃r : Real D⦄ where
  -- The packet of an effect on a zone, which `applyZoneEffect` sends and `previewZoneEffectWrite` shows.
  unfoldable pub effect_packet :
      AsusAuraHidDevice D H → ℤ → RgbZone D → RgbEffect D → ProtocolResult AsusAuraHidPacket
  effect_packet d zone z e =
      if is_animated e
      then direct_frame_packet d.config_table zone
          (compute_frame e (pos (led_count z)) (r.literal 0 0)) true
      else static_color_packet r d.config_table zone e.color (pos (led_count z)) (pos e.brightness)

  unfoldable pub apply_zone_effect :
      Hidapi H
      → (List ℕ → List ℕ)
      → AsusAuraHidDevice D H
      → ℤ
      → RgbEffect D
      → Bool × AsusAuraHidDevice D H
  unfolding send_approved_packet effect_packet shown
  apply_zone_effect api trimmed d zone e = elim (zone_at d.base.zones zone) [
    | none ↦ (false, with_status d (format "ASUS Aura HID write skipped: invalid zone." end))
    | some (i, z) ↦
        let (success, sent) =
          send_approved_packet api trimmed (effect_packet d zone z e) (format "write" end)
            (with_status d blank) in
        if not d.config_table_verified
        then (
          false,
          with_status d
              (format "ASUS Aura HID write skipped: %1" (sub (write_disabled_reason d) end)),
        )
        else if not (is_addressable_zone d zone)
        then (
          false,
          with_status d
              (format "ASUS Aura HID write skipped: the fixed mainboard zone is read-only." end),
        )
        else if not success
        then (false, sent)
        else (true, with_base sent (put_zone d.base i (shown e z)))
  ]

  unfoldable pub set_zone_static_color :
      Hidapi H
      → (List ℕ → List ℕ)
      → AsusAuraHidDevice D H
      → ℤ
      → RgbColor
      → Bool × AsusAuraHidDevice D H
  unfolding apply_zone_effect
  set_zone_static_color api trimmed d zone color =
      apply_zone_effect api trimmed d zone (make_effect static color (r.literal 1 0) (pos 25))

  unfoldable pub preview_zone_effect_write : AsusAuraHidDevice D H → ℤ → RgbEffect D → Message
  unfolding effect_packet
  preview_zone_effect_write d zone e = elim (zone_at d.base.zones zone) [
    | none ↦ blank
    | some (_, z) ↦
        if not d.config_table_verified
        then write_disabled_reason d
        else elim (effect_packet d zone z e) [ ok packet ↦ packet.summary | fail error ↦ error ]
  ]

  unfoldable pub apply_local_all_off : AsusAuraHidDevice D H → AsusAuraHidDevice D H
  unfolding off_from
  apply_local_all_off d =
      with_base d (record (d.base) { zones = off_from (fixed_zone_count d) d.base.zones })

  unfoldable pub apply_all_off :
      Hidapi H → (List ℕ → List ℕ) → AsusAuraHidDevice D H → Bool × AsusAuraHidDevice D H
  unfolding send_approved_packet apply_local_all_off
  apply_all_off api trimmed d =
      let (success, sent) =
        send_approved_packet api trimmed (all_off_packet d.config_table) (format "all-off" end)
          (with_status d blank) in
      if not d.config_table_verified
      then (
        false,
        with_status d
            (format "ASUS Aura HID all-off skipped: %1" (sub (write_disabled_reason d) end)),
      )
      else if not success
      then (false, sent)
      else (true, apply_local_all_off sent)

module _ {D : Type 0} {H : Type 0} where
  unfoldable pub apply_zone_frame :
      Hidapi H
      → (List ℕ → List ℕ)
      → AsusAuraHidDevice D H
      → ℤ
      → List RgbColor
      → Bool × AsusAuraHidDevice D H
  unfolding send_approved_packet
  apply_zone_frame api trimmed d zone colors = elim (zone_at d.base.zones zone) [
    | none ↦ (false, with_status d (format "ASUS Aura HID stream frame skipped: invalid zone." end))
    | some (i, z) ↦
        let (success, sent) =
          send_approved_packet api trimmed (direct_frame_packet d.config_table zone colors false)
            (format "stream frame" end) (with_status d blank) in
        if not d.config_table_verified
        then (
          false,
          with_status d
              (format "ASUS Aura HID stream frame skipped: %1" (sub (write_disabled_reason d) end)),
        )
        else if not success
        then (false, sent)
        else (true, with_base sent (put_zone d.base i (set_led_colors z colors)))
  ]

  -- `AsusAuraHidDevice::updateZoneMetadata`.
  unfoldable pub update_metadata :
      (List ℕ → List ℕ) → AsusAuraHidDevice D H → ℤ → List ℕ → ℤ → Bool × AsusAuraHidDevice D H
  update_metadata trimmed d zone name count = elim (zone_at d.base.zones zone) [
    | none ↦ (false, d)
    | some (i, z) ↦
        let (changed, base) = update_zone_metadata trimmed d.base zone name count in
        if ltb_ℤ count (pos 1) || ltb_ℤ (pos max_research_leds) count
        then (false, d)
        else if ltb i (fixed_zone_count d) && not (count ==ℤ pos (led_count z))
        then (
          false,
          with_status d (
              format "ASUS Aura HID fixed-zone LED counts are defined by the verified config table."
                end),
        )
        else (changed, with_base d base)
  ]
