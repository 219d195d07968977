-- ===== src/Asus/Safe.antt =====
-- What the writes of an ASUS Aura device leave alone: a write that fails keeps the zones, and a zone
-- that is not addressable is never written to.
use luma_core.Prelude.{
  ℕ, ◌≡◌, refl, ap, ◌∙◌, sym, ℤ, true, false, List, some, Option-cases, Bool-cases, arith, inr, inl,
  ◌↔◌, ◌≤◌, ◌<◌, get_elem?-lt,
}
use luma_core.Aura.Packets.Frame.{direct_frame_packet_iff, IsAddressableZone}
use luma_core.Device.Laws.{zone_at-some}
use luma_core.Asus.Guard.{behind_one_lem, behind_two_lem, behind_one-stop, behind_two-stop}
use luma_core.Message.{Message, blank}
use luma_core.Color.{RgbColor}
use luma_core.Effect.{RgbEffect}
use luma_core.Real.{Real}
use luma_core.Device.{zone_at}
use luma_core.Aura.{AsusAuraHidPacket, ProtocolResult, ok, fail, is_ok}
use luma_core.Aura.Write.Direct.{direct_frame_packet, all_off_packet}
use luma_core.Hid.{Hidapi, write_reports}
use luma_core.Asus.{
  AsusAuraHidDevice, is_addressable_zone, fixed_zone_count, format, end, pos,
  fixed_exposed_zone_count, length, RgbZone, make_effect, static,
}
use luma_core.Asus.Write.{
  send_approved_packet, effect_packet, apply_zone_effect, apply_zone_frame, apply_all_off,
  with_status, set_zone_static_color,
}

module _ {D : Type 0} {H : Type 0} (api : Hidapi H) (trimmed : List ℕ → List ℕ) where
  pub send-base :
      (m : ProtocolResult AsusAuraHidPacket) (operation : Message) (d : AsusAuraHidDevice D H)
      → (send_approved_packet api trimmed m operation d).1.base ≡ d.base
  unfolding send_approved_packet
  send-base (fail error) operation d = refl
  send-base (ok p) operation d = elim (Bool-cases p.hardware_write_approved) [
    | inr held ↦ rw (send_approved_packet, held) refl
    | inl approved ↦
        elim (Bool-cases (write_reports api trimmed d.device.path p.reports d.hid).0.success) [
          | inl sent ↦ rw (send_approved_packet, approved, sent) refl
          | inr lost ↦ rw (send_approved_packet, approved, lost) refl
        ]
  ]

  -- A packet that was not built is not sent.
  pub send-unbuilt :
      (m : ProtocolResult AsusAuraHidPacket) (operation : Message) (d : AsusAuraHidDevice D H)
      → is_ok m ≡ false
      → ((send_approved_packet api trimmed m operation d).0 ≡ false)
        × ((send_approved_packet api trimmed m operation d).1.hid ≡ d.hid)
  unfolding send_approved_packet
  send-unbuilt (fail error) operation d h = (refl, refl)
  send-unbuilt (ok p) operation d h = cc

  apply_zone_effect-refused :
      ⦃r : Real D⦄ (d : AsusAuraHidDevice D H) (zone : ℤ) (e : RgbEffect D)
      → (apply_zone_effect api trimmed d zone e).0 ≡ false
      → (apply_zone_effect api trimmed d zone e).1.base ≡ d.base
  unfolding apply_zone_effect
  apply_zone_effect-refused d zone e h = elim (Option-cases (zone_at d.base.zones zone)) [
    | inl missing ↦ rw (apply_zone_effect, missing) refl
    | inr ((i, z), found) ↦
        let m = effect_packet d zone z e in
        let (success, sent) =
          send_approved_packet api trimmed m (format "write" end) (with_status d blank) in
        let kept = send-base m (format "write" end) (with_status d blank) in
        let ran = rw (apply_zone_effect, found) at h in
        rw (apply_zone_effect, found)
          (behind_two_lem (λ x. x.base ≡ d.base) d.config_table_verified
            (is_addressable_zone d zone) success _ _ _ _ refl refl kept ran)
  ]

  apply_zone_frame-refused :
      (d : AsusAuraHidDevice D H) (zone : ℤ) (colors : List RgbColor)
      → (apply_zone_frame api trimmed d zone colors).0 ≡ false
      → (apply_zone_frame api trimmed d zone colors).1.base ≡ d.base
  unfolding apply_zone_frame
  apply_zone_frame-refused d zone colors h = elim (Option-cases (zone_at d.base.zones zone)) [
    | inl missing ↦ rw (apply_zone_frame, missing) refl
    | inr ((i, z), found) ↦
        let m = direct_frame_packet d.config_table zone colors false in
        let (success, sent) =
          send_approved_packet api trimmed m (format "stream frame" end) (with_status d blank) in
        let kept = send-base m (format "stream frame" end) (with_status d blank) in
        let ran = rw (apply_zone_frame, found) at h in
        rw (apply_zone_frame, found)
          (behind_one_lem (λ x. x.base ≡ d.base) d.config_table_verified success _ _ _ refl kept
            ran)
  ]

  apply_all_off-refused :
      ⦃r : Real D⦄ (d : AsusAuraHidDevice D H)
      → (apply_all_off api trimmed d).0 ≡ false
      → (apply_all_off api trimmed d).1.base ≡ d.base
  unfolding apply_all_off
  apply_all_off-refused d h =
      let m = all_off_packet d.config_table in
      let (success, sent) =
        send_approved_packet api trimmed m (format "all-off" end) (with_status d blank) in
      let kept = send-base m (format "all-off" end) (with_status d blank) in
      behind_one_lem (λ x. x.base ≡ d.base) d.config_table_verified success _ _ _ refl kept h

  -- A write of an effect, of a frame or of all-off that fails, for whatever reason, leaves the zones
  -- and the rest of the device model as they were.
  pub refused-base :
      ⦃r : Real D⦄ (d : AsusAuraHidDevice D H) (zone : ℤ) (e : RgbEffect D) (colors : List RgbColor)
      → ((apply_zone_effect api trimmed d zone e).0 ≡ false
          → (apply_zone_effect api trimmed d zone e).1.base ≡ d.base)
        × ((apply_zone_frame api trimmed d zone colors).0 ≡ false
            → (apply_zone_frame api trimmed d zone colors).1.base ≡ d.base)
        × ((apply_all_off api trimmed d).0 ≡ false → (apply_all_off api trimmed d).1.base ≡ d.base)
  refused-base d zone e colors = (
    apply_zone_effect-refused d zone e,
    apply_zone_frame-refused d zone colors,
    apply_all_off-refused d,
  )

module _ {D : Type 0} {H : Type 0} where
  -- The test that the device makes, and what the protocol means by an addressable zone.
  pub is_addressable_zone_iff :
      (d : AsusAuraHidDevice D H) (i : ℕ)
      → (is_addressable_zone d (pos i) ≡ true) ↔ (
          (d.config_table_verified ≡ true)
          × (d.config_table.valid ≡ true)
          × (fixed_exposed_zone_count d.config_table ≤ i)
          × (i < length d.base.zones))
  unfolding is_addressable_zone fixed_zone_count
  is_addressable_zone_iff d i = ground arith

module _ {D : Type 0} {H : Type 0} (api : Hidapi H) (trimmed : List ℕ → List ℕ) where
  effect-unwritten :
      ⦃r : Real D⦄ (d : AsusAuraHidDevice D H) (zone : ℤ) (e : RgbEffect D)
      → is_addressable_zone d zone ≡ false
      → ((apply_zone_effect api trimmed d zone e).0 ≡ false)
        × ((apply_zone_effect api trimmed d zone e).1.hid ≡ d.hid)
  unfolding apply_zone_effect
  effect-unwritten d zone e h = elim (Option-cases (zone_at d.base.zones zone)) [
    | inl missing ↦ rw (apply_zone_effect, missing) (refl, refl)
    | inr ((i, z), found) ↦
        let (success, sent) =
          send_approved_packet api trimmed (effect_packet d zone z e) (format "write" end)
            (with_status d blank) in
        rw (apply_zone_effect, found)
          (behind_two-stop (λ x. x.hid ≡ d.hid) d.config_table_verified (is_addressable_zone d zone)
            success _ _ _ _ refl refl h)
  ]

  -- No frame is built for a zone of a verified device that is not addressable.
  frame-unbuilt :
      (d : AsusAuraHidDevice D H) (zone : ℤ) (i : ℕ) (z : RgbZone D) (colors : List RgbColor)
      → zone_at d.base.zones zone ≡ some (i, z)
      → is_addressable_zone d zone ≡ false
      → d.config_table_verified ≡ true
      → is_ok (direct_frame_packet d.config_table zone colors false) ≡ false
  unfolding IsAddressableZone
  frame-unbuilt d zone i z colors found h verified =
      elim (Bool-cases (is_ok (direct_frame_packet d.config_table zone colors false))) [
        | inr failed ↦ failed
        | inl built ↦
            let (ready, (k, at, late, _), _, _) =
              (direct_frame_packet_iff d.config_table zone colors false).0 built in
            let (place, member) = zone_at-some d.base.zones zone i z found in
            let same : i ≡ k = ground (arith, place, at) in
            let inside = get_elem?-lt d.base.zones i z member in
            let test =
              (is_addressable_zone_iff d k).1
                (verified, ready.valid, late, omega (arith, same, inside)) in
            let bad : true ≡ false = sym test ∙ ap (is_addressable_zone d) (sym at) ∙ h in cc
      ]

  frame-unwritten :
      (d : AsusAuraHidDevice D H) (zone : ℤ) (colors : List RgbColor)
      → is_addressable_zone d zone ≡ false
      → ((apply_zone_frame api trimmed d zone colors).0 ≡ false)
        × ((apply_zone_frame api trimmed d zone colors).1.hid ≡ d.hid)
  unfolding apply_zone_frame
  frame-unwritten d zone colors h = elim (Option-cases (zone_at d.base.zones zone)) [
    | inl missing ↦ rw (apply_zone_frame, missing) (refl, refl)
    | inr ((i, z), found) ↦
        let m = direct_frame_packet d.config_table zone colors false in
        let (success, sent) =
          send_approved_packet api trimmed m (format "stream frame" end) (with_status d blank) in
        rw (apply_zone_frame, found)
          (behind_one-stop (λ x. x.hid ≡ d.hid) d.config_table_verified success _ _ _ refl
            (λ verified.
              send-unbuilt api trimmed m (format "stream frame" end) (with_status d blank)
                (frame-unbuilt d zone i z colors found h verified)))
  ]

  -- A zone that is not addressable, as every zone of a device without a verified config table, the zones
  -- of the fixed mainboard channel, and an index that no zone has, is never written to: an effect, a
  -- static colour or a frame for it fails, and no call of HIDAPI is made.
  pub not_addressable-unwritten :
      ⦃r : Real D⦄ (d : AsusAuraHidDevice D H) (zone : ℤ) (e : RgbEffect D) (color : RgbColor)
      (colors : List RgbColor)
      → is_addressable_zone d zone ≡ false
      → ((apply_zone_effect api trimmed d zone e).0 ≡ false)
        × ((apply_zone_effect api trimmed d zone e).1.hid ≡ d.hid)
        × ((set_zone_static_color api trimmed d zone color).0 ≡ false)
        × ((set_zone_static_color api trimmed d zone color).1.hid ≡ d.hid)
        × ((apply_zone_frame api trimmed d zone colors).0 ≡ false)
        × ((apply_zone_frame api trimmed d zone colors).1.hid ≡ d.hid)
  unfolding set_zone_static_color
  not_addressable-unwritten ⦃r⦄ d zone e color colors h =
      let (a, b) = effect-unwritten d zone e h in
      let (c, f) = effect-unwritten d zone (make_effect static color (r.literal 1 0) (pos 25)) h in
      let (g, k) = frame-unwritten d zone colors h in (a, b, c, f, g, k)
