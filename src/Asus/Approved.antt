-- ===== src/Asus/Approved.antt =====
-- AsusAuraHidProtocol.cpp: every packet of a write is approved for the hardware, and what is sent for an
-- approved one.
use luma_core.Prelude.{
  if◌then◌else◌, [], ◌∷◌, ℕ, ◌≤◌, ◌<◌, ◌≡◌, refl, ℤ, pos, Bool, true, List, some, Bool-cases, arith,
  length, inl, inr, pos_part, if◌then◌else◌,
}
use luma_core.Message.{Message}
use luma_core.Color.{RgbColor}
use luma_core.Effect.{RgbEffect, is_animated}
use luma_core.Real.{Real}
use luma_core.Zone.{RgbZone, led_count}
use luma_core.Aura.{
  AsusAuraConfigTable, AsusAuraHidPacket, ProtocolResult, ok, fail, is_ok, AsusAuraHidPacketKind,
  >>=-eq-ok,
}
use luma_core.Aura.Config.{
  exposed_zone_count, fixed_exposed_zone_count, validate_config_write_input, zone_missing,
}
use luma_core.Aura.Report.{Report, mode_report, gen1_report, append_direct_color_reports}
use luma_core.Aura.Write.{
  static_color_packet, make_packet, find_target, scaled_color, static_reports, to_byte, direct_mode,
}
use luma_core.Aura.Write.Direct.{direct_frame_packet, only_addressable}
use luma_core.Aura.Ready.{WriteReady}
use luma_core.Aura.Packets.{sent}
use luma_core.Aura.Packets.Frame.{direct_frame_packet_iff, IsAddressableZone}
use luma_core.Aura.Packets.Static.{static_color_packet_iff}
use luma_core.Engine.Bounds.{IsFrame, compute_frame-IsFrame}
use luma_core.Hid.{Hidapi, write_reports}
use luma_core.Asus.{AsusAuraHidDevice, format, end}
use luma_core.Asus.Write.{send_approved_packet, effect_packet}
use luma_core.Asus.Guard.{behind_one-run}
use luma_core.Asus.Zones.{Lit}

-- A packet, where there is one, is approved.
pub record IsApproved (m : ProtocolResult AsusAuraHidPacket) : Type 0 where
  pub approved : (p : AsusAuraHidPacket) → m ≡ ok p → p.hardware_write_approved ≡ true

made-approved :
    (reports : List Report) (summary provenance : Message) (kind : AsusAuraHidPacketKind)
    (p : AsusAuraHidPacket)
    → ok (make_packet reports summary provenance kind) ≡ ok p
    → p.hardware_write_approved ≡ true
unfolding make_packet
made-approved reports summary provenance kind p e = cc

direct-IsApproved :
    (config : AsusAuraConfigTable) (zone : ℤ) (colors : List RgbColor) (start : Bool)
    → IsApproved (direct_frame_packet config zone colors start)
unfolding direct_frame_packet
direct-IsApproved config zone colors start = record {
  approved = λ p e.
      let input = validate_config_write_input config zone (pos (length colors)) (pos 100) in
      let (i, _, e1) = >>=-eq-ok input _ e in
      let target =
        find_target config i (format "ASUS Aura direct-frame target could not be resolved." end) in
      let (t, _, e2) = >>=-eq-ok target _ e1 in
      let (_, _, e3) = >>=-eq-ok (only_addressable t.channel.kind) _ e2 in
      let mode = mode_report (to_byte t.channel.effect_channel) direct_mode in
      let first = if start then gen1_report ∷ mode ∷ [] else [] in
      let (_, _, e4) =
        >>=-eq-ok (append_direct_color_reports first t.channel.direct_channel colors) _ e3 in
      made-approved _ _ _ _ p e4;
}

static-IsApproved :
    {D : Type 0} (r : Real D) (config : AsusAuraConfigTable) (zone : ℤ) (color : RgbColor)
    (led_count brightness : ℤ)
    → IsApproved (static_color_packet r config zone color led_count brightness)
unfolding static_color_packet
static-IsApproved r config zone color led_count brightness = record {
  approved = λ p e.
      let input = validate_config_write_input config zone led_count brightness in
      let (i, _, e1) = >>=-eq-ok input _ e in
      let (t, _, e2) = >>=-eq-ok (find_target config i (zone_missing config zone)) _ e1 in
      let c = scaled_color r color brightness in
      let (_, _, e3) = >>=-eq-ok (static_reports t.channel.kind t c (pos_part led_count)) _ e2 in
      made-approved _ _ _ _ p e3;
}

module _ {D : Type 0} {H : Type 0} ⦃r : Real D⦄ where
  pub effect_packet-IsApproved :
      (d : AsusAuraHidDevice D H) (zone : ℤ) (z : RgbZone D) (e : RgbEffect D)
      → IsApproved (effect_packet d zone z e)
  unfolding effect_packet
  effect_packet-IsApproved d zone z e = elim (Bool-cases (is_animated e)) [
    | inl moving ↦ rw (effect_packet, moving) (direct-IsApproved d.config_table zone _ true)
    | inr still ↦ rw (effect_packet, still) (static-IsApproved r d.config_table zone e.color _ _)
  ]

  -- The packet of an effect is built for each addressable zone of a `WriteReady` table.
  pub effect_packet-is_ok :
      (d : AsusAuraHidDevice D H) (i : ℕ) (z : RgbZone D) (e : RgbEffect D)
      → WriteReady d.config_table
      → fixed_exposed_zone_count d.config_table ≤ i
      → i < exposed_zone_count d.config_table
      → Lit z
      → e.brightness ≤ 100
      → is_ok (effect_packet d (pos i) z e) ≡ true
  unfolding effect_packet IsFrame IsAddressableZone
  effect_packet-is_ok d i z e ready late exposed (low, high) level =
      elim (Bool-cases (is_animated e)) [
        | inl moving ↦
            let (size, _) = compute_frame-IsFrame e (pos (led_count z)) (r.literal 0 0) in
            rw (effect_packet, moving)
              ((direct_frame_packet_iff d.config_table (pos i) _ true).1 (
                ready,
                (i, refl, late, exposed),
                omega (arith, size, low),
                omega (arith, size, high),
              ))
        | inr still ↦
            rw (effect_packet, still)
              ((static_color_packet_iff r d.config_table (pos i) e.color _ _).1 (
                i,
                refl,
                record {
                  ready = ready;
                  exposed = exposed;
                  lamps = ground arith;
                  level = ground arith;
                },
              ))
      ]

module _ {D : Type 0} {H : Type 0} (api : Hidapi H) (trimmed : List ℕ → List ℕ) where
  -- A packet that is built and approved is handed to the writer, which decides.
  pub send-built :
      (m : ProtocolResult AsusAuraHidPacket) (operation : Message) (d : AsusAuraHidDevice D H)
      → is_ok m ≡ true
      → IsApproved m
      → (reports : List Report) × (sent m ≡ some reports)
        × ((send_approved_packet api trimmed m operation d).0
            ≡ (write_reports api trimmed d.device.path reports d.hid).0.success)
        × ((send_approved_packet api trimmed m operation d).1.hid
            ≡ (write_reports api trimmed d.device.path reports d.hid).1)
  unfolding send_approved_packet sent
  send-built (fail error) operation d h a = cc
  send-built (ok p) operation d h a =
      let (write, hid) = write_reports api trimmed d.device.path p.reports d.hid in
      let (s, k) =
        behind_one-run (λ x. x.hid ≡ hid) p.hardware_write_approved write.success _ _ _
          (a.approved p refl) refl refl in
      (p.reports, refl, s, k)
