-- ===== src/Aura/Packets/Frame.antt =====
-- `buildAsusAuraDirectFrameWrite`: for which inputs there is a frame, and what it streams.
use luma_core.Prelude.{
  All, ℕ, ◌≤◌, ◌<◌, ◌≡◌, refl, ap, ◌↔◌, ℤ, pos, negsuc, Bool, true, false, arith, some, List, [],
  length, ltb_ℤ, ◌||◌, not, ltb, if◌then◌else◌, ◌∷◌, ◌++◌,
}
use luma_core.Color.{RgbColor, IsColor}
use luma_core.Aura.{
  AsusAuraConfigTable, is_ok, >>=-is_ok, ok_of_is_ok, AsusAuraChannelType, fixed, addressable,
  max_direct_channels, max_research_leds,
}
use luma_core.Aura.Config.{
  Target, exposed_zone_count, fixed_exposed_zone_count, resolve_effect_target,
}
use luma_core.Aura.Report.{
  mode_report, gen1_report, Report, append_direct_color_reports, gen1_report, mode_report,
}
use luma_core.Aura.Write.{find_target, to_byte, direct_mode, make_packet}
use luma_core.Aura.Write.Direct.{direct_frame_packet, only_addressable}
use luma_core.Aura.Ready.{Within, WriteReady}
use luma_core.Aura.Targets.{late-addressable, addressable-late}
use luma_core.Aura.Stream.Frame.{IsFramed, decode, append_direct_color_reports-decode}
use luma_core.Aura.Packets.{
  sent, Writable, >>=-ok, validate_config_write_input_iff, find_target-Resolved, found-Resolved,
  resolve-Resolved,
}

-- The zones behind those of the fixed channel.
unfoldable pub IsAddressableZone : AsusAuraConfigTable → ℤ → Type 0
IsAddressableZone config zone =
    (i : ℕ) × (zone ≡ pos i)
    × (fixed_exposed_zone_count config ≤ i)
    × (i < exposed_zone_count config)

only_addressable_lem :
    (k : AsusAuraChannelType) → is_ok (only_addressable k) ≡ true → k ≡ addressable
unfolding only_addressable
only_addressable_lem fixed h = cc
only_addressable_lem addressable h = refl

pub direct-is_ok :
    (reports : List Report) (channel : ℤ) (colors : List RgbColor)
    → Within 0 15 channel
    → 1 ≤ length colors
    → length colors ≤ 120
    → is_ok (append_direct_color_reports reports channel colors) ≡ true
unfolding append_direct_color_reports
direct-is_ok reports channel colors low some_led few =
    let inside : (ltb_ℤ channel (pos 0) || not (ltb_ℤ channel (pos max_direct_channels))) ≡ false =
      ground arith in
    let fits : (ltb (length colors) 1 || ltb max_research_leds (length colors)) ≡ false =
      ground arith in
    rw (append_direct_color_reports, inside, fits)

-- A frame is built exactly for a `WriteReady` table, one of its addressable zones, and 1 to 120
-- colours.
pub direct_frame_packet_iff :
    (config : AsusAuraConfigTable) (zone : ℤ) (colors : List RgbColor) (include_direct_mode : Bool)
    → (is_ok (direct_frame_packet config zone colors include_direct_mode) ≡ true) ↔ (
        WriteReady config
        × IsAddressableZone config zone
        × (1 ≤ length colors)
        × (length colors ≤ 120))
unfolding direct_frame_packet IsAddressableZone
direct_frame_packet_iff config zone colors include_direct_mode = (
  (λ h.
      let (i, input, h1) = >>=-is_ok _ _ h in
      let (at, w) = (validate_config_write_input_iff config zone _ _ i).0 input in
      let (t, found, h2) = >>=-is_ok _ _ h1 in
      let right = found-Resolved config i _ t w found in
      let (_, only, _) = >>=-is_ok (only_addressable t.channel.kind) _ h2 in
      let a = only_addressable_lem t.channel.kind (ap is_ok only) in
      (
        w.ready,
        (i, at, addressable-late right a, w.exposed),
        omega (arith, w.lamps),
        omega (arith, w.lamps),
      )),
  λ (ready, (i, at, late, exposed), some_led, few).
      let w : Writable config i (pos (length colors)) (pos 100) = record {
        ready = ready;
        exposed = exposed;
        lamps = ground arith;
        level = ground arith;
      } in
      let input = (validate_config_write_input_iff config zone _ _ i).1 (at, w) in
      let (t, found, right) = find_target-Resolved config i _ w in
      >>=-ok _ _ i input (
        >>=-ok _ _ t found (
          let a = late-addressable right late in
          let (_, built) = ok_of_is_ok _ (
            direct-is_ok _ t.channel.direct_channel colors (right.of_addressable a).direct some_led
              few) in
          >>=-ok (only_addressable t.channel.kind) _ tt (ap only_addressable a)
            (>>=-ok _ _ _ built refl))),
)

channel-number : (z : ℤ) → Within 0 15 z → (k : ℕ) × (z ≡ pos k) × (k < 16)
channel-number (pos k) h = (k, refl, omega arith)
channel-number (negsuc k) h = absurd (omega arith)

-- For a `WriteReady` table, one of its addressable zones, and 1 to 120 colours with components up to
-- 255, the reports of a frame, behind those that select the direct mode where they are asked for, are
-- a well-framed stream on the direct channel of the zone, which decodes to the colours.
pub direct_frame_packet-decode :
    (config : AsusAuraConfigTable) (i : ℕ) (colors : List RgbColor) (include_direct_mode : Bool)
    → WriteReady config
    → fixed_exposed_zone_count config ≤ i
    → i < exposed_zone_count config
    → 1 ≤ length colors
    → length colors ≤ 120
    → All IsColor colors
    → (t : Target) × (channel : ℕ) × (stream : List Report) × (resolve_effect_target config i
        ≡ some t)
      × (t.channel.direct_channel ≡ pos channel)
      × (sent (direct_frame_packet config (pos i) colors include_direct_mode)
          ≡ some (
              (if include_direct_mode
                then gen1_report ∷ mode_report (to_byte t.channel.effect_channel) direct_mode ∷ []
                else [])
              ++ stream))
      × IsFramed channel (length colors) 0 stream
      × (decode stream ≡ colors)
unfolding direct_frame_packet make_packet sent
direct_frame_packet-decode config i colors include_direct_mode ready late exposed some_led few v =
    let w : Writable config i (pos (length colors)) (pos 100) = record {
      ready = ready;
      exposed = exposed;
      lamps = ground arith;
      level = ground arith;
    } in
    let input = (validate_config_write_input_iff config (pos i) _ _ i).1 (refl, w) in
    let (t, e, right) = resolve-Resolved config i ready.channels exposed in
    let a = late-addressable right late in
    let (channel, number, low) =
      channel-number t.channel.direct_channel (right.of_addressable a).direct in
    let start : List Report =
      if include_direct_mode
      then gen1_report ∷ mode_report (to_byte t.channel.effect_channel) direct_mode ∷ []
      else [] in
    let (stream, built, framed, back) =
      append_direct_color_reports-decode start channel colors low some_led few v in
    (
      t,
      channel,
      stream,
      e,
      number,
      rw (direct_frame_packet, input, find_target, e, a, number, built),
      framed,
      back,
    )
