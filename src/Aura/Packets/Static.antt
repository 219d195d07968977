-- ===== src/Aura/Packets/Static.antt =====
-- `buildAsusAuraStaticColorWrite`: for which inputs there is a packet, and its colour.
use luma_core.Prelude.{
  ℕ, ◌+◌, ◌≤◌, ◌≡◌, refl, ◌↔◌, ℤ, pos, pos_part, negsuc, ◌+ℤ◌, bound, true, arith, List,
  length-replicate, replicate, if◌then◌else◌, ltb,
}
use luma_core.Color.{RgbColor, IsColor, black}
use luma_core.Real.{Real, IsReal}
use luma_core.Aura.{
  AsusAuraConfigTable, is_ok, >>=-is_ok, ok_of_is_ok, AsusAuraChannelType, fixed, addressable,
  AsusAuraConfigChannel, header_limit,
}
use luma_core.Aura.Config.{Target}
use luma_core.Aura.Report.{Report, append_fixed_color_report, append_direct_color}
use luma_core.Aura.Write.{static_reports, static_color_packet, scaled_channel, scaled_color}
use luma_core.Aura.Ready.{Within}
use luma_core.Aura.Targets.{Resolved, width}
use luma_core.Aura.Packets.Frame.{direct-is_ok}
use luma_core.Aura.Packets.{Writable, >>=-ok, validate_config_write_input_iff, find_target-Resolved}

append_fixed-is_ok :
    (reports : List Report) (start count : ℕ) (c : RgbColor)
    → 1 ≤ count
    → start + count ≤ 16
    → is_ok (append_fixed_color_report reports (pos start) (pos count) c) ≡ true
unfolding append_fixed_color_report ◌+ℤ◌
append_fixed-is_ok reports start count c some_led fits = ground arith

counted :
    (c : AsusAuraConfigChannel)
    → 1 ≤ width c
    → (if ltb 0 (bound c.header_count header_limit) then pos 1 else c.led_count) ≡ pos (width c)
unfolding width
counted c h = ground arith

pub Within-pos_part : (z : ℤ) → Within 1 120 z → (1 ≤ pos_part z) × (pos_part z ≤ 120)
Within-pos_part (pos n) h = (omega arith, omega arith)
Within-pos_part (negsuc n) h = absurd (omega arith)

static_reports-is_ok :
    (config : AsusAuraConfigTable) (zone : ℕ) (t : Target) (k : AsusAuraChannelType) (c : RgbColor)
    (led_count : ℤ)
    → Resolved config zone t
    → Within 1 120 led_count
    → t.channel.kind ≡ k
    → is_ok (static_reports k t c (pos_part led_count)) ≡ true
unfolding static_reports append_direct_color
static_reports-is_ok config zone t fixed c led_count right lamps e =
    let (start, at, some_led, fits) = right.of_fixed e in
    rw (at, counted t.channel some_led)
      (append_fixed-is_ok _ start (width t.channel) c some_led fits)
static_reports-is_ok config zone t addressable c led_count right lamps e =
    direct-is_ok _ t.channel.direct_channel (replicate (pos_part led_count) c)
      (right.of_addressable e).direct
      (omega (arith, length-replicate (pos_part led_count) c, Within-pos_part led_count lamps))
      (omega (arith, length-replicate (pos_part led_count) c, Within-pos_part led_count lamps))

module _ {D : Type 0} (r : Real D) where
  -- A static colour is written exactly for a `WriteReady` table, the number of an exposed zone, 1 to
  -- 120 lamps and a brightness from 0 to 100: no such write is refused, and no other is built.
  pub static_color_packet_iff :
      (config : AsusAuraConfigTable) (zone : ℤ) (color : RgbColor) (led_count brightness : ℤ)
      → (is_ok (static_color_packet r config zone color led_count brightness) ≡ true)
        ↔ ((i : ℕ) × (zone ≡ pos i) × Writable config i led_count brightness)
  unfolding static_color_packet
  static_color_packet_iff config zone color led_count brightness = (
    (λ h.
        let (i, input, _) = >>=-is_ok _ _ h in
        let (at, w) = (validate_config_write_input_iff config zone _ _ i).0 input in (i, at, w)),
    λ (i, at, w).
        let input = (validate_config_write_input_iff config zone _ _ i).1 (at, w) in
        let (t, found, right) = find_target-Resolved config i _ w in
        let built = ok_of_is_ok _ (
          static_reports-is_ok config i t t.channel.kind (scaled_color r color brightness) led_count
            right w.lamps refl) in
        >>=-ok _ _ i input (>>=-ok _ _ t found (>>=-ok _ _ built.0 built.1 refl)),
  )

  scaled_channel-full : IsReal r → (v : ℕ) → v ≤ 255 → scaled_channel r v (pos 100) ≡ v
  unfolding scaled_channel
  scaled_channel-full laws v small =
      rw (laws.literal_int 100, laws.div_self 99, laws.mul_one v, laws.q_round_int v) (omega arith)

  scaled_channel-off : IsReal r → (v : ℕ) → scaled_channel r v (pos 0) ≡ 0
  unfolding scaled_channel
  scaled_channel-off laws v =
      rw (laws.literal_int 100, laws.zero_div 99, laws.mul_zero v, laws.q_round_int 0) (omega arith)

  -- With an arithmetic that meets `IsReal`, a colour with components up to 255 is sent as it is at
  -- brightness 100, and as black at brightness 0.
  pub scaled_color_ends :
      (color : RgbColor)
      → IsReal r
      → IsColor color
      → (scaled_color r color (pos 100) ≡ color) × (scaled_color r color (pos 0) ≡ black)
  unfolding scaled_color
  scaled_color_ends color laws v = (
    rw (
      scaled_channel-full laws color.red v.red_le,
      scaled_channel-full laws color.green v.green_le,
      scaled_channel-full laws color.blue v.blue_le,
    ),
    rw (
      scaled_channel-off laws color.red,
      scaled_channel-off laws color.green,
      scaled_channel-off laws color.blue,
    ),
  )
