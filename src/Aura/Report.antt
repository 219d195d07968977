-- ===== src/Aura/Report.antt =====
-- AsusAuraHidProtocol.cpp, "report builders": the 65-byte reports. A cast to `char` keeps the value
-- modulo 256; a write to a byte array is `set`.
use Prim.Native.Nat.{bit_or}
use luma_core.Prelude.{
  ℕ, zero, suc, ◌+◌, ◌-◌, ◌*◌, ◌/◌, ◌%◌, ◌^◌, ℤ, pos, pos_part, ◌+ℤ◌, ltb_ℤ, not, ◌||◌, List, [],
  ◌∷◌, ◌++◌, if◌then◌else◌, ltb, ◌==◌, length, set, take, drop, replicate, min,
}
use luma_core.Message.{format, end, num, int}
use luma_core.Color.{RgbColor}
use luma_core.Aura.{
  fixed_color_mask_leds, max_direct_channels, max_research_leds, research_report_length,
  ProtocolResult, ok, fail,
}
use luma_core.Aura.Parse.{command_prefix}

abbrev pub Report : Type 0
Report = List ℕ

abbrev pub color_payload_offset : ℕ
color_payload_offset = 5

abbrev pub max_leds_per_packet : ℕ
max_leds_per_packet = 20

abbrev pub aura_report : Report
aura_report = replicate research_report_length 0

abbrev pub to_char : ℕ → ℕ
to_char v = v % 256

unfoldable pub config_table_request : Report
config_table_request = set (set aura_report 0 command_prefix) 1 0xB0

unfoldable pub gen1_report : Report
gen1_report = set (set (set (set (set aura_report 0 command_prefix) 1 0x52) 2 0x53) 3 0) 4 0x01

unfoldable pub mode_report : ℕ → ℕ → Report
mode_report channel mode =
    set
      (set (set (set (set (set aura_report 0 command_prefix) 1 0x35) 2 (to_char channel)) 3 0) 4 0)
      5 (to_char mode)

-- The three writes for one lamp, and the loops over the lamps of one report.
unfoldable pub put_color : Report → ℕ → RgbColor → Report
put_color report offset c =
    set (set (set report offset (to_char c.red)) (offset + 1) (to_char c.green)) (offset + 2)
      (to_char c.blue)

unfoldable pub put_colors : Report → ℕ → List RgbColor → Report
put_colors report offset [] = report
put_colors report offset (c ∷ cs) = put_colors (put_color report offset c) (offset + 3) cs

-- `((1u << ledCount) - 1u) << startLed`, as a `quint16`.
unfoldable pub color_mask : ℕ → ℕ → ℕ
color_mask start count = (2 ^ count - 1) * 2 ^ start % 2 ^ 16

unfoldable pub fixed_color_report : ℕ → ℕ → RgbColor → Report
unfolding color_mask put_colors put_color
fixed_color_report start count c =
    let mask = color_mask start count in
    put_colors
      (set
        (set (set (set (set aura_report 0 command_prefix) 1 0x36) 2 (to_char (mask / 2 ^ 8))) 3
          (to_char mask))
        4 0)
      (color_payload_offset + start * 3) (replicate count c)

-- The value is the list with the report appended.
unfoldable pub append_fixed_color_report :
    List Report → ℤ → ℤ → RgbColor → ProtocolResult (List Report)
unfolding fixed_color_report
append_fixed_color_report reports start count c =
    if ltb_ℤ start (pos 0)
      || ltb_ℤ count (pos 1)
      || ltb_ℤ (pos fixed_color_mask_leds) (start +ℤ count)
    then fail (
        format
          "ASUS Aura fixed-channel write target is outside the 16-bit effect-color mask: start=%1 count=%2."
          (int start (int count end)))
    else if ltb research_report_length
        (color_payload_offset + (pos_part start + pos_part count) * 3)
    then fail (
        format
          "ASUS Aura fixed-channel color payload does not fit in one 65-byte report: start=%1 count=%2."
          (int start (int count end)))
    else ok (reports ++ (fixed_color_report (pos_part start) (pos_part count) c ∷ []))

-- One round of the loop of `appendDirectColorReports`: the report for the lamps from `offset` on.
unfoldable pub direct_report : ℕ → ℕ → List RgbColor → Report
unfolding put_colors put_color
direct_report channel offset colors =
    let led_count = length colors in
    let packet_led_count = min max_leds_per_packet (led_count - offset) in
    let apply = offset + packet_led_count == led_count in
    put_colors
      (set
        (set
          (set (set (set aura_report 0 command_prefix) 1 0x40) 2
            (to_char (bit_or (if apply then 0x80 else 0x00) channel)))
          3 (to_char offset))
        4 (to_char packet_led_count))
      color_payload_offset (take packet_led_count (drop offset colors))

-- The loop, on fuel: each round passes at least one lamp, so the number of lamps is enough.
unfoldable pub direct_reports : ℕ → ℕ → ℕ → List RgbColor → List Report
unfolding direct_report
direct_reports zero channel offset colors = []
direct_reports (suc fuel) channel offset colors =
    let rest =
      direct_reports fuel channel (offset + min max_leds_per_packet (length colors - offset))
        colors in
    let next = direct_report channel offset colors ∷ rest in
    if ltb offset (length colors) then next else []

unfoldable pub append_direct_color_reports :
    List Report → ℤ → List RgbColor → ProtocolResult (List Report)
unfolding direct_reports
append_direct_color_reports reports channel colors =
    if ltb_ℤ channel (pos 0) || not (ltb_ℤ channel (pos max_direct_channels))
    then fail (
        format "ASUS Aura direct channel must be between 0 and %1: channel=%2."
          (num 15 (int channel end)))
    else if ltb (length colors) 1 || ltb max_research_leds (length colors)
    then fail (
        format "ASUS Aura direct frame LED count must be between 1 and %1: leds=%2."
          (num max_research_leds (num (length colors) end)))
    else ok (reports ++ direct_reports (length colors) (pos_part channel) 0 colors)

-- The overload for one colour, on `ledCount` lamps.
unfoldable pub append_direct_color : List Report → ℤ → ℕ → RgbColor → ProtocolResult (List Report)
append_direct_color reports channel led_count c =
    append_direct_color_reports reports channel (replicate led_count c)
