-- ===== src/Aura/Examples.antt =====
-- The theorems on the protocol at a concrete response: two addressable headers behind four lamps of
-- the board with one fixed header.
use luma_core.Prelude.{
  All, ℕ, ◌+◌, ◌-◌, get_elem?, ◌≤◌, ◌<◌, ◌≡◌, ◌≢◌, ◌↔◌, inr, refl, ℤ, pos, true, List, [], ◌∷◌,
  ◌++◌, arith, length, replicate, set, some,
}
use luma_core.Message.{blank}
use luma_core.Color.{RgbColor, IsColor, black}
use luma_core.Effect.{RgbEffect, rainbow, breathing, is_animated}
use luma_core.Real.Hundredths.{hundredths}
use luma_core.Aura.{AsusAuraConfigTable, AsusAuraConfigChannel, addressable, fixed, is_ok}
use luma_core.Aura.Config.{
  fixed_zones, Target, is_write_ready, exposed_zone_count, fixed_exposed_zone_count,
  resolve_effect_target, addressable_channels_of, fixed_channel, validate_config, check_channels,
  check_channel, contains, check_fixed, check_addressable, check_totals,
}
use luma_core.Aura.Parse.{parse_config_table_response, byte_at, table_of_counts}
use luma_core.Aura.Parse.Accept.{CountsOk, normalized}
use luma_core.Aura.Parse.Response.{StartsAt, parse_valid_iff, parse-WriteReady}
use luma_core.Aura.Ready.{WriteReady, count_fixed}
use luma_core.Aura.Ready.Complete.{is_write_ready_iff}
use luma_core.Aura.Report.{Report, gen1_report, mode_report}
use luma_core.Aura.Stream.Frame.{decode, IsFramed}
use luma_core.Aura.Write.{static_color_packet, native_effect_packet, to_byte, direct_mode}
use luma_core.Aura.Write.Direct.{direct_frame_packet, all_off_packet}
use luma_core.Aura.Packets.{Writable, sent}
use luma_core.Aura.Packets.Static.{static_color_packet_iff}
use luma_core.Aura.Packets.Frame.{
  IsAddressableZone, direct_frame_packet_iff, direct_frame_packet-decode,
}
use luma_core.Aura.Packets.Mode.{IsModeOf}
use luma_core.Aura.Packets.Native.{
  IsNative, native_effect_packet_iff, native_effect_packet-reports, all_off_packet-reports,
}

abbrev answer : List ℕ
answer = set (set (set (set (set (replicate 65 0) 0 0xEC) 1 0x30) 6 2) 31 4) 33 1

abbrev parsed : AsusAuraConfigTable
parsed = parse_config_table_response answer

parse_valid_iff_example : (parsed.valid ≡ true) ↔ (
    (65 ≤ length answer)
    × ((p : ℕ) × StartsAt answer p
        × (byte_at answer (p + 1) ≡ 0x30)
        × CountsOk
            (byte_at answer (p + 6))
            (byte_at answer (p + 31))
            (normalized (byte_at answer (p + 31)) (byte_at answer (p + 33)))))
parse_valid_iff_example = parse_valid_iff answer

parse-WriteReady_example :
    (is_write_ready parsed ≡ true)
    × ((p : ℕ) × StartsAt answer p
        × (length (addressable_channels_of parsed.channels) ≡ byte_at answer (p + 6))
        × ((count_fixed parsed.channels ≡ 0) ↔ (byte_at answer (p + 31) ≡ 0)))
unfolding parse_config_table_response table_of_counts validate_config check_channels check_channel
    contains check_fixed check_addressable check_totals
parse-WriteReady_example = parse-WriteReady answer refl

abbrev header : ℤ → ℤ → AsusAuraConfigChannel
header effect direct = record {
  kind = addressable;
  effect_channel = effect;
  direct_channel = direct;
  led_count = pos 120;
  header_count = pos 0;
}

abbrev pub table : AsusAuraConfigTable
table = record {
  valid = true;
  addressable_header_count = pos 2;
  mainboard_led_count = pos 4;
  rgb_header_count = pos 1;
  response = answer;
  table = [];
  channels =
      (record {
        kind = fixed;
        effect_channel = pos 0;
        direct_channel = pos 4;
        led_count = pos 4;
        header_count = pos 1;
      })
      ∷ header (pos 1) (pos 0)
      ∷ header (pos 2) (pos 1)
      ∷ [];
  summary = blank;
  error = blank;
}

table_ready : is_write_ready table ≡ true
unfolding is_write_ready validate_config check_channels check_channel contains check_fixed
    check_addressable check_totals
table_ready = refl

is_write_ready_iff_example : WriteReady table
is_write_ready_iff_example = (is_write_ready_iff table).0 table_ready

pub table-WriteReady : WriteReady table
table-WriteReady = (is_write_ready_iff table).0 table_ready

pub table_zones : (fixed_exposed_zone_count table ≡ 1) × (exposed_zone_count table ≡ 3)
unfolding exposed_zone_count fixed_exposed_zone_count fixed_channel fixed_zones
    addressable_channels_of
table_zones = (refl, refl)

pub two_exposed : 2 < exposed_zone_count table
two_exposed = omega (arith, table_zones.1)

pub two_late : fixed_exposed_zone_count table ≤ 2
two_late = omega (arith, table_zones.0)

two-Writable : Writable table 2 (pos 3) (pos 100)
two-Writable = record {
  ready = table-WriteReady;
  exposed = two_exposed;
  lamps = omega arith;
  level = omega arith;
}

abbrev orange : RgbColor
orange = record { red = 255; green = 128; blue = 0 }

abbrev frame : List RgbColor
frame = orange ∷ black ∷ orange ∷ []

frame-IsColor : All IsColor frame
frame-IsColor = (omega arith, (omega arith, (omega arith, tt)))

static_color_packet_iff_example :
    is_ok (static_color_packet hundredths table (pos 2) orange (pos 3) (pos 100)) ≡ true
static_color_packet_iff_example =
    (static_color_packet_iff hundredths table (pos 2) orange (pos 3) (pos 100)).1
      (2, refl, two-Writable)

two_addressable : IsAddressableZone table (pos 2)
unfolding IsAddressableZone
two_addressable = (2, refl, two_late, two_exposed)

direct_frame_packet_iff_example : is_ok (direct_frame_packet table (pos 2) frame true) ≡ true
direct_frame_packet_iff_example =
    (direct_frame_packet_iff table (pos 2) frame true).1
      (table-WriteReady, two_addressable, omega arith, omega arith)

direct_frame_packet-decode_example :
    (t : Target) × (channel : ℕ) × (stream : List Report) × (resolve_effect_target table 2 ≡ some t)
    × (t.channel.direct_channel ≡ pos channel)
    × (sent (direct_frame_packet table (pos 2) frame true)
        ≡ some (
            (gen1_report ∷ mode_report (to_byte t.channel.effect_channel) direct_mode ∷ [])
            ++ stream))
    × IsFramed channel 3 0 stream
    × (decode stream ≡ frame)
direct_frame_packet-decode_example =
    direct_frame_packet-decode table 2 frame true table-WriteReady two_late two_exposed
      (omega arith) (omega arith) frame-IsColor

abbrev pub full_rainbow : RgbEffect ℕ
full_rainbow = record { kind = rainbow; color = orange; speed = 100; brightness = 100 }

rainbow-plain : full_rainbow.kind ≢ breathing
rainbow-plain e = cc

rainbow_animated : is_animated full_rainbow ≡ true
unfolding is_animated
rainbow_animated = refl

native_effect_packet_iff_example :
    is_ok (native_effect_packet hundredths table (pos 2) full_rainbow (pos 3)) ≡ true
unfolding IsNative
native_effect_packet_iff_example =
    (native_effect_packet_iff hundredths table (pos 2) full_rainbow (pos 3)).1
      (table-WriteReady, two_addressable, omega arith, (rainbow_animated, rainbow-plain, inr refl))

native_effect_packet-reports_example :
    (i : ℕ) × (c : AsusAuraConfigChannel) × (n : ℕ) × (mode : ℕ) × (pos 2 ≡ pos i)
    × (get_elem? (addressable_channels_of table.channels) (i - fixed_exposed_zone_count table)
        ≡ some c)
    × (c.effect_channel ≡ pos n)
    × IsModeOf full_rainbow mode
    × (sent (native_effect_packet hundredths table (pos 2) full_rainbow (pos 3))
        ≡ some (
            (236 ∷ 82 ∷ 83 ∷ 0 ∷ 1 ∷ replicate 60 0)
            ∷ (236 ∷ 53 ∷ n ∷ 0 ∷ 0 ∷ mode ∷ replicate 59 0)
            ∷ []))
native_effect_packet-reports_example =
    native_effect_packet-reports hundredths table (pos 2) full_rainbow (pos 3) rainbow_animated
      table-WriteReady two_addressable (omega arith) rainbow-plain (inr refl)

all_off_packet-reports_example :
    sent (all_off_packet table) ≡ some (gen1_report ∷ mode_report 1 0 ∷ mode_report 2 0 ∷ [])
unfolding addressable_channels_of
all_off_packet-reports_example = all_off_packet-reports table table-WriteReady
