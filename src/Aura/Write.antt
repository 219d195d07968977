-- ===== src/Aura/Write.antt =====
-- AsusAuraHidProtocol.cpp, "write serializers" and "effect mapping": the packets, with those of a
-- frame and of all-off in `Write.Direct`. The arithmetic of `scaledChannel` is that of an instance of
-- `Real`.
pub mod Direct
use luma_core.Prelude.{
  ℕ, ◌+◌, ◌-◌, ◌%◌, ℤ, pos, negsuc, pos_part, ltb_ℤ, bound, index?, Bool, true, false, not, ◌&&◌,
  ◌||◌, List, [], ◌∷◌, none, some, if◌then◌else◌, ltb, ◌==◌, length, set, get_or,
}
use luma_core.Text.{codes}
use luma_core.Message.{Message, format, end, num, int, sub, txt}
use luma_core.Color.{RgbColor, hex_byte}
use luma_core.Real.{Real}
use luma_core.Effect.{
  RgbEffectType, rainbow, breathing, color_cycle, RgbEffect, is_animated, rgb_effect_type_to_string,
}
use luma_core.Aura.{
  AsusAuraConfigTable, AsusAuraChannelType, fixed, addressable, AsusAuraHidPacket,
  AsusAuraHidPacketKind, research_preview, static_color_write, native_effect_write, header_limit,
  max_research_leds, ProtocolResult, ok, fail, ◌>>=◌, ◌>>◌,
}
use luma_core.Aura.Config.{validate_config_write_input, resolve_effect_target, Target, zone_missing}
use luma_core.Aura.Parse.{bytes_preview}
use luma_core.Aura.Report.{
  Report, aura_report, to_char, gen1_report, mode_report, append_fixed_color_report,
  append_direct_color,
}

abbrev pub off_mode : ℕ
off_mode = 0x00

abbrev pub static_mode : ℕ
static_mode = 0x01

abbrev pub breathing_mode : ℕ
breathing_mode = 0x02

abbrev pub spectrum_cycle_mode : ℕ
spectrum_cycle_mode = 0x04

abbrev pub rainbow_mode : ℕ
rainbow_mode = 0x05

abbrev pub direct_mode : ℕ
direct_mode = 0xFF

unfoldable pub native_mode_for_effect : RgbEffectType → ℕ
native_mode_for_effect breathing = breathing_mode
native_mode_for_effect color_cycle = spectrum_cycle_mode
native_mode_for_effect rainbow = rainbow_mode
native_mode_for_effect _ = static_mode

unfoldable pub native_effect_uses_color : RgbEffectType → Bool
native_effect_uses_color breathing = true
native_effect_uses_color _ = false

-- `static_cast<quint8>` of an `int`.
abbrev pub to_byte : ℤ → ℕ
to_byte (pos n) = n % 256
to_byte (negsuc n) = 255 - n % 256

abbrev pub provenance : Message
provenance = format "OpenRGB-referenced ASUS Aura USB 65-byte EC35/EC36 mode/color sequence" end

abbrev pub device_key : List ℕ
device_key = codes "0B05:19AF"

abbrev pub bool_text : Bool → List ℕ
bool_text b = if b then codes "true" else codes "false"

abbrev pub first_report : List Report → Report
first_report reports = get_or reports 0 []

unfoldable pub make_packet :
    List Report → Message → Message → AsusAuraHidPacketKind → AsusAuraHidPacket
make_packet reports summary provenance kind = record {
  report = first_report reports;
  reports = reports;
  summary = summary;
  provenance = provenance;
  kind = kind;
  hardware_write_approved = true;
}

unfoldable pub find_target : AsusAuraConfigTable → ℕ → Message → ProtocolResult Target
find_target config zone error = elim (resolve_effect_target config zone) [
  | none ↦ fail error
  | some target ↦ ok target
]

unfoldable pub validate_static_input : ℤ → ℤ → ℤ → ProtocolResult ℕ
validate_static_input zone led_count brightness = elim (index? zone header_limit) [
  | none ↦
      fail (format "ASUS Aura HID research path only supports headers 0 through %1." (num 2 end))
  | some i ↦
      if ltb_ℤ led_count (pos 1) || ltb_ℤ (pos max_research_leds) led_count
      then fail
          (format "ASUS Aura HID LED count must be between 1 and %1." (num max_research_leds end))
      else if ltb_ℤ brightness (pos 0) || ltb_ℤ (pos 100) brightness
      then fail (format "ASUS Aura HID brightness must be between 0 and 100." end)
      else ok i
]

-- The reports of a static colour, by the kind of the target's channel.
unfoldable pub static_reports :
    AsusAuraChannelType → Target → RgbColor → ℕ → ProtocolResult (List Report)
static_reports fixed target c led_count =
    let ch = target.channel in
    let count = if ltb 0 (bound ch.header_count header_limit) then pos 1 else ch.led_count in
    append_fixed_color_report
      (gen1_report ∷ mode_report (to_byte ch.effect_channel) static_mode ∷ []) target.color_offset
      count c
static_reports addressable target c led_count =
    let ch = target.channel in
    append_direct_color (gen1_report ∷ mode_report (to_byte ch.effect_channel) direct_mode ∷ [])
      ch.direct_channel led_count c

module _ {D : Type 0} (r : Real D) where
  unfoldable pub scaled_channel : ℕ → ℤ → ℕ
  scaled_channel channel brightness =
      to_byte
        (r.q_round (r.mul (r.of_int (pos channel)) (r.div (r.of_int brightness) (r.literal 100 0))))

  unfoldable pub scaled_color : RgbColor → ℤ → RgbColor
  unfolding scaled_channel
  scaled_color c brightness = record {
    red = scaled_channel c.red brightness;
    green = scaled_channel c.green brightness;
    blue = scaled_channel c.blue brightness;
  }

  unfoldable pub static_color_preview : ℤ → RgbColor → ℤ → ℤ → ProtocolResult AsusAuraHidPacket
  static_color_preview zone color led_count brightness = do
    i ← validate_static_input zone led_count brightness
    let c = scaled_color color brightness
    let head = set (set (set (set (set (set aura_report 0 0) 1 0x4C) 2 0x41) 3 0x55) 4 0x52) 5 0x41
    let counts = set (set head 6 (to_char (bound led_count 255))) 7 (to_byte brightness)
    let report = set (set (set (set counts 8 c.red) 9 c.green) 10 c.blue) 11 (to_char i)
    let all_off = to_byte brightness == 0 || (c.red == 0 && c.green == 0 && c.blue == 0)
    ok (record {
      report = report;
      reports = report ∷ [];
      summary =
          format
            "ASUS Aura HID research preview for %1 Header %2: reportLength=%3 leds=%4 brightness=%5 rgb=#%6%7%8 allOffPreview=%9 firstBytes=%10 hardwareWriteApproved=false"
            (txt device_key (
              num (i + 1) (
                num (length report) (
                  int led_count (
                    int brightness (
                      txt (hex_byte c.red) (
                        txt (hex_byte c.green) (
                          txt (hex_byte c.blue)
                            (txt (bool_text all_off) (txt (bytes_preview report) end))))))))));
      provenance = format "LumaCore research preview packet; not an ASUS hardware opcode." end;
      kind = research_preview;
      hardware_write_approved = false;
    })

  unfoldable pub static_color_packet :
      AsusAuraConfigTable → ℤ → RgbColor → ℤ → ℤ → ProtocolResult AsusAuraHidPacket
  unfolding static_reports find_target
  static_color_packet config zone color led_count brightness = do
    i ← validate_config_write_input config zone led_count brightness
    let c = scaled_color color brightness
    target ← find_target config i (zone_missing config zone)
    reports ← static_reports target.channel.kind target c (pos_part led_count)
    ok (
        make_packet reports
          (format
            "ASUS Aura HID approved static-color write for %1 Header %2: synchronized=false %3 reportCount=%4 reportLength=%5 leds=%6 brightness=%7 rgb=#%8%9%10 firstReportBytes=%11 hardwareWriteApproved=true provenance=%12"
            (txt device_key (
              num (i + 1) (
                sub target.summary (
                  num (length reports) (
                    num (length (first_report reports)) (
                      int led_count (
                        int brightness (
                          txt (hex_byte c.red) (
                            txt (hex_byte c.green) (
                              txt (hex_byte c.blue) (
                                txt (bytes_preview (first_report reports))
                                  (sub provenance end)))))))))))))
          provenance static_color_write)

  abbrev color_summary : RgbEffect D → Message
  color_summary e =
      if native_effect_uses_color e.kind
      then format "modeUsesColor=true rgb=#%1%2%3" (
          txt (hex_byte (scaled_color e.color (pos e.brightness)).red) (
            txt (hex_byte (scaled_color e.color (pos e.brightness)).green)
              (txt (hex_byte (scaled_color e.color (pos e.brightness)).blue) end)))
      else format "modeUsesColor=false" end

  -- The reports behind the tests of `buildAsusAuraNativeEffectWrite`.
  unfoldable pub native_reports : RgbEffect D → Target → ℕ → ProtocolResult (List Report)
  native_reports e target mode =
      let reports = gen1_report ∷ mode_report (to_byte target.channel.effect_channel) mode ∷ [] in
      if native_effect_uses_color e.kind
      then append_fixed_color_report reports target.color_offset (pos 1)
          (scaled_color e.color (pos e.brightness))
      else ok reports

  unfoldable pub native_target : RgbEffect D → AsusAuraChannelType → ProtocolResult (Unit {0})
  native_target e fixed = fail (
      format
        "ASUS Aura native effects are channel-wide and cannot safely target an individual fixed RGB header."
        end)
  native_target e addressable =
      if native_effect_uses_color e.kind
      then fail (
          format
            "ASUS Aura color-bearing native effects on addressable headers are not enabled until EC36 addressable color mapping is verified."
            end)
      else if not (native_effect_uses_color e.kind)
          && not (e.brightness == 0)
          && not (e.brightness == 100)
      then fail (
          format
            "ASUS Aura native effect brightness must be 0 (off) or 100 because no hardware brightness field is verified."
            end)
      else ok tt

  unfoldable pub native_effect_packet :
      AsusAuraConfigTable → ℤ → RgbEffect D → ℤ → ProtocolResult AsusAuraHidPacket
  unfolding native_reports native_target find_target
  native_effect_packet config zone e led_count =
      if not (is_animated e)
      then fail (format "ASUS Aura native effect write requires an animated LumaCore effect." end)
      else do
        i ← validate_config_write_input config zone led_count (pos e.brightness)
        target ←
            find_target config i
              (format "ASUS Aura native effect target could not be resolved." end)
        native_target e target.channel.kind
        let mode = if e.brightness == 0 then off_mode else native_mode_for_effect e.kind
        reports ← native_reports e target mode
        ok (
            make_packet reports
              (format
                "ASUS Aura HID approved native effect write for %1 Header %2: effect=%3 mode=0x%4 %5 %6 reportCount=%7 reportLength=%8 brightness=%9 speed=%10x speedHardwareField=not-documented firstReportBytes=%11 hardwareWriteApproved=true provenance=%12"
                (txt device_key (
                  num (i + 1) (
                    txt (rgb_effect_type_to_string e.kind) (
                      txt (hex_byte mode) (
                        sub target.summary (
                          sub (color_summary e) (
                            num (length reports) (
                              num (length (first_report reports)) (
                                num e.brightness (
                                  txt (r.print e.speed) (
                                    txt (bytes_preview (first_report reports))
                                      (sub provenance end)))))))))))))
              provenance native_effect_write)
