-- ===== src/Aura/Write/Direct.antt =====
-- AsusAuraHidProtocol.cpp: the packets of a frame that is streamed, and of all-off.
use luma_core.Prelude.{◌+◌, ℤ, pos, Bool, List, [], ◌∷◌, if◌then◌else◌, length}
use luma_core.Message.{Message, format, end, num, sub, txt}
use luma_core.Color.{RgbColor}
use luma_core.Aura.{
  AsusAuraConfigTable, AsusAuraConfigChannel, AsusAuraChannelType, fixed, addressable,
  AsusAuraHidPacket, direct_frame_write, all_off_write, ProtocolResult, ok, fail, ◌>>=◌, ◌>>◌,
}
use luma_core.Aura.Config.{validate_config, validate_config_write_input}
use luma_core.Aura.Parse.{bytes_preview}
use luma_core.Aura.Report.{Report, gen1_report, mode_report, append_direct_color_reports}
use luma_core.Aura.Write.{
  off_mode, direct_mode, to_byte, provenance, device_key, bool_text, first_report, make_packet,
  find_target,
}

abbrev stream_provenance : Message
stream_provenance = format "LumaScope-validated ASUS Aura EC40 direct-color stream" end

abbrev pub only_addressable : AsusAuraChannelType → ProtocolResult (Unit {0})
only_addressable addressable = ok tt
only_addressable fixed =
    fail (format "ASUS Aura direct-frame streaming is enabled only for addressable headers." end)

unfoldable pub direct_frame_packet :
    AsusAuraConfigTable → ℤ → List RgbColor → Bool → ProtocolResult AsusAuraHidPacket
unfolding find_target
direct_frame_packet config zone colors include_direct_mode = do
  i ← validate_config_write_input config zone (pos (length colors)) (pos 100)
  target ← find_target config i (format "ASUS Aura direct-frame target could not be resolved." end)
  only_addressable target.channel.kind
  let mode = mode_report (to_byte target.channel.effect_channel) direct_mode
  let start = if include_direct_mode then gen1_report ∷ mode ∷ [] else []
  reports ← append_direct_color_reports start target.channel.direct_channel colors
  ok (
      make_packet reports
        (format
          "ASUS Aura HID approved EC40 host-streamed frame for %1 Header %2: synchronized=false %3 reportCount=%4 reportLength=%5 leds=%6 directModePrimed=%7 speedHardwareField=none firstReportBytes=%8 hardwareWriteApproved=true provenance=%9"
          (txt device_key (
            num (i + 1) (
              sub target.summary (
                num (length reports) (
                  num (length (first_report reports)) (
                    num (length colors) (
                      txt (bool_text include_direct_mode) (
                        txt (bytes_preview (first_report reports))
                          (sub stream_provenance end))))))))))
        stream_provenance direct_frame_write)

-- The loop of `buildAsusAuraAllOffWrite`: an off report for each channel but the fixed one.
unfoldable pub off_reports : List AsusAuraConfigChannel → List Report
off_reports [] = []
off_reports (c ∷ cs) = elim (c.kind) [
  | fixed ↦ off_reports cs
  | addressable ↦ mode_report (to_byte c.effect_channel) off_mode ∷ off_reports cs
]

unfoldable pub all_off_packet : AsusAuraConfigTable → ProtocolResult AsusAuraHidPacket
unfolding off_reports
all_off_packet config = do
  validate_config config
  let off = off_reports config.channels
  let reports = gen1_report ∷ off
  ok (
      make_packet reports
        (format
          "ASUS Aura HID approved all-off write for %1: synchronized=false channels=%2 reportCount=%3 reportLength=%4 mode=off firstBytes=%5 hardwareWriteApproved=true provenance=%6"
          (txt device_key (
            num (length off) (
              num (length reports) (
                num (length (first_report reports))
                  (txt (bytes_preview (first_report reports)) (sub provenance end)))))))
        provenance all_off_write)
