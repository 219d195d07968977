-- ===== src/Aura/Parse.antt =====
-- AsusAuraHidProtocol.cpp, "config probe / parse": reading the response to a config request. `at` on
-- a byte array is read as 0 out of range; the length tests before each use keep it in range.
pub mod Accept
pub mod Response
use luma_core.Prelude.{
  ℕ, zero, suc, ◌+◌, ◌-◌, ◌/◌, ◌%◌, ℤ, pos, Bool, true, false, not, ◌&&◌, ◌||◌, List, [], ◌∷◌, ◌++◌,
  Option, none, some, if◌then◌else◌, ltb, ◌==◌, length, get_or, take, drop, min,
}
use luma_core.Message.{Message, blank, format, end, num, sub, txt}
use luma_core.Permission.{join}
use luma_core.Color.{hex_byte}
use luma_core.Aura.{
  AsusAuraConfigTable, AsusAuraConfigChannel, fixed, addressable, header_limit,
  fixed_color_mask_leds, max_direct_channels, max_research_leds, research_report_length, ok, fail,
}
use luma_core.Aura.Config.{validate_config}

abbrev pub command_prefix : ℕ
command_prefix = 0xEC

abbrev pub config_response : ℕ
config_response = 0x30

abbrev pub table_offset : ℕ
table_offset = 4

abbrev pub table_length : ℕ
table_length = 60

abbrev pub addressable_header_offset : ℕ
addressable_header_offset = 0x02

abbrev pub mainboard_led_offset : ℕ
mainboard_led_offset = 0x1B

abbrev pub rgb_header_offset : ℕ
rgb_header_offset = 0x1D

abbrev pub byte_at : List ℕ → ℕ → ℕ
byte_at bytes i = get_or bytes i 0

unfoldable pub invalid_config_table : List ℕ → Message → AsusAuraConfigTable
invalid_config_table response error = record {
  valid = false;
  addressable_header_count = pos 0;
  mainboard_led_count = pos 0;
  rgb_header_count = pos 0;
  response = response;
  table = [];
  channels = [];
  summary = blank;
  error = error;
}

-- `bytesPreview`: the first bytes, two digits each, with spaces between.
unfoldable pub bytes_preview : List ℕ → List ℕ
bytes_preview bytes = preview (take 16 bytes)
  where
    preview : List ℕ → List ℕ
    preview [] = []
    preview (b ∷ []) = hex_byte b
    preview (b ∷ c ∷ bs) = hex_byte b ++ (b' ' ∷ preview (c ∷ bs))

-- Where the prefix byte stands: at 0, or at 1 behind a report number 0 in a longer response.
unfoldable pub prefix_index : List ℕ → Option ℕ
prefix_index response =
    if byte_at response 0 == command_prefix
    then some 0
    else if ltb research_report_length (length response)
        && byte_at response 0 == 0
        && byte_at response 1 == command_prefix
    then some 1
    else none

-- The loop that appends the addressable channels `index`, `index + 1`, ….
unfoldable pub addressable_run : ℕ → ℕ → ℕ → List AsusAuraConfigChannel
addressable_run zero index effect_channel = []
addressable_run (suc left) index effect_channel =
    record {
      kind = addressable;
      effect_channel = pos effect_channel;
      direct_channel = pos index;
      led_count = pos max_research_leds;
      header_count = pos 0;
    }
    ∷ addressable_run left (suc index) (suc effect_channel)

unfoldable pub build_channels : ℕ → ℕ → ℕ → List AsusAuraConfigChannel
unfolding addressable_run
build_channels mainboard rgb headers =
    if ltb 0 mainboard
    then record {
      kind = fixed;
      effect_channel = pos 0;
      direct_channel = pos 0x04;
      led_count = pos mainboard;
      header_count = pos rgb;
    }
      ∷ addressable_run headers 0 1
    else addressable_run headers 0 0

-- The notes on what was normalized.
abbrev notes : ℕ → ℕ → ℕ → List Message
notes mainboard reported rgb =
    (if ltb mainboard reported
      then format
          "reportedRgbHeaders=%1 exceeds mainboardLeds=%2; fixed RGB headers are not exposed"
          (num reported (num mainboard end))
        ∷ []
      else [])
    ++ (if rgb == 0 && ltb fixed_color_mask_leds mainboard
        then format
            "mainboardLeds=%1 exceeds the %2-LED effect-color mask; the aggregate mainboard zone is not exposed"
            (num mainboard (num fixed_color_mask_leds end))
          ∷ []
        else [])

abbrev notes_text : List Message → Message
notes_text [] = blank
notes_text (n ∷ ns) = format " notes=%1" (sub (join "%1; %2" (n ∷ ns)) end)

-- The end of the parser, with the three counts read from the table.
unfoldable pub table_of_counts : List ℕ → List ℕ → ℕ → ℕ → ℕ → AsusAuraConfigTable
unfolding build_channels
table_of_counts response table headers mainboard reported =
    let rgb = if ltb mainboard reported then 0 else reported in
    let channels = build_channels mainboard rgb headers in
    let config : AsusAuraConfigTable = record {
      valid = true;
      addressable_header_count = pos headers;
      mainboard_led_count = pos mainboard;
      rgb_header_count = pos rgb;
      response = response;
      table = table;
      channels = channels;
      summary = blank;
      error = blank;
    } in
    if ltb max_direct_channels headers
    then invalid_config_table response (
        format
          "ASUS Aura config reports %1 addressable headers, exceeding the EC40 channel limit of %2."
          (num headers (num max_direct_channels end)))
    else if ltb header_limit rgb
    then invalid_config_table response (
        format
          "ASUS Aura config reports too many fixed RGB headers for the validated path: mainboardLeds=%1 rgbHeaders=%2 maxHeaders=%3."
          (num mainboard (num rgb (num header_limit end))))
    else if ltb 0 rgb && ltb fixed_color_mask_leds mainboard
    then invalid_config_table response (
        format
          "ASUS Aura fixed RGB headers fall outside the 16-bit effect-color mask: mainboardLeds=%1 rgbHeaders=%2."
          (num mainboard (num rgb end)))
    else if rgb == 0 && headers == 0 && mainboard == 0
    then invalid_config_table response
        (format "ASUS Aura config response contains no controllable RGB headers." end)
    else elim (validate_config config) [
      | fail error ↦ invalid_config_table response error
      | ok _ ↦ record config {
        summary =
            format
              "ASUS Aura config table OK: addressableHeaders=%1 mainboardLeds=%2 rgbHeaders=%3 reportedRgbHeaders=%4 channels=%5 firstBytes=%6%7"
              (num headers (
                num mainboard (
                  num rgb (
                    num reported (
                      num (length channels) (
                        txt (bytes_preview response)
                          (sub (notes_text (notes mainboard reported rgb)) end)))))));
      }
    ]

unfoldable pub parse_config_table_response : List ℕ → AsusAuraConfigTable
unfolding prefix_index
parse_config_table_response response =
    if ltb (length response) research_report_length
    then invalid_config_table response
        (format "ASUS Aura config response is too short: %1 byte(s)." (num (length response) end))
    else elim (prefix_index response) [
      | none ↦
          invalid_config_table response
            (format "ASUS Aura config response did not start with EC 30." end)
      | some prefix ↦
          let start = prefix + table_offset in
          let table = take (min table_length (length response - start)) (drop start response) in
          if not (ltb (prefix + 1) (length response))
            || not (byte_at response (prefix + 1) == config_response)
          then invalid_config_table response
              (format "ASUS Aura config response did not start with EC 30." end)
          else if ltb (length response) (start + rgb_header_offset + 1)
          then invalid_config_table response
              (format "ASUS Aura config response did not include enough config-table bytes." end)
          else table_of_counts response table (byte_at table addressable_header_offset)
              (byte_at table mainboard_led_offset) (byte_at table rgb_header_offset)
    ]
