-- ===== src/Aura/Config.antt =====
-- AsusAuraHidProtocol.cpp, "config-table navigation" and "validation": which config tables may be
-- written to, which zones a table exposes, and the channel and colour offset behind a zone. A text
-- that is blank means that no error was found.
use luma_core.Prelude.{
  ℕ, suc, ◌+◌, ◌-◌, ℤ, pos, pos_part, ◌+ℤ◌, ltb_ℤ, ◌==ℤ◌, bound, index?, Bool, true, false, not,
  ◌&&◌, ◌||◌, List, [], ◌∷◌, ◌++◌, Option, none, some, if◌then◌else◌, ltb, ◌==◌, length, get_elem?,
  same_bool,
}
use luma_core.Message.{Message, format, end, num, int}
use luma_core.Aura.{
  AsusAuraConfigTable, AsusAuraConfigChannel, AsusAuraChannelType, fixed, addressable, header_limit,
  fixed_color_mask_leds, max_direct_channels, max_research_leds, ProtocolResult, ok, fail, ◌>>=◌,
  ◌>>◌,
}

-- `QVector<int>::contains`.
unfoldable pub contains : List ℤ → ℤ → Bool
contains [] z = false
contains (x ∷ xs) z = x ==ℤ z || contains xs z

-- The variables of the validation loop.
pub record Scan : Type 0 where
  pub fixed_channels : ℕ
  pub addressable_channels : ℕ
  pub effect_channels : List ℤ
  pub direct_channels : List ℤ

-- The rest of a round of the loop for a fixed channel.
unfoldable pub check_fixed :
    AsusAuraConfigTable → AsusAuraConfigChannel → Scan → ProtocolResult Scan
check_fixed config c s =
    if ltb 1 (suc s.fixed_channels)
    then fail (format "ASUS Aura config table contains multiple fixed channels." end)
    else if ltb_ℤ c.led_count (pos 1)
        || ltb_ℤ c.header_count (pos 0)
        || ltb_ℤ (pos header_limit) c.header_count
        || ltb_ℤ c.led_count c.header_count
    then fail (
        format "ASUS Aura fixed-channel geometry is invalid: leds=%1 headers=%2."
          (int c.led_count (int c.header_count end)))
    else if ltb_ℤ (pos 0) c.header_count && ltb_ℤ (pos fixed_color_mask_leds) c.led_count
    then fail (
        format
          "ASUS Aura fixed RGB headers fall outside the 16-bit effect-color mask: leds=%1 headers=%2."
          (int c.led_count (int c.header_count end)))
    else if not (c.led_count ==ℤ config.mainboard_led_count)
        || not (c.header_count ==ℤ config.rgb_header_count)
    then fail (
        format
          "ASUS Aura fixed-channel values are inconsistent with the config table: leds=%1/%2 headers=%3/%4."
          (int c.led_count (
            int config.mainboard_led_count (int c.header_count (int config.rgb_header_count end)))))
    else ok (record s { fixed_channels = suc s.fixed_channels })

-- The rest of a round for an addressable channel.
unfoldable pub check_addressable : AsusAuraConfigChannel → Scan → ProtocolResult Scan
check_addressable c s =
    if ltb_ℤ c.led_count (pos 1) || ltb_ℤ (pos max_research_leds) c.led_count
    then fail (
        format "ASUS Aura addressable channel LED count is invalid: leds=%1." (int c.led_count end))
    else if ltb_ℤ c.direct_channel (pos 0) || not (ltb_ℤ c.direct_channel (pos max_direct_channels))
    then fail (
        format "ASUS Aura direct channel must be between 0 and %1: channel=%2."
          (num 15 (int c.direct_channel end)))
    else if contains s.direct_channels c.direct_channel
    then fail (
        format "ASUS Aura config table contains duplicate direct channel %1."
          (int c.direct_channel end))
    else ok (record s {
      addressable_channels = suc s.addressable_channels;
      direct_channels = s.direct_channels ++ (c.direct_channel ∷ []);
    })

abbrev check_kind :
    AsusAuraChannelType → AsusAuraConfigTable → AsusAuraConfigChannel → Scan → ProtocolResult Scan
check_kind fixed config c s = check_fixed config c s
check_kind addressable config c s = check_addressable c s

unfoldable pub check_channel :
    AsusAuraConfigTable → AsusAuraConfigChannel → Scan → ProtocolResult Scan
check_channel config c s =
    if ltb_ℤ c.effect_channel (pos 0) || ltb_ℤ (pos 0xFF) c.effect_channel
    then fail (
        format "ASUS Aura effect channel is outside the byte-sized protocol field: channel=%1."
          (int c.effect_channel end))
    else if contains s.effect_channels c.effect_channel
    then fail (
        format "ASUS Aura config table contains duplicate effect channel %1."
          (int c.effect_channel end))
    else check_kind c.kind config c
        (record s { effect_channels = s.effect_channels ++ (c.effect_channel ∷ []) })

unfoldable pub check_channels :
    AsusAuraConfigTable → List AsusAuraConfigChannel → Scan → ProtocolResult Scan
check_channels config [] s = ok s
check_channels config (c ∷ cs) s = check_channel config c s >>= check_channels config cs

-- The index of the first fixed channel and the channel there.
unfoldable pub fixed_channel : List AsusAuraConfigChannel → Option AsusAuraConfigChannel
fixed_channel [] = none
fixed_channel (c ∷ cs) = elim (c.kind) [ fixed ↦ some c | addressable ↦ fixed_channel cs ]

-- The channels at the indices that `addressableChannelIndices` lists.
unfoldable pub addressable_channels_of : List AsusAuraConfigChannel → List AsusAuraConfigChannel
addressable_channels_of [] = []
addressable_channels_of (c ∷ cs) = elim (c.kind) [
  | fixed ↦ addressable_channels_of cs
  | addressable ↦ c ∷ addressable_channels_of cs
]

-- What the headers and lamps of the fixed channel expose.
unfoldable pub fixed_zones : AsusAuraConfigChannel → ℕ
fixed_zones c =
    let headers = bound c.header_count header_limit in
    if ltb 0 headers
    then headers
    else if ltb_ℤ (pos 0) c.led_count && not (ltb_ℤ (pos fixed_color_mask_leds) c.led_count)
    then 1
    else 0

unfoldable pub fixed_exposed_zone_count : AsusAuraConfigTable → ℕ
fixed_exposed_zone_count config = elim (fixed_channel config.channels) [
  | none ↦ 0
  | some c ↦ fixed_zones c
]

unfoldable pub exposed_zone_count : AsusAuraConfigTable → ℕ
exposed_zone_count config =
    fixed_exposed_zone_count config + length (addressable_channels_of config.channels)

-- The tests that follow the loop.
unfoldable pub check_totals : AsusAuraConfigTable → Scan → ProtocolResult (Unit {0})
check_totals config s =
    if ltb max_direct_channels s.addressable_channels
    then fail (
        format "ASUS Aura config table exceeds the %1 addressable channels encodable by EC40."
          (num max_direct_channels end))
    else if not (pos s.addressable_channels ==ℤ config.addressable_header_count)
    then fail (
        format
          "ASUS Aura config table addressable channel count is inconsistent: declared=%1 parsed=%2."
          (int config.addressable_header_count (num s.addressable_channels end)))
    else if not (same_bool (s.fixed_channels == 0) (config.mainboard_led_count ==ℤ pos 0))
    then fail (
        format
          "ASUS Aura config table fixed-channel presence is inconsistent with mainboard LED count %1."
          (int config.mainboard_led_count end))
    else if s.addressable_channels == 0 && fixed_exposed_zone_count config == 0
    then if ltb_ℤ (pos fixed_color_mask_leds) config.mainboard_led_count
      then fail (
          format
            "ASUS Aura mainboard channel spans %1 LEDs, beyond the %2-LED effect-color mask, and no addressable headers are available."
            (int config.mainboard_led_count (num fixed_color_mask_leds end)))
      else fail (format "ASUS Aura config table contains no controllable RGB headers." end)
    else ok tt

abbrev pub empty_scan : Scan
empty_scan = record {
  fixed_channels = 0;
  addressable_channels = 0;
  effect_channels = [];
  direct_channels = [];
}

-- `configValidationError`, as the check that succeeds where that text is empty.
unfoldable pub validate_config : AsusAuraConfigTable → ProtocolResult (Unit {0})
validate_config config =
    if not config.valid
    then fail (format "ASUS Aura write requires a verified config table." end)
    else elim (config.channels) [
      | [] ↦ fail (format "ASUS Aura config table contains no usable channels." end)
      | c ∷ cs ↦ check_channels config (c ∷ cs) empty_scan >>= check_totals config
    ]

unfoldable pub is_write_ready : AsusAuraConfigTable → Bool
is_write_ready config = elim (validate_config config) [ ok _ ↦ true | fail _ ↦ false ]

unfoldable pub validate_write_shape : ℤ → ℤ → ProtocolResult (Unit {0})
validate_write_shape led_count brightness =
    if ltb_ℤ led_count (pos 1) || ltb_ℤ (pos max_research_leds) led_count
    then fail
        (format "ASUS Aura HID LED count must be between 1 and %1." (num max_research_leds end))
    else if ltb_ℤ brightness (pos 0) || ltb_ℤ (pos 100) brightness
    then fail (format "ASUS Aura HID brightness must be between 0 and 100." end)
    else ok tt

abbrev pub zone_missing : AsusAuraConfigTable → ℤ → Message
zone_missing config zone =
    format "ASUS Aura zone %1 is not present in config table: exposedZones=%2."
      (int (zone +ℤ pos 1) (num (exposed_zone_count config) end))

-- The value is the zone's index, which the check shows to be one.
unfoldable pub validate_config_write_input : AsusAuraConfigTable → ℤ → ℤ → ℤ → ProtocolResult ℕ
validate_config_write_input config zone led_count brightness = do
  validate_write_shape led_count brightness
  validate_config config
  elim (index? zone (exposed_zone_count config)) [
    | none ↦ fail (zone_missing config zone)
    | some i ↦ ok i
  ]

-- What `resolveEffectTarget` stores through its pointers.
pub record Target : Type 0 where
  pub channel : AsusAuraConfigChannel
  pub color_offset : ℤ
  pub summary : Message

abbrev fixed_target : AsusAuraConfigChannel → ℕ → Target
fixed_target c zone =
    let headers = bound c.header_count header_limit in
    let start = pos (if ltb 0 headers then pos_part c.led_count - headers + zone else 0) in
    record {
      channel = c;
      color_offset = start;
      summary =
          if ltb 0 headers
          then format "fixedHeader=%1 effectChannel=%2 directChannel=%3 colorOffset=%4"
              (num (zone + 1) (int c.effect_channel (int c.direct_channel (int start end))))
          else format "fixedMainboard=true effectChannel=%1 directChannel=%2 colorOffset=%3 leds=%4"
              (int c.effect_channel (int c.direct_channel (int start (int c.led_count end))));
    }

abbrev fixed_color_count : Option AsusAuraConfigChannel → ℤ
fixed_color_count none = pos 0
fixed_color_count (some c) = c.led_count

abbrev addressable_target : ℤ → AsusAuraConfigChannel → ℕ → Target
addressable_target fixed_colors c k = record {
  channel = c;
  color_offset = fixed_colors +ℤ pos k;
  summary =
      format "addressableHeader=%1 effectChannel=%2 directChannel=%3 colorOffset=%4" (
        num (k + 1)
          (int c.effect_channel (int c.direct_channel (int (fixed_colors +ℤ pos k) end))));
}

-- The second part of `resolveEffectTarget`: the zones behind the fixed ones.
unfoldable pub resolve_addressable : AsusAuraConfigTable → ℕ → Option Target
resolve_addressable config zone =
    let zones = fixed_exposed_zone_count config in
    if ltb zone zones
    then none
    else elim (get_elem? (addressable_channels_of config.channels) (zone - zones)) [
      | none ↦ none
      | some c ↦
          some (
            addressable_target (fixed_color_count (fixed_channel config.channels)) c (zone - zones))
    ]

-- The zone index is one that `validate_config_write_input` returned, so it is not negative.
unfoldable pub resolve_effect_target : AsusAuraConfigTable → ℕ → Option Target
unfolding resolve_addressable
resolve_effect_target config zone = elim (fixed_channel config.channels) [
  | none ↦ resolve_addressable config zone
  | some c ↦
      if ltb zone (fixed_exposed_zone_count config)
      then some (fixed_target c zone)
      else resolve_addressable config zone
]
