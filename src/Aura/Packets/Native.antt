-- ===== src/Aura/Packets/Native.antt =====
-- `buildAsusAuraNativeEffectWrite` and `buildAsusAuraAllOffWrite`: for which inputs there is a packet,
-- and its reports.
use luma_core.Prelude.{
  ℕ, ◌≤◌, ◌-◌, ◌∙◌, subst, All-get, get_elem?, replicate, ◌≡◌, ◌≢◌, refl, ap, ◌⊎◌, inl, inr, ◌↔◌, ℤ,
  pos, true, false, arith, some, List, [], ◌∷◌, if◌then◌else◌, ◌==◌, Bool-cases, map,
}
use luma_core.Effect.{
  RgbEffect, RgbEffectType, static, rainbow, breathing, color_cycle, wave, marquee, strobe,
  is_animated,
}
use luma_core.Real.{Real}
use luma_core.Aura.{
  AsusAuraConfigTable, ok, is_ok, >>=-is_ok, AsusAuraChannelType, fixed, addressable,
  AsusAuraConfigChannel,
}
use luma_core.Aura.Config.{
  Target, resolve_effect_target, addressable_channels_of, fixed_exposed_zone_count, validate_config,
}
use luma_core.Aura.Report.{Report, gen1_report, mode_report}
use luma_core.Aura.Write.{
  find_target, native_target, native_reports, native_effect_packet, native_mode_for_effect,
  native_effect_uses_color, to_byte, off_mode, make_packet,
}
use luma_core.Aura.Write.Direct.{all_off_packet, off_reports}
use luma_core.Aura.Ready.{Within, WriteReady, ChannelOk}
use luma_core.Aura.Targets.{late-addressable, addressable-late, late-channel, All-addressable}
use luma_core.Aura.Packets.{
  Writable, sent-is_ok, ready_iff_ok, sent, >>=-ok, validate_config_write_input_iff, found-Resolved,
  resolve-Resolved,
}
use luma_core.Aura.Packets.Frame.{IsAddressableZone}
use luma_core.Aura.Packets.Mode.{IsModeOf, mode-IsModeOf, as_byte, mode_report-bytes}

uses_color_iff : (k : RgbEffectType) → (native_effect_uses_color k ≡ false) ↔ (k ≢ breathing)
unfolding native_effect_uses_color
uses_color_iff static = (λ _ e. cc, λ _. refl)
uses_color_iff rainbow = (λ _ e. cc, λ _. refl)
uses_color_iff breathing = (λ e. cc, λ other. absurd (other refl))
uses_color_iff color_cycle = (λ _ e. cc, λ _. refl)
uses_color_iff wave = (λ _ e. cc, λ _. refl)
uses_color_iff marquee = (λ _ e. cc, λ _. refl)
uses_color_iff strobe = (λ _ e. cc, λ _. refl)

module _ {D : Type 0} where
  -- The effects that the firmware runs by itself on a header.
  unfoldable pub IsNative : RgbEffect D → Type 0
  IsNative e =
      (is_animated e ≡ true) × (e.kind ≢ breathing) × ((e.brightness ≡ 0) ⊎ (e.brightness ≡ 100))

module _ {D : Type 0} (r : Real D) where
  native_target_iff :
      (e : RgbEffect D) (k : AsusAuraChannelType)
      → (native_target r e k ≡ ok tt) ↔ (
          (k ≡ addressable)
          × (native_effect_uses_color e.kind ≡ false)
          × ((e.brightness ≡ 0) ⊎ (e.brightness ≡ 100)))
  unfolding native_target
  native_target_iff e fixed = ground arith
  native_target_iff e addressable = ground arith

  native_effect_packet-sent :
      (config : AsusAuraConfigTable) (zone : ℤ) (e : RgbEffect D) (led_count : ℤ)
      → is_animated e ≡ true
      → WriteReady config
      → IsAddressableZone config zone
      → Within 1 120 led_count
      → (e.kind ≢ breathing)
      → (e.brightness ≡ 0) ⊎ (e.brightness ≡ 100)
      → (t : Target) × (i : ℕ) × (zone ≡ pos i)
        × (resolve_effect_target config i ≡ some t)
        × (sent (native_effect_packet r config zone e led_count)
            ≡ some (
                gen1_report
                ∷ mode_report
                    (to_byte t.channel.effect_channel)
                    (if e.brightness == 0 then off_mode else native_mode_for_effect e.kind)
                ∷ []))
  unfolding native_effect_packet IsAddressableZone native_reports make_packet sent
  native_effect_packet-sent config zone e led_count animated ready (i, at, late, exposed) lamps
        color level =
      let level_le : e.brightness ≤ 100 = ground arith in
      let w : Writable config i led_count (pos e.brightness) = record {
        ready = ready;
        exposed = exposed;
        lamps = lamps;
        level = (omega arith, omega arith);
      } in
      let input = (validate_config_write_input_iff config zone _ _ i).1 (at, w) in
      let (t, found, right) = resolve-Resolved config i ready.channels exposed in
      let plain = (uses_color_iff e.kind).1 color in
      let target =
        (native_target_iff e t.channel.kind).1 (late-addressable right late, plain, level) in
      (
        t,
        i,
        at,
        found,
        rw (
          native_effect_packet, animated, input, find_target, found, target, native_reports, plain,
        ),
      )

  -- For an animated effect other than breathing at brightness 0 or 100, a `WriteReady` table, one of its
  -- addressable zones and 1 to 120 lamps, two reports of 65 bytes are sent: EC 52 53 00 01, and EC 35 with
  -- the effect number of the zone's channel in byte 2 and the mode in byte 5, which is 0 at brightness 0,
  -- and else 4 for a colour cycle, 5 for a rainbow, and 1 for the other effects; all other bytes are 0.
  pub native_effect_packet-reports :
      (config : AsusAuraConfigTable) (zone : ℤ) (e : RgbEffect D) (led_count : ℤ)
      → is_animated e ≡ true
      → WriteReady config
      → IsAddressableZone config zone
      → Within 1 120 led_count
      → (e.kind ≢ breathing)
      → (e.brightness ≡ 0) ⊎ (e.brightness ≡ 100)
      → (i : ℕ) × (c : AsusAuraConfigChannel) × (n : ℕ) × (mode : ℕ) × (zone ≡ pos i)
        × (get_elem? (addressable_channels_of config.channels) (i - fixed_exposed_zone_count config)
            ≡ some c)
        × (c.effect_channel ≡ pos n)
        × IsModeOf e mode
        × (sent (native_effect_packet r config zone e led_count)
            ≡ some (
                (236 ∷ 82 ∷ 83 ∷ 0 ∷ 1 ∷ replicate 60 0)
                ∷ (236 ∷ 53 ∷ n ∷ 0 ∷ 0 ∷ mode ∷ replicate 59 0)
                ∷ []))
  unfolding gen1_report IsAddressableZone
  native_effect_packet-reports config zone e led_count animated ready addressed lamps color level =
      let (t, i, at, found, out) =
        native_effect_packet-sent config zone e led_count animated ready addressed lamps color
          level in
      let (j, at_j, late_j, exposed_j) = addressed in
      let place : j ≡ i = cc in
      let late : fixed_exposed_zone_count config ≤ i =
        subst (λ x. fixed_exposed_zone_count config ≤ x) place late_j in
      let listed = late-channel config i t late found in
      let right : ChannelOk config t.channel =
        (All-get (λ c. ChannelOk config c × (c.kind ≡ addressable))
          (addressable_channels_of config.channels) (i - fixed_exposed_zone_count config) t.channel
          (All-addressable (ChannelOk config) config.channels ready.channels) listed).0 in
      let (n, number, small) = as_byte t.channel.effect_channel right.effect in
      let mode = if e.brightness == 0 then off_mode else native_mode_for_effect e.kind in
      let (is_mode, mode_small) = mode-IsModeOf e level in
      let byte : to_byte t.channel.effect_channel ≡ n = ap to_byte number ∙ omega arith in
      (
        i,
        t.channel,
        n,
        mode,
        at,
        listed,
        number,
        is_mode,
        out
            ∙ ap (λ (b : ℕ). some (gen1_report ∷ mode_report b mode ∷ [])) byte
            ∙ ap (λ (rep : Report). some (gen1_report ∷ rep ∷ []))
                (mode_report-bytes n mode small mode_small),
      )

  -- The firmware's own effects are started exactly for an animated effect other than breathing, at
  -- brightness 0 or 100, with a `WriteReady` table, one of its addressable zones and 1 to 120 lamps.
  pub native_effect_packet_iff :
      (config : AsusAuraConfigTable) (zone : ℤ) (e : RgbEffect D) (led_count : ℤ)
      → (is_ok (native_effect_packet r config zone e led_count) ≡ true)
        ↔ (WriteReady config × IsAddressableZone config zone × Within 1 120 led_count × IsNative e)
  unfolding native_effect_packet IsNative IsAddressableZone
  native_effect_packet_iff config zone e led_count = (
    (λ h. elim (Bool-cases (is_animated e)) [
      | inr still ↦ let bad : false ≡ true = rw (native_effect_packet, still) at h in cc
      | inl animated ↦
          let (i, input, h1) = >>=-is_ok _ _ (rw (native_effect_packet, animated) at h) in
          let (at, w) = (validate_config_write_input_iff config zone _ _ i).0 input in
          let (t, found, h2) = >>=-is_ok _ _ h1 in
          let right = found-Resolved config i _ t w found in
          let (_, target, _) = >>=-is_ok (native_target r e t.channel.kind) _ h2 in
          let (a, plain, level) = (native_target_iff e t.channel.kind).0 target in
          (
            w.ready,
            (i, at, addressable-late right a, w.exposed),
            w.lamps,
            (animated, (uses_color_iff e.kind).0 plain, level),
          )
    ]),
    λ (ready, (i, at, late, exposed), lamps, (animated, color, level)).
        let (_, _, _, _, done) =
          native_effect_packet-sent config zone e led_count animated ready (i, at, late, exposed)
            lamps color level in
        sent-is_ok _ done,
  )

off-step :
    (c : AsusAuraConfigChannel) (cs : List AsusAuraConfigChannel) (k : AsusAuraChannelType)
    → off_reports cs
      ≡ map (λ c. mode_report (to_byte c.effect_channel) off_mode) (addressable_channels_of cs)
    → (elim k [
      | fixed ↦ off_reports cs
      | addressable ↦ mode_report (to_byte c.effect_channel) off_mode ∷ off_reports cs
    ])
      ≡ map
          (λ c. mode_report (to_byte c.effect_channel) off_mode)
          (elim k [
            | fixed ↦ addressable_channels_of cs
            | addressable ↦ c ∷ addressable_channels_of cs
          ])
off-step c cs fixed ih = ih
off-step c cs addressable ih = ap (◌∷◌ (mode_report (to_byte c.effect_channel) off_mode)) ih

off_reports-map :
    (cs : List AsusAuraConfigChannel)
    → off_reports cs
      ≡ map (λ c. mode_report (to_byte c.effect_channel) off_mode) (addressable_channels_of cs)
unfolding off_reports addressable_channels_of
off_reports-map [] = refl
off_reports-map (c ∷ cs) = off-step c cs c.kind (off_reports-map cs)

-- The packet that switches all lamps off is built exactly for the tables that are `WriteReady`.
pub all_off_packet_iff :
    (config : AsusAuraConfigTable) → (is_ok (all_off_packet config) ≡ true) ↔ WriteReady config
unfolding all_off_packet
all_off_packet_iff config = (
  (λ h.
      let (_, ready, _) = >>=-is_ok (validate_config config) _ h in (ready_iff_ok config).0 ready),
  λ w. >>=-ok (validate_config config) _ tt ((ready_iff_ok config).1 w) refl,
)

-- For a `WriteReady` table the packet has, behind the report that selects the protocol, one off report
-- for each addressable channel, in order, with the effect number of that channel, and none for the
-- fixed channel.
pub all_off_packet-reports :
    (config : AsusAuraConfigTable)
    → WriteReady config
    → sent (all_off_packet config)
      ≡ some (
          gen1_report
          ∷ map
              (λ c. mode_report (to_byte c.effect_channel) off_mode)
              (addressable_channels_of config.channels))
unfolding all_off_packet make_packet sent
all_off_packet-reports config w =
    rw (all_off_packet, (ready_iff_ok config).1 w)
      (ap (λ rs. some (gen1_report ∷ rs)) (off_reports-map config.channels))
