-- ===== src/Aura/Ready.antt =====
-- An independent description of the config tables that may be written to: `WriteReady`. The child
-- `Sound` shows that `validate_config` lets only such tables pass, `Complete` that it lets all pass.
pub mod Sound
pub mod Complete
use mathlib.Core.List.{append-nil, append_assoc}
use luma_core.Prelude.{
  All, ℕ, zero, suc, ◌+◌, ◌≤◌, ◌<◌, ◌≡◌, ◌≢◌, refl, ap, ◌∙◌, ◌⊎◌, inl, inr, ℤ, pos, pos_part,
  neg_part, ◌≤ℤ◌, Bool, true, false, List, [], ◌∷◌, ◌++◌, map, arith, length, sym, subst, ◌↔◌,
}
use luma_core.Aura.{
  AsusAuraConfigTable, AsusAuraConfigChannel, AsusAuraChannelType, fixed, addressable, ok, fail,
  ProtocolResult, >>=-eq-ok, is_ok, ◌>>=◌, >>=-is_ok,
}
use luma_core.Aura.Config.{
  contains, Scan, empty_scan, check_fixed, check_addressable, check_channel, check_channels,
  check_totals, validate_config, addressable_channels_of, fixed_exposed_zone_count,
  exposed_zone_count, is_write_ready,
}

abbrev pub Within : ℕ → ℕ → ℤ → Type 0
Within low high z = (pos low ≤ℤ z) × (z ≤ℤ pos high)

pub record FixedOk (config : AsusAuraConfigTable) (c : AsusAuraConfigChannel) : Type 0 where
  pub lamps : pos 1 ≤ℤ c.led_count
  pub headers : Within 0 3 c.header_count
  pub headers_le : c.header_count ≤ℤ c.led_count
  pub mask : (c.header_count ≤ℤ pos 0) ⊎ (c.led_count ≤ℤ pos 16)
  pub lamps_declared : c.led_count ≡ config.mainboard_led_count
  pub headers_declared : c.header_count ≡ config.rgb_header_count

pub record AddressableOk (c : AsusAuraConfigChannel) : Type 0 where
  pub lamps : Within 1 120 c.led_count
  pub direct : Within 0 15 c.direct_channel

pub record ChannelOk (config : AsusAuraConfigTable) (c : AsusAuraConfigChannel) : Type 0 where
  pub effect : Within 0 255 c.effect_channel
  pub of_fixed : c.kind ≡ fixed → FixedOk config c
  pub of_addressable : c.kind ≡ addressable → AddressableOk c

-- No number stands twice.
abbrev pub Distinct : List ℤ → Type 0
Distinct [] = Unit
Distinct (z ∷ zs) = (contains zs z ≡ false) × Distinct zs

unfoldable pub count_fixed : List AsusAuraConfigChannel → ℕ
count_fixed [] = 0
count_fixed (c ∷ cs) = elim (c.kind) [ fixed ↦ suc (count_fixed cs) | addressable ↦ count_fixed cs ]

abbrev pub effect_numbers_of : List AsusAuraConfigChannel → List ℤ
effect_numbers_of = map (λ c. c.effect_channel)

abbrev pub direct_numbers_of : List AsusAuraConfigChannel → List ℤ
direct_numbers_of cs = map (λ c. c.direct_channel) (addressable_channels_of cs)

-- A table that may be written to, said without the loop.
pub record WriteReady (config : AsusAuraConfigTable) : Type 0 where
  pub valid : config.valid ≡ true
  pub channels : All (ChannelOk config) config.channels
  pub one_fixed : count_fixed config.channels ≤ 1
  pub effects : Distinct (effect_numbers_of config.channels)
  pub directs : Distinct (direct_numbers_of config.channels)
  pub headers :
      pos (length (addressable_channels_of config.channels)) ≡ config.addressable_header_count
  pub headers_le : length (addressable_channels_of config.channels) ≤ 16
  pub presence : (count_fixed config.channels ≡ 0) ↔ (config.mainboard_led_count ≡ pos 0)
  pub exposes : 1 ≤ exposed_zone_count config
