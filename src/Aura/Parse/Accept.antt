-- ===== src/Aura/Parse/Accept.antt =====
-- Which responses the parser accepts, and that what it accepts is ready for writes.
use luma_core.Prelude.{
  All, ℕ, zero, suc, ◌+◌, ◌≤◌, ◌<◌, ◌≡◌, ◌≢◌, refl, ap, ◌⊎◌, pos, true, false, List, ◌∷◌, none,
  arith, length, ltb, if◌then◌else◌, sym, subst,
}
use luma_core.Message.{Message, blank}
use luma_core.Aura.{AsusAuraConfigTable, AsusAuraConfigChannel, fixed, addressable}
use luma_core.Aura.Config.{
  contains, is_write_ready, addressable_channels_of, fixed_channel, fixed_zones,
  fixed_exposed_zone_count, exposed_zone_count,
}
use luma_core.Aura.Ready.{
  ChannelOk, Distinct, count_fixed, effect_numbers_of, direct_numbers_of, WriteReady,
}
use luma_core.Aura.Ready.Complete.{is_write_ready_iff}
use luma_core.Aura.Parse.{addressable_run, build_channels, table_of_counts, invalid_config_table}

module _ (config : AsusAuraConfigTable) where
  run-ChannelOk :
      (n i e : ℕ) → i + n ≤ 16 → e + n ≤ 17 → All (ChannelOk config) (addressable_run n i e)
  unfolding addressable_run
  run-ChannelOk zero i e h k = tt
  run-ChannelOk (suc n) i e h k = (
    record {
      effect = omega arith;
      of_fixed = λ q. absurd (addressable≢fixed q);
      of_addressable = λ q. record { lamps = omega arith; direct = omega arith };
    },
    run-ChannelOk n (suc i) (suc e) (omega arith) (omega arith),
  )
    where
      addressable≢fixed : addressable ≢ fixed
      addressable≢fixed q = cc

run-counts :
    (n i e : ℕ)
    → (length (addressable_channels_of (addressable_run n i e)) ≡ n)
      × (count_fixed (addressable_run n i e) ≡ 0)
      × (fixed_channel (addressable_run n i e) ≡ none)
unfolding addressable_run addressable_channels_of count_fixed fixed_channel
run-counts zero i e = (refl, refl, refl)
run-counts (suc n) i e = let (a, b, c) = run-counts n (suc i) (suc e) in (ap suc a, b, c)

effect_before_run :
    (n i e k : ℕ) → k < e → contains (effect_numbers_of (addressable_run n i e)) (pos k) ≡ false
unfolding addressable_run contains
effect_before_run zero i e k h = refl
effect_before_run (suc n) i e k h =
    ground (arith, effect_before_run n (suc i) (suc e) k (omega arith))

direct_before_run :
    (n i e k : ℕ) → k < i → contains (direct_numbers_of (addressable_run n i e)) (pos k) ≡ false
unfolding addressable_run contains addressable_channels_of
direct_before_run zero i e k h = refl
direct_before_run (suc n) i e k h =
    ground (arith, direct_before_run n (suc i) (suc e) k (omega arith))

run-Distinct :
    (n i e : ℕ)
    → Distinct (effect_numbers_of (addressable_run n i e))
      × Distinct (direct_numbers_of (addressable_run n i e))
unfolding addressable_run addressable_channels_of
run-Distinct zero i e = (tt, tt)
run-Distinct (suc n) i e =
    let (a, b) = run-Distinct n (suc i) (suc e) in
    (
      (effect_before_run n (suc i) (suc e) e (omega arith), a),
      (direct_before_run n (suc i) (suc e) i (omega arith), b),
    )

-- The table that the parser builds before it validates it.
abbrev pub built :
    List ℕ → List ℕ → ℕ → ℕ → ℕ → Message → List AsusAuraConfigChannel → AsusAuraConfigTable
built response table headers mainboard rgb summary channels = record {
  valid = true;
  addressable_header_count = pos headers;
  mainboard_led_count = pos mainboard;
  rgb_header_count = pos rgb;
  response = response;
  table = table;
  channels = channels;
  summary = summary;
  error = blank;
}

-- The counts that a table may report, `rgb` being the fixed headers after the normalization.
pub record CountsOk (headers mainboard rgb : ℕ) : Type 0 where
  pub headers_le : headers ≤ 16
  pub rgb_le : rgb ≤ 3
  pub mask : (rgb ≡ 0) ⊎ (mainboard ≤ 16)
  pub control : (1 ≤ headers) ⊎ ((1 ≤ mainboard) × (mainboard ≤ 16))

abbrev mainboard_channel : ℕ → ℕ → AsusAuraConfigChannel
mainboard_channel mainboard rgb = record {
  kind = fixed;
  effect_channel = pos 0;
  direct_channel = pos 0x04;
  led_count = pos mainboard;
  header_count = pos rgb;
}

build_channels-suc :
    (m rgb headers : ℕ)
    → build_channels (suc m) rgb headers
      ≡ mainboard_channel (suc m) rgb ∷ addressable_run headers 0 1
unfolding build_channels
build_channels-suc m rgb headers = ground arith

no_mainboard-WriteReady :
    (response table : List ℕ) (headers rgb : ℕ) (note : Message)
    → CountsOk headers 0 rgb
    → WriteReady (built response table headers 0 rgb note (addressable_run headers 0 0))
unfolding count_fixed addressable_channels_of fixed_channel fixed_zones fixed_exposed_zone_count
    exposed_zone_count
no_mainboard-WriteReady response table headers rgb note o =
    let config = built response table headers 0 rgb note (addressable_run headers 0 0) in
    let (n, f, w) = run-counts headers 0 0 in
    let (effects, directs) = run-Distinct headers 0 0 in
    record {
      valid = refl;
      channels =
          run-ChannelOk config headers 0 0 (omega (arith, o.headers_le))
            (omega (arith, o.headers_le));
      one_fixed = omega (arith, f);
      effects = effects;
      directs = directs;
      headers = ap pos n;
      headers_le = omega (arith, n, o.headers_le);
      presence = (λ _. refl, λ _. f);
      exposes = ground (arith, n, w, o.control);
    }

mainboard-WriteReady :
    (response table : List ℕ) (headers m rgb : ℕ) (note : Message)
    → rgb ≤ suc m
    → CountsOk headers (suc m) rgb
    → WriteReady (
        built response table headers
          (suc m)
          rgb
          note
          (mainboard_channel (suc m) rgb ∷ addressable_run headers 0 1))
unfolding count_fixed addressable_channels_of fixed_channel fixed_zones fixed_exposed_zone_count
    exposed_zone_count
mainboard-WriteReady response table headers m rgb note le o =
    let config =
      built response table headers (suc m) rgb note
        (mainboard_channel (suc m) rgb ∷ addressable_run headers 0 1) in
    let (n, f, w) = run-counts headers 0 1 in
    let (effects, directs) = run-Distinct headers 0 1 in
    record {
      valid = refl;
      channels = (
        record {
          effect = omega arith;
          of_fixed = λ _. record {
            lamps = omega arith;
            headers = omega (arith, o.rgb_le);
            headers_le = omega arith;
            mask = ground (arith, o.mask);
            lamps_declared = refl;
            headers_declared = refl;
          };
          of_addressable = λ q. ground arith;
        },
        run-ChannelOk config headers 0 1 (omega (arith, o.headers_le))
            (omega (arith, o.headers_le)),
      );
      one_fixed = omega (arith, f);
      effects = (effect_before_run headers 0 1 0 (omega arith), effects);
      directs = directs;
      headers = ap pos n;
      headers_le = omega (arith, n, o.headers_le);
      presence = (λ q. absurd (omega arith), λ q. ground arith);
      exposes = ground (arith, n, o.control, o.mask);
    }

pub built-WriteReady :
    (response table : List ℕ) (headers mainboard rgb : ℕ) (note : Message)
    → rgb ≤ mainboard
    → CountsOk headers mainboard rgb
    → WriteReady
        (built response table headers mainboard rgb note (build_channels mainboard rgb headers))
unfolding build_channels
built-WriteReady response table headers zero rgb note le o =
    no_mainboard-WriteReady response table headers rgb note o
built-WriteReady response table headers (suc m) rgb note le o =
    subst (λ cs. WriteReady (built response table headers (suc m) rgb note cs))
      (sym (build_channels-suc m rgb headers))
      (mainboard-WriteReady response table headers m rgb note le o)

-- What the parser makes of the reported number of fixed headers.
abbrev pub normalized : ℕ → ℕ → ℕ
normalized mainboard reported = if ltb mainboard reported then 0 else reported

pub normalized-le : (mainboard reported : ℕ) → normalized mainboard reported ≤ mainboard
normalized-le mainboard reported = ground arith

exposes_control :
    (config : AsusAuraConfigTable) (headers mainboard rgb : ℕ)
    → config.channels ≡ build_channels mainboard rgb headers
    → (rgb ≡ 0) ⊎ (mainboard ≤ 16)
    → 1 ≤ exposed_zone_count config
    → (1 ≤ headers) ⊎ ((1 ≤ mainboard) × (mainboard ≤ 16))
unfolding exposed_zone_count fixed_exposed_zone_count fixed_channel addressable_channels_of
    fixed_zones build_channels
exposes_control config headers zero rgb e mask h = ground (arith, run-counts headers 0 0)
exposes_control config headers (suc m) rgb e mask h = ground (arith, run-counts headers 0 1)

is_write_ready-built :
    (response table : List ℕ) (headers mainboard reported : ℕ)
    → CountsOk headers mainboard (normalized mainboard reported)
    → is_write_ready (
        built response table headers mainboard
          (normalized mainboard reported)
          blank
          (build_channels mainboard (normalized mainboard reported) headers))
      ≡ true
is_write_ready-built response table headers mainboard reported o = (is_write_ready_iff _).1 (
    built-WriteReady response table headers mainboard (normalized mainboard reported) blank
      (normalized-le mainboard reported) o)

pub table_of_counts-built :
    (response table : List ℕ) (headers mainboard reported : ℕ)
    → CountsOk headers mainboard (normalized mainboard reported)
    → table_of_counts response table headers mainboard reported
      ≡ built response table headers mainboard
          (normalized mainboard reported)
          (table_of_counts response table headers mainboard reported).summary
          (build_channels mainboard (normalized mainboard reported) headers)
unfolding table_of_counts is_write_ready
table_of_counts-built response table headers mainboard reported o = ground (
  arith,
  is_write_ready-built response table headers mainboard reported o,
  o.headers_le,
  o.rgb_le,
  o.mask,
  o.control,
)

table_of_counts-checks :
    (response table : List ℕ) (headers mainboard reported : ℕ)
    → (table_of_counts response table headers mainboard reported).valid ≡ true
    → let rgb = normalized mainboard reported in
      (headers ≤ 16)
      × (rgb ≤ 3)
      × ((rgb ≡ 0) ⊎ (mainboard ≤ 16))
      × (is_write_ready (
            built response table headers mainboard rgb blank (build_channels mainboard rgb headers))
          ≡ true)
unfolding table_of_counts invalid_config_table is_write_ready
table_of_counts-checks response table headers mainboard reported h =
    (ground arith, ground arith, ground arith, ground arith)

pub table_of_counts-valid :
    (response table : List ℕ) (headers mainboard reported : ℕ)
    → (table_of_counts response table headers mainboard reported).valid ≡ true
    → CountsOk headers mainboard (normalized mainboard reported)
table_of_counts-valid response table headers mainboard reported h =
    let (headers_le, rgb_le, mask, ready) =
      table_of_counts-checks response table headers mainboard reported h in
    record {
      headers_le = headers_le;
      rgb_le = rgb_le;
      mask = mask;
      control =
          exposes_control _ headers mainboard (normalized mainboard reported) refl mask
            ((is_write_ready_iff _).0 ready).exposes;
    }
