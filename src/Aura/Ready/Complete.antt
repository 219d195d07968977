-- ===== src/Aura/Ready/Complete.antt =====
-- `validate_config` lets every table pass that is `WriteReady`.
use mathlib.Core.List.{append_assoc}
use luma_core.Prelude.{
  All, ℕ, ◌+◌, ◌≤◌, ◌≡◌, ◌≢◌, refl, ap, ◌∙◌, ℤ, pos, true, false, List, [], ◌∷◌, ◌++◌, arith,
  length, sym, subst, ◌↔◌,
}
use luma_core.Aura.{
  AsusAuraConfigTable, AsusAuraConfigChannel, fixed, addressable, ok, is_ok, ok_of_is_ok,
}
use luma_core.Aura.Config.{
  contains, Scan, empty_scan, check_fixed, check_addressable, check_channel, check_channels,
  check_totals, validate_config, addressable_channels_of, fixed_exposed_zone_count,
  exposed_zone_count, is_write_ready, fixed_channel,
}
use luma_core.Aura.Ready.{
  ChannelOk, Distinct, count_fixed, effect_numbers_of, direct_numbers_of, WriteReady,
}
use luma_core.Aura.Ready.Sound.{
  check_channel-Round, check_channels-Run, is_write_ready-WriteReady, count_fixed-cons,
  check_totals_lem,
}

contains-mid :
    (xs : List ℤ) (z : ℤ) (zs : List ℤ) (x : ℤ) → contains (xs ++ (z ∷ zs)) x ≡ false → z ≢ x
unfolding contains
contains-mid [] z zs x h = ground arith
contains-mid (y ∷ ys) z zs x h = contains-mid ys z zs x (ground arith)

-- A number is new to what stands before it in a list of distinct numbers.
Distinct-new :
    (xs : List ℤ) (z : ℤ) (zs : List ℤ) → Distinct (xs ++ (z ∷ zs)) → contains xs z ≡ false
unfolding contains
Distinct-new [] z zs d = refl
Distinct-new (x ∷ xs) z zs d = ground (arith, contains-mid xs z zs x d.0, Distinct-new xs z zs d.1)

check_channel-passes :
    (config : AsusAuraConfigTable) (c : AsusAuraConfigChannel) (s : Scan)
    → ChannelOk config c
    → contains s.effect_channels c.effect_channel ≡ false
    → (c.kind ≡ fixed → s.fixed_channels ≡ 0)
    → (c.kind ≡ addressable → contains s.direct_channels c.direct_channel ≡ false)
    → is_ok (check_channel config c s) ≡ true
unfolding check_channel check_fixed check_addressable
check_channel-passes config c s o e f d = ground arith

-- What the loop needs to pass the rest of the channels.
record Fits (config : AsusAuraConfigTable) (cs : List AsusAuraConfigChannel) (s : Scan)
    : Type 0 where
  channels : All (ChannelOk config) cs
  effects : Distinct (s.effect_channels ++ effect_numbers_of cs)
  directs : Distinct (s.direct_channels ++ direct_numbers_of cs)
  one_fixed : s.fixed_channels + count_fixed cs ≤ 1

fixed_once :
    (c : AsusAuraConfigChannel) (n : ℕ) (cs : List AsusAuraConfigChannel)
    → n + count_fixed (c ∷ cs) ≤ 1
    → c.kind ≡ fixed
    → n ≡ 0
unfolding count_fixed
fixed_once c n cs h e = ground arith

direct_fresh :
    (c : AsusAuraConfigChannel) (xs : List ℤ) (cs : List AsusAuraConfigChannel)
    → Distinct (xs ++ direct_numbers_of (c ∷ cs))
    → c.kind ≡ addressable
    → contains xs c.direct_channel ≡ false
unfolding addressable_channels_of
direct_fresh c xs cs d e =
    Distinct-new xs c.direct_channel (direct_numbers_of cs) (rw (e, addressable_channels_of) at d)

check_channels-passes :
    (config : AsusAuraConfigTable) (cs : List AsusAuraConfigChannel) (s : Scan)
    → Fits config cs s
    → (t : Scan) × (check_channels config cs s ≡ ok t)
unfolding check_channels
check_channels-passes config [] s f = (s, refl)
check_channels-passes config (c ∷ cs) s f =
    let (u, first) = ok_of_is_ok (check_channel config c s) (
      check_channel-passes config c s f.channels.0
        (Distinct-new s.effect_channels c.effect_channel (effect_numbers_of cs) f.effects)
        (fixed_once c s.fixed_channels cs f.one_fixed)
        (direct_fresh c s.direct_channels cs f.directs)) in
    let r = check_channel-Round config c s u first in
    let (fixed_eq, _, direct_eq) = count_fixed-cons c cs in
    let effects_eq : s.effect_channels ++ effect_numbers_of (c ∷ cs)
        ≡ u.effect_channels ++ effect_numbers_of cs =
      sym (append_assoc s.effect_channels (c.effect_channel ∷ []) (effect_numbers_of cs))
      ∙ ap (λ zs. zs ++ effect_numbers_of cs) (sym r.effects) in
    let directs_eq : s.direct_channels ++ direct_numbers_of (c ∷ cs)
        ≡ u.direct_channels ++ direct_numbers_of cs =
      ap (λ zs. s.direct_channels ++ zs) direct_eq
      ∙ sym (append_assoc s.direct_channels (direct_numbers_of (c ∷ [])) (direct_numbers_of cs))
      ∙ ap (λ zs. zs ++ direct_numbers_of cs) (sym r.directs) in
    let (t, rest) = check_channels-passes config cs u (record {
      channels = f.channels.1;
      effects = subst Distinct effects_eq f.effects;
      directs = subst Distinct directs_eq f.directs;
      one_fixed = omega (arith, f.one_fixed, r.fixed_eq, fixed_eq);
    }) in
    (t, rw first rest)

no_channels_expose_nothing :
    (config : AsusAuraConfigTable) → config.channels ≡ [] → exposed_zone_count config ≡ 0
unfolding exposed_zone_count fixed_exposed_zone_count fixed_channel addressable_channels_of
no_channels_expose_nothing config e = ground arith

WriteReady-passes :
    (config : AsusAuraConfigTable)
    → WriteReady config
    → (t : Scan) × (check_channels config config.channels empty_scan ≡ ok t)
      × (is_ok (check_totals config t) ≡ true)
unfolding exposed_zone_count
WriteReady-passes config w =
    let (t, loop) = check_channels-passes config config.channels empty_scan (record {
      channels = w.channels;
      effects = w.effects;
      directs = w.directs;
      one_fixed = omega (arith, w.one_fixed);
    }) in
    let run = check_channels-Run config config.channels empty_scan t loop in
    let fixed_eq : count_fixed config.channels ≡ t.fixed_channels = omega (arith, run.fixed_eq) in
    let headers_eq : length (addressable_channels_of config.channels) ≡ t.addressable_channels =
      omega (arith, run.addressable_eq) in
    (
      t,
      loop,
      (check_totals_lem config t).1 (
        omega (arith, w.headers_le),
        subst (λ (n : ℕ). pos n ≡ config.addressable_header_count) headers_eq w.headers,
        subst (λ (n : ℕ). (n ≡ 0) ↔ (config.mainboard_led_count ≡ pos 0)) fixed_eq w.presence,
        omega (arith, w.exposes),
      ),
    )

WriteReady-is_write_ready :
    (config : AsusAuraConfigTable) (cs : List AsusAuraConfigChannel)
    → config.channels ≡ cs
    → WriteReady config
    → is_write_ready config ≡ true
unfolding is_write_ready validate_config
WriteReady-is_write_ready config [] e w =
    ground (arith, no_channels_expose_nothing config e, w.exposes)
WriteReady-is_write_ready config (c ∷ cs) e w =
    let (t, loop, totals) = WriteReady-passes config w in
    let from_list : check_channels config (c ∷ cs) empty_scan ≡ ok t =
      ap (λ zs. check_channels config zs empty_scan) (sym e) ∙ loop in
    ground (arith, w.valid, from_list, totals)

-- The check of a config table lets pass exactly the tables that are `WriteReady`: verified, with
-- every channel within its bounds, at most one fixed channel, no effect or direct channel used twice,
-- counts that agree with the declared ones, and at least one zone to control.
pub is_write_ready_iff :
    (config : AsusAuraConfigTable) → (is_write_ready config ≡ true) ↔ WriteReady config
is_write_ready_iff config =
    (is_write_ready-WriteReady config, WriteReady-is_write_ready config config.channels refl)
