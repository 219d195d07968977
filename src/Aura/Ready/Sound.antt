-- ===== src/Aura/Ready/Sound.antt =====
-- What `validate_config` lets pass is `WriteReady`: an invariant of its loop.
use mathlib.Core.List.{append-nil, append_assoc}
use luma_core.Prelude.{
  All, ℕ, ◌+◌, ◌≤◌, ◌≡◌, ◌≢◌, refl, ap, ◌∙◌, ℤ, pos, true, false, List, [], ◌∷◌, ◌++◌, arith,
  length, sym, subst, ◌↔◌,
}
use luma_core.Aura.{
  AsusAuraConfigTable, AsusAuraConfigChannel, AsusAuraChannelType, fixed, addressable, ok,
  >>=-eq-ok, is_ok, ◌>>=◌, >>=-is_ok,
}
use luma_core.Aura.Config.{
  contains, Scan, empty_scan, check_fixed, check_addressable, check_channel, check_channels,
  check_totals, validate_config, addressable_channels_of, fixed_exposed_zone_count,
  exposed_zone_count, is_write_ready,
}
use luma_core.Aura.Ready.{
  ChannelOk, Distinct, count_fixed, effect_numbers_of, direct_numbers_of, WriteReady,
}

contains-snoc :
    (xs : List ℤ) (y z : ℤ) → contains xs z ≡ false → y ≢ z → contains (xs ++ (y ∷ [])) z ≡ false
unfolding contains
contains-snoc [] y z h n = ground arith
contains-snoc (x ∷ xs) y z h n = ground (arith, contains-snoc xs y z)

contains_ne :
    (xs : List ℤ) (x y : ℤ) → contains (x ∷ xs) y ≡ false → (x ≢ y) × (contains xs y ≡ false)
unfolding contains
contains_ne xs x y h = ground arith

Distinct-snoc :
    (xs : List ℤ) (y : ℤ) → Distinct xs → contains xs y ≡ false → Distinct (xs ++ (y ∷ []))
unfolding contains
Distinct-snoc [] y d h = (refl, tt)
Distinct-snoc (x ∷ xs) y d h =
    let (n, rest) = contains_ne xs x y h in
    (contains-snoc xs y x d.0 (λ e. n (sym e)), Distinct-snoc xs y d.1 rest)

-- One round of the loop.
pub record Round (config : AsusAuraConfigTable) (c : AsusAuraConfigChannel) (s t : Scan)
    : Type 0 where
  pub channel : ChannelOk config c
  pub fixed_eq : t.fixed_channels ≡ s.fixed_channels + count_fixed (c ∷ [])
  pub fixed_le : s.fixed_channels ≤ 1 → t.fixed_channels ≤ 1
  pub addressable_eq :
      t.addressable_channels ≡ s.addressable_channels + length (addressable_channels_of (c ∷ []))
  pub effects : t.effect_channels ≡ s.effect_channels ++ (c.effect_channel ∷ [])
  pub effect_new : contains s.effect_channels c.effect_channel ≡ false
  pub directs : t.direct_channels ≡ s.direct_channels ++ direct_numbers_of (c ∷ [])
  pub direct_new : c.kind ≡ addressable → contains s.direct_channels c.direct_channel ≡ false

pub check_channel-Round :
    (config : AsusAuraConfigTable) (c : AsusAuraConfigChannel) (s t : Scan)
    → check_channel config c s ≡ ok t
    → Round config c s t
unfolding check_channel check_fixed check_addressable count_fixed addressable_channels_of
check_channel-Round config c s t h = record {
  channel = record {
    effect = ground arith;
    of_fixed = ground arith;
    of_addressable = ground arith;
  };
  fixed_eq = ground arith;
  fixed_le = ground arith;
  addressable_eq = ground arith;
  effects = ground arith;
  effect_new = ground arith;
  directs = ground (arith, append-nil s.direct_channels);
  direct_new = ground arith;
}

pub count_fixed-cons :
    (c : AsusAuraConfigChannel) (cs : List AsusAuraConfigChannel)
    → (count_fixed (c ∷ cs) ≡ count_fixed (c ∷ []) + count_fixed cs)
      × (length (addressable_channels_of (c ∷ cs))
          ≡ length (addressable_channels_of (c ∷ [])) + length (addressable_channels_of cs))
      × (direct_numbers_of (c ∷ cs) ≡ direct_numbers_of (c ∷ []) ++ direct_numbers_of cs)
unfolding count_fixed addressable_channels_of
count_fixed-cons c cs = (ground arith, ground arith, ground arith)

-- The whole loop.
pub record Run (config : AsusAuraConfigTable) (cs : List AsusAuraConfigChannel) (s t : Scan)
    : Type 0 where
  pub channels : All (ChannelOk config) cs
  pub fixed_eq : t.fixed_channels ≡ s.fixed_channels + count_fixed cs
  pub fixed_le : s.fixed_channels ≤ 1 → t.fixed_channels ≤ 1
  pub addressable_eq :
      t.addressable_channels ≡ s.addressable_channels + length (addressable_channels_of cs)
  pub effects : t.effect_channels ≡ s.effect_channels ++ effect_numbers_of cs
  pub effects_new : Distinct s.effect_channels → Distinct t.effect_channels
  pub directs : t.direct_channels ≡ s.direct_channels ++ direct_numbers_of cs
  pub directs_new : Distinct s.direct_channels → Distinct t.direct_channels

directs_step :
    (config : AsusAuraConfigTable) (c : AsusAuraConfigChannel) (s t : Scan)
    (k : AsusAuraChannelType)
    → c.kind ≡ k
    → Round config c s t
    → Distinct s.direct_channels
    → Distinct t.direct_channels
unfolding addressable_channels_of
directs_step config c s t fixed e r d =
    subst Distinct (sym (append-nil s.direct_channels) ∙ sym (rw e at (r.directs))) d
directs_step config c s t addressable e r d =
    subst Distinct (sym (rw e at (r.directs)))
      (Distinct-snoc s.direct_channels c.direct_channel d (r.direct_new e))

ok-injective : {s t : Scan} → ok s ≡ ok t → s ≡ t
ok-injective h = cc

pub check_channels-Run :
    (config : AsusAuraConfigTable) (cs : List AsusAuraConfigChannel) (s t : Scan)
    → check_channels config cs s ≡ ok t
    → Run config cs s t
unfolding check_channels count_fixed addressable_channels_of
check_channels-Run config [] s t h = subst (Run config [] s) (ok-injective h) (record {
  channels = tt;
  fixed_eq = omega arith;
  fixed_le = λ k. k;
  addressable_eq = omega arith;
  effects = sym (append-nil s.effect_channels);
  effects_new = λ d. d;
  directs = sym (append-nil s.direct_channels);
  directs_new = λ d. d;
})
check_channels-Run config (c ∷ cs) s t h =
    let (u, first, rest) = >>=-eq-ok (check_channel config c s) (check_channels config cs) h in
    let r = check_channel-Round config c s u first in
    let run = check_channels-Run config cs u t rest in
    let (fs, as', ds) = count_fixed-cons c cs in
    record {
      channels = (r.channel, run.channels);
      fixed_eq = omega (arith, run.fixed_eq, r.fixed_eq, fs);
      fixed_le = λ k. run.fixed_le (r.fixed_le k);
      addressable_eq = omega (arith, run.addressable_eq, r.addressable_eq, as');
      effects =
          run.effects
          ∙ ap (λ zs. zs ++ effect_numbers_of cs) r.effects
          ∙ append_assoc s.effect_channels (c.effect_channel ∷ []) (effect_numbers_of cs);
      effects_new = λ d. run.effects_new (
          subst Distinct (sym r.effects)
            (Distinct-snoc s.effect_channels c.effect_channel d r.effect_new));
      directs =
          run.directs
          ∙ ap (λ zs. zs ++ direct_numbers_of cs) r.directs
          ∙ append_assoc s.direct_channels (direct_numbers_of (c ∷ [])) (direct_numbers_of cs)
          ∙ ap (λ zs. s.direct_channels ++ zs) (sym ds);
      directs_new = λ d. run.directs_new (directs_step config c s u c.kind refl r d);
    }

pub check_totals_lem :
    (config : AsusAuraConfigTable) (t : Scan)
    → (is_ok (check_totals config t) ≡ true) ↔ (
        (t.addressable_channels ≤ 16)
        × (pos t.addressable_channels ≡ config.addressable_header_count)
        × ((t.fixed_channels ≡ 0) ↔ (config.mainboard_led_count ≡ pos 0))
        × (1 ≤ t.addressable_channels + fixed_exposed_zone_count config))
unfolding check_totals
check_totals_lem config t = (ground arith, ground arith)

pub validate_config-parts :
    (config : AsusAuraConfigTable) (cs : List AsusAuraConfigChannel)
    → config.channels ≡ cs
    → is_write_ready config ≡ true
    → (config.valid ≡ true)
      × ((t : Scan) × (check_channels config config.channels empty_scan ≡ ok t)
          × (is_ok (check_totals config t) ≡ true))
unfolding is_write_ready validate_config
validate_config-parts config [] e h = ground arith
validate_config-parts config (c ∷ cs) e h = (ground arith, passes)
  where
    loop : is_ok (check_channels config (c ∷ cs) empty_scan >>= check_totals config) ≡ true
    loop = ground arith

    passes :
        (t : Scan) × (check_channels config config.channels empty_scan ≡ ok t)
        × (is_ok (check_totals config t) ≡ true)
    passes =
        let (t, run, done) =
          >>=-is_ok (check_channels config (c ∷ cs) empty_scan) (check_totals config) loop in
        (t, ap (λ zs. check_channels config zs empty_scan) e ∙ run, done)

pub is_write_ready-WriteReady :
    (config : AsusAuraConfigTable) → is_write_ready config ≡ true → WriteReady config
unfolding exposed_zone_count
is_write_ready-WriteReady config h =
    let (valid, parts) = validate_config-parts config config.channels refl h in
    let (t, loop, done) = parts in
    let run = check_channels-Run config config.channels empty_scan t loop in
    let (limit, count, presence, exposes) = (check_totals_lem config t).0 done in
    let fixed_eq : t.fixed_channels ≡ count_fixed config.channels = omega (arith, run.fixed_eq) in
    let headers_eq : t.addressable_channels ≡ length (addressable_channels_of config.channels) =
      omega (arith, run.addressable_eq) in
    record {
      valid = valid;
      channels = run.channels;
      one_fixed = omega (arith, run.fixed_eq, run.fixed_le (omega arith));
      effects = subst Distinct run.effects (run.effects_new tt);
      directs = subst Distinct run.directs (run.directs_new tt);
      headers = subst (λ (n : ℕ). pos n ≡ config.addressable_header_count) headers_eq count;
      headers_le = omega (arith, run.addressable_eq);
      presence =
          subst (λ (n : ℕ). (n ≡ 0) ↔ (config.mainboard_led_count ≡ pos 0)) fixed_eq presence;
      exposes = omega (arith, run.addressable_eq);
    }
