-- ===== src/Aura/Targets.antt =====
-- AsusAuraHidProtocol.cpp, `resolveEffectTarget`: the channel and the colour offset behind a zone.
pub mod Zones
use luma_core.Prelude.{
  Option, All-get, get_elem?-some, All, ℕ, zero, suc, ◌+◌, ◌-◌, ◌≤◌, ◌<◌, ◌≡◌, refl, ap, ◌∙◌, ◌⊎◌,
  inl, inr, ◌↔◌, pos, bound, pos_part, List, [], ◌∷◌, arith, length, get_elem?, none, some,
  if◌then◌else◌, ltb, Bool-cases, Option-cases, false, subst, sym,
}
use luma_core.Aura.{
  AsusAuraConfigTable, AsusAuraConfigChannel, AsusAuraChannelType, fixed, addressable, header_limit,
}
use luma_core.Aura.Config.{
  Target, fixed_channel, addressable_channels_of, fixed_zones, fixed_exposed_zone_count,
  exposed_zone_count, resolve_addressable, resolve_effect_target,
}
use luma_core.Aura.Ready.{FixedOk, AddressableOk, ChannelOk, WriteReady}

-- How many lamps a static colour takes on a fixed channel.
unfoldable pub width : AsusAuraConfigChannel → ℕ
width c = if ltb 0 (bound c.header_count header_limit) then 1 else pos_part c.led_count

-- What a zone of a table stands for.
pub record Resolved (config : AsusAuraConfigTable) (zone : ℕ) (t : Target) : Type 0 where
  pub place :
      ((zone < fixed_exposed_zone_count config) × (t.channel.kind ≡ fixed))
      ⊎ ((fixed_exposed_zone_count config ≤ zone) × (t.channel.kind ≡ addressable))
  pub of_fixed :
      t.channel.kind ≡ fixed
      → (start : ℕ) × (t.color_offset ≡ pos start)
        × (1 ≤ width t.channel)
        × (start + width t.channel ≤ 16)
  pub of_addressable : t.channel.kind ≡ addressable → AddressableOk t.channel

pub kind-cases : (k : AsusAuraChannelType) → (k ≡ fixed) ⊎ (k ≡ addressable)
kind-cases fixed = inl refl
kind-cases addressable = inr refl

some-injective : {c d : AsusAuraConfigChannel} → some c ≡ some d → c ≡ d
some-injective e = cc

fixed_channel-cons :
    (d : AsusAuraConfigChannel) (cs : List AsusAuraConfigChannel)
    → ((d.kind ≡ fixed)
        × (fixed_channel (d ∷ cs) ≡ some d)
        × (addressable_channels_of (d ∷ cs) ≡ addressable_channels_of cs))
      ⊎ ((d.kind ≡ addressable)
          × (fixed_channel (d ∷ cs) ≡ fixed_channel cs)
          × (addressable_channels_of (d ∷ cs) ≡ d ∷ addressable_channels_of cs))
unfolding fixed_channel addressable_channels_of
fixed_channel-cons d cs = elim (kind-cases d.kind) [
  | inl f ↦ inl (
    f,
    ap (λ k. elim k [ fixed ↦ some d | addressable ↦ fixed_channel cs ]) f,
    ap
        (λ k. elim k [
          | fixed ↦ addressable_channels_of cs
          | addressable ↦ d ∷ addressable_channels_of cs
        ])
        f,
  )
  | inr a ↦ inr (
    a,
    ap (λ k. elim k [ fixed ↦ some d | addressable ↦ fixed_channel cs ]) a,
    ap
        (λ k. elim k [
          | fixed ↦ addressable_channels_of cs
          | addressable ↦ d ∷ addressable_channels_of cs
        ])
        a,
  )
]

module _ (P : AsusAuraConfigChannel → Type 0) where
  fixed_channel-All :
      (cs : List AsusAuraConfigChannel) (c : AsusAuraConfigChannel)
      → All P cs
      → fixed_channel cs ≡ some c
      → P c × (c.kind ≡ fixed)
  unfolding fixed_channel
  fixed_channel-All [] c all e = cc
  fixed_channel-All (d ∷ cs) c all e = elim (fixed_channel-cons d cs) [
    | inl (f, first, _) ↦
        subst (λ (x : AsusAuraConfigChannel). P x × (x.kind ≡ fixed))
          (some-injective (sym first ∙ e)) (all.0, f)
    | inr (_, later, _) ↦ fixed_channel-All cs c all.1 (sym later ∙ e)
  ]

  pub All-addressable :
      (cs : List AsusAuraConfigChannel)
      → All P cs
      → All (λ c. P c × (c.kind ≡ addressable)) (addressable_channels_of cs)
  unfolding addressable_channels_of
  All-addressable [] all = tt
  All-addressable (d ∷ cs) all =
      let Q : List AsusAuraConfigChannel → Type 0 = All (λ c. P c × (c.kind ≡ addressable)) in
      elim (fixed_channel-cons d cs) [
        | inl (_, _, same) ↦ subst Q (sym same) (All-addressable cs all.1)
        | inr (a, _, more) ↦ subst Q (sym more) ((all.0, a), All-addressable cs all.1)
      ]

pub get_elem?-ge {ℓ} : {A : Type ℓ} (xs : List A) (i : ℕ) → length xs ≤ i → get_elem? xs i ≡ none
get_elem?-ge [] i h = refl
get_elem?-ge (x ∷ xs) zero h = absurd (omega arith)
get_elem?-ge (x ∷ xs) (suc i) h = get_elem?-ge xs i (omega arith)

fixed_zones-width :
    (config : AsusAuraConfigTable) (c : AsusAuraConfigChannel) (zone : ℕ)
    → FixedOk config c
    → zone < fixed_zones c
    → (start : ℕ) × ((if ltb 0 (bound c.header_count header_limit)
          then pos_part c.led_count - bound c.header_count header_limit + zone
          else 0)
        ≡ start)
      × (1 ≤ width c)
      × (start + width c ≤ 16)
unfolding fixed_zones width
fixed_zones-width config c zone ok less =
    elim (Bool-cases (ltb 0 (bound c.header_count header_limit))) [
      | inl some_header ↦ rw (some_header) (_, refl, ground arith, ground arith)
      | inr no_header ↦ rw (no_header) (0, refl, ground arith, ground arith)
    ]

addressable-Resolved :
    (config : AsusAuraConfigTable) (zone : ℕ)
    → All (ChannelOk config) config.channels
    → fixed_exposed_zone_count config ≤ zone
    → zone < exposed_zone_count config
    → (t : Target) × (resolve_addressable config zone ≡ some t) × Resolved config zone t
unfolding resolve_addressable exposed_zone_count
addressable-Resolved config zone all late less =
    let k = zone - fixed_exposed_zone_count config in
    let (c, found) = get_elem?-some (addressable_channels_of config.channels) k (omega arith) in
    let right : ChannelOk config c × (c.kind ≡ addressable) =
      All-get (λ c. ChannelOk config c × (c.kind ≡ addressable))
        (addressable_channels_of config.channels) k c
        (All-addressable (ChannelOk config) config.channels all) found in
    let early : ltb zone (fixed_exposed_zone_count config) ≡ false = ground arith in
    rw (early, found)
      (
        _,
        refl,
        record {
          place = inr (late, right.1);
          of_fixed = λ f. cc;
          of_addressable = right.0.of_addressable;
        },
      )

none-fixed_exposed :
    (config : AsusAuraConfigTable)
    → fixed_channel config.channels ≡ none
    → fixed_exposed_zone_count config ≡ 0
unfolding fixed_exposed_zone_count
none-fixed_exposed config e = rw (fixed_exposed_zone_count, e)

some-fixed_exposed :
    (config : AsusAuraConfigTable) (c : AsusAuraConfigChannel)
    → fixed_channel config.channels ≡ some c
    → fixed_exposed_zone_count config ≡ fixed_zones c
unfolding fixed_exposed_zone_count
some-fixed_exposed config c e = rw (fixed_exposed_zone_count, e)

pub resolve-late :
    (config : AsusAuraConfigTable) (zone : ℕ)
    → fixed_exposed_zone_count config ≤ zone
    → resolve_effect_target config zone ≡ resolve_addressable config zone
unfolding resolve_effect_target
resolve-late config zone late =
    let test : ltb zone (fixed_exposed_zone_count config) ≡ false = ground arith in
    elim (Option-cases (fixed_channel config.channels)) [
      | inl e ↦ rw (resolve_effect_target, e)
      | inr (c, e) ↦ rw (resolve_effect_target, e, test)
    ]

channel-found :
    (o : Option AsusAuraConfigChannel) (f : AsusAuraConfigChannel → Target) (t : Target)
    → ((c : AsusAuraConfigChannel) → (f c).channel ≡ c)
    → (elim o [ none ↦ none | some c ↦ some (f c) ]) ≡ some t
    → o ≡ some t.channel
channel-found none f t same e = cc
channel-found (some c) f t same e =
    let made : f c ≡ t = cc in ap some (sym (same c) ∙ ap (λ (x : Target). x.channel) made)

-- Behind the fixed headers a zone stands for the addressable channel of its number.
pub late-channel :
    (config : AsusAuraConfigTable) (zone : ℕ) (t : Target)
    → fixed_exposed_zone_count config ≤ zone
    → resolve_effect_target config zone ≡ some t
    → get_elem? (addressable_channels_of config.channels) (zone - fixed_exposed_zone_count config)
      ≡ some t.channel
unfolding resolve_addressable
late-channel config zone t late found =
    let test : ltb zone (fixed_exposed_zone_count config) ≡ false = ground arith in
    let e = sym (resolve-late config zone late) ∙ found in
    channel-found _ _ t (λ c. refl) (rw (resolve_addressable, test) at e)

late-Resolved :
    (config : AsusAuraConfigTable) (zone : ℕ)
    → All (ChannelOk config) config.channels
    → fixed_exposed_zone_count config ≤ zone
    → zone < exposed_zone_count config
    → (t : Target) × (resolve_effect_target config zone ≡ some t) × Resolved config zone t
late-Resolved config zone all late less =
    let (t, e, right) = addressable-Resolved config zone all late less in
    (t, resolve-late config zone late ∙ e, right)

pub late-addressable :
    {config : AsusAuraConfigTable} {zone : ℕ} {t : Target}
    → Resolved config zone t
    → fixed_exposed_zone_count config ≤ zone
    → t.channel.kind ≡ addressable
late-addressable right late = elim (right.place) [
  | inl (early, _) ↦ absurd (omega arith)
  | inr (_, a) ↦ a
]

pub addressable-late :
    {config : AsusAuraConfigTable} {zone : ℕ} {t : Target}
    → Resolved config zone t
    → t.channel.kind ≡ addressable
    → fixed_exposed_zone_count config ≤ zone
addressable-late right a = elim (right.place) [ inl (_, f) ↦ cc | inr (late, _) ↦ late ]

-- A zone that the table exposes resolves, to a target whose lamps fit the reports.
pub resolve-Resolved :
    (config : AsusAuraConfigTable) (zone : ℕ)
    → All (ChannelOk config) config.channels
    → zone < exposed_zone_count config
    → (t : Target) × (resolve_effect_target config zone ≡ some t) × Resolved config zone t
unfolding resolve_effect_target
resolve-Resolved config zone all less = elim (Option-cases (fixed_channel config.channels)) [
  | inl e ↦
      let start : fixed_exposed_zone_count config ≤ zone =
        omega (arith, none-fixed_exposed config e) in
      late-Resolved config zone all start less
  | inr (c, e) ↦ elim (Bool-cases (ltb zone (fixed_exposed_zone_count config))) [
    | inr late ↦
        let start : fixed_exposed_zone_count config ≤ zone = ground arith in
        late-Resolved config zone all start less
    | inl early ↦
        let (right, f) = fixed_channel-All (ChannelOk config) config.channels c all e in
        let inside : zone < fixed_exposed_zone_count config = ground arith in
        let zones : zone < fixed_zones c = omega (arith, some-fixed_exposed config c e) in
        let (start, at, wide, fits) = fixed_zones-width config c zone (right.of_fixed f) zones in
        rw (resolve_effect_target, e, early)
          (
            _,
            refl,
            record {
              place = inl (inside, f);
              of_fixed = λ g. (start, ap pos at, wide, fits);
              of_addressable = right.of_addressable;
            },
          )
  ]
]
