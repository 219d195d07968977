-- ===== src/Asus/Zones.antt =====
-- AsusAuraHidDevice.cpp, `initializeZones`: the zones of a device agree with those that the protocol
-- addresses.
use luma_core.Prelude.{
  ℕ, zero, suc, ◌+◌, ◌≤◌, ◌≡◌, refl, ap, ◌∙◌, sym, ℤ, pos, pos_part, bound, Bool, true, false, List,
  [], ◌∷◌, ◌++◌, map, some, length, length-append, All, arith, Bool-cases, ltb, ◌==◌, inr, inl,
  ◌&&◌, length-map, if◌then◌else◌,
}
use mathlib.Core.List.{append-nil}
use luma_core.Real.{Real}
use luma_core.Zone.{RgbZone, RgbZoneType, make_zone, set_effect, led_count, addressable_header}
use luma_core.Zone.Laws.{length-fresh_leds}
use luma_core.Aura.{AsusAuraConfigTable, AsusAuraConfigChannel, header_limit}
use luma_core.Aura.Config.{
  fixed_channel, fixed_zones, fixed_exposed_zone_count, exposed_zone_count, addressable_channels_of,
}
use luma_core.Aura.Targets.{kind-cases}
use luma_core.Aura.Ready.{WriteReady, ChannelOk, count_fixed, Within}
use luma_core.Asus.{
  preview_zone, header_zones, fixed_channel_zones, fixed_loop, addressable_loop, initialize_zones,
  RgbColor, codes, preview_color, ltb_ℤ, not, max, default_zones,
}

-- A zone that every write can address: 1 to 120 lamps.
abbrev pub Lit : {D : Type 0} → RgbZone D → Type 0
Lit z = (1 ≤ led_count z) × (led_count z ≤ 120)

abbrev pub Header : {D : Type 0} → RgbZone D → Type 0
Header z = (z.kind ≡ RgbZoneType.motherboard) × Lit z

pub All-append {ℓ κ} :
    {A : Type ℓ} (P : A → Type κ) (xs ys : List A) → All P xs → All P ys → All P (xs ++ ys)
All-append P [] ys h k = k
All-append P (x ∷ xs) ys h k = (h.0, All-append P xs ys h.1 k)

pub All-map {ℓ κ μ} :
    {A : Type ℓ} {P : A → Type κ} {Q : A → Type μ} (f : (a : A) → P a → Q a) (xs : List A)
    → All P xs
    → All Q xs
All-map f [] h = tt
All-map f (x ∷ xs) h = (f x h.0, All-map f xs h.1)

module _ (D : Type 0) ⦃r : Real D⦄ where
  led_count-preview_zone :
      (name : List ℕ) (kind : RgbZoneType) (count : ℤ) (color : RgbColor)
      → led_count {D = D} (preview_zone name kind count color) ≡ pos_part count
  unfolding make_zone set_effect
  led_count-preview_zone name kind count color = length-fresh_leds 0 (pos_part count) color

  kind-preview_zone :
      (name : List ℕ) (kind : RgbZoneType) (count : ℤ) (color : RgbColor)
      → (preview_zone {D = D} name kind count color).kind ≡ kind
  unfolding make_zone set_effect
  kind-preview_zone name kind count color = refl

  Header-preview_zone :
      (name : List ℕ) (count : ℤ) (color : RgbColor)
      → 1 ≤ pos_part count
      → pos_part count ≤ 120
      → Header {D = D} (preview_zone name RgbZoneType.motherboard count color)
  Header-preview_zone name count color low high =
      let size = led_count-preview_zone name RgbZoneType.motherboard count color in
      (
        kind-preview_zone name RgbZoneType.motherboard count color,
        (omega (arith, size, low), omega (arith, size, high)),
      )

  header_zones_lem :
      (print : ℕ → List ℕ) (number n : ℕ)
      → (length (header_zones {D = D} print number n) ≡ n)
        × All Header (header_zones {D = D} print number n)
  unfolding header_zones
  header_zones_lem print number zero = (refl, tt)
  header_zones_lem print number (suc n) =
      let (size, all) = header_zones_lem print (suc number) n in
      (
        ap suc size,
        (
          Header-preview_zone (codes "Header " ++ print number) (pos 1) (preview_color number)
              (omega arith) (omega arith),
          all,
        ),
      )

  fixed_channel_zones_lem :
      (print : ℕ → List ℕ) (config : AsusAuraConfigTable) (number : ℕ) (c : AsusAuraConfigChannel)
      → fixed_exposed_zone_count config ≡ fixed_zones c
      → (length (fixed_channel_zones {D = D} print config number c) ≡ fixed_zones c)
        × All Header (fixed_channel_zones {D = D} print config number c)
  unfolding fixed_channel_zones fixed_zones
  fixed_channel_zones_lem print config number c exposed =
      let headers = bound c.header_count header_limit in
      let (size, all) = header_zones_lem print number headers in
      elim (Bool-cases (headers == 0)) [
        | inr some_headers ↦
            let test : ltb 0 headers ≡ true = ground arith in
            rw (fixed_channel_zones, fixed_zones, some_headers, test) (size, all)
        | inl headerless ↦
            let test : ltb 0 headers ≡ false = ground arith in
            elim (Bool-cases (ltb_ℤ (pos 0) c.led_count && not (ltb_ℤ (pos 16) c.led_count))) [
              | inr hidden ↦
                  let none_exposed : fixed_exposed_zone_count config ≡ 0 =
                    exposed ∙ rw (fixed_zones, test, hidden) in
                  rw (fixed_channel_zones, fixed_zones, headerless, test, none_exposed, hidden)
                    (refl, tt)
              | inl one ↦
                  let one_exposed : fixed_exposed_zone_count config ≡ 1 =
                    exposed ∙ rw (fixed_zones, test, one) in
                  let zone =
                    Header-preview_zone (codes "Mainboard LEDs") c.led_count (preview_color number)
                      (ground arith) (ground arith) in
                  rw (fixed_channel_zones, fixed_zones, headerless, test, one_exposed, one)
                    (refl, (zone, tt))
            ]
      ]

  fixed_loop-none :
      (print : ℕ → List ℕ) (config : AsusAuraConfigTable) (number : ℕ)
      (cs : List AsusAuraConfigChannel)
      → count_fixed cs ≡ 0
      → fixed_loop {D = D} print config number cs ≡ []
  unfolding fixed_loop count_fixed
  fixed_loop-none print config number [] h = refl
  fixed_loop-none print config number (c ∷ cs) h = elim (kind-cases c.kind) [
    | inl f ↦ let bad = rw (count_fixed, f) at h in absurd (omega (arith, bad))
    | inr a ↦ rw (fixed_loop, a) (fixed_loop-none print config number cs (rw (count_fixed, a) at h))
  ]

  -- The zones of the first loop are those that the protocol counts as fixed.
  fixed_loop_lem :
      (print : ℕ → List ℕ) (config : AsusAuraConfigTable) (number : ℕ)
      (cs : List AsusAuraConfigChannel)
      → count_fixed cs ≤ 1
      → fixed_channel config.channels ≡ fixed_channel cs
      → (length (fixed_loop {D = D} print config number cs) ≡ fixed_exposed_zone_count config)
        × All Header (fixed_loop {D = D} print config number cs)
  unfolding fixed_loop count_fixed fixed_channel fixed_exposed_zone_count
  fixed_loop_lem print config number [] h e = rw (fixed_exposed_zone_count, e) (refl, tt)
  fixed_loop_lem print config number (c ∷ cs) h e = elim (kind-cases c.kind) [
    | inr a ↦
        rw (fixed_loop, a)
          (fixed_loop_lem print config number cs (rw (count_fixed, a) at h)
            (rw (fixed_channel, a) at e))
    | inl f ↦
        let found : fixed_channel config.channels ≡ some c = rw (fixed_channel, f) at e in
        let exposed : fixed_exposed_zone_count config ≡ fixed_zones c =
          rw (fixed_exposed_zone_count, found) in
        let (size, all) = fixed_channel_zones_lem print config number c exposed in
        let others = rw (count_fixed, f) at h in
        let rest =
          fixed_loop-none print config
            (number + length (fixed_channel_zones {D = D} print config number c)) cs
            (omega (arith, others)) in
        rw (fixed_loop, f, rest, append-nil (fixed_channel_zones {D = D} print config number c))
          (size ∙ sym exposed, all)
  ]

  -- The kind and the number of lamps that the table asks of the zone of an addressable channel.
  abbrev pub Shape : Type 0
  Shape = RgbZoneType × ℤ

  abbrev pub shape : RgbZone D → Shape
  shape z = (z.kind, pos (led_count z))

  abbrev pub wanted : AsusAuraConfigChannel → Shape
  wanted c = (addressable_header, c.led_count)

  bound-Within :
      (z : ℤ)
      → Within 1 120 z
      → (pos (max 1 (bound z 120)) ≡ z) × (1 ≤ max 1 (bound z 120)) × (max 1 (bound z 120) ≤ 120)
  bound-Within z h = ground arith

  addressable_loop_lem :
      (config : AsusAuraConfigTable) (print : ℕ → List ℕ) (number k : ℕ)
      (cs : List AsusAuraConfigChannel)
      → All (ChannelOk config) cs
      → (map shape (addressable_loop {D = D} print number k cs)
          ≡ map wanted (addressable_channels_of cs))
        × All Lit (addressable_loop {D = D} print number k cs)
  unfolding addressable_loop addressable_channels_of
  addressable_loop_lem config print number k [] h = (refl, tt)
  addressable_loop_lem config print number k (c ∷ cs) (h, hs) = elim (kind-cases c.kind) [
    | inl f ↦
        rw (addressable_loop, addressable_channels_of, f)
          (addressable_loop_lem config print number k cs hs)
    | inr a ↦
        let (same, low, high) = bound-Within c.led_count (h.of_addressable a).lamps in
        let (shapes, all) = addressable_loop_lem config print (suc number) (suc k) cs hs in
        let count = pos (max 1 (bound c.led_count 120)) in
        let name = codes "Addressable Header " ++ print k in
        let size = led_count-preview_zone name addressable_header count (preview_color number) in
        let kind = kind-preview_zone name addressable_header count (preview_color number) in
        rw (addressable_loop, addressable_channels_of, a)
          (
            (λ i. (kind i, (ap pos size ∙ same) i) ∷ shapes i),
            ((omega (arith, size, low), omega (arith, size, high)), all),
          )
  ]

  keeps-built :
      (valid : Bool) (zones : List (RgbZone D))
      → valid ≡ true
      → (length zones == 0) ≡ false
      → (let built = if true && valid then zones else [] in
          if length built == 0 then default_zones else built)
        ≡ zones
  keeps-built true zones v e = rw e
  keeps-built false zones v e = cc

  -- A device that is built from a verified table that is `WriteReady` has the zones that the protocol
  -- addresses: as many header zones of the mainboard as the fixed channel exposes, and behind them,
  -- for each addressable channel in order, one addressable zone with the lamps of that channel. Each
  -- has 1 to 120 lamps.
  pub initialize_zones-refine :
      (print : ℕ → List ℕ) (config : AsusAuraConfigTable)
      → WriteReady config
      → (front : List (RgbZone D)) × (back : List (RgbZone D)) × (initialize_zones print true config
          ≡ front ++ back)
        × (length front ≡ fixed_exposed_zone_count config)
        × All Header front
        × (map shape back ≡ map wanted (addressable_channels_of config.channels))
        × All Lit back
  unfolding initialize_zones exposed_zone_count
  initialize_zones-refine print config w =
      let front = fixed_loop {D = D} print config 1 config.channels in
      let back = addressable_loop {D = D} print (1 + length front) 1 config.channels in
      let (size, headers) = fixed_loop_lem print config 1 config.channels w.one_fixed refl in
      let (shapes, lit) =
        addressable_loop_lem config print (1 + length front) 1 config.channels w.channels in
      let lengths = ap length shapes in
      let some_zones : (length (front ++ back) == 0) ≡ false = ground (
        arith,
        length-append front back,
        size,
        w.exposes,
        sym (length-map back shape),
        lengths,
        length-map (addressable_channels_of config.channels) wanted,
      ) in
      (
        front,
        back,
        keeps-built config.valid (front ++ back) w.valid some_zones,
        size,
        headers,
        shapes,
        lit,
      )
