-- ===== src/Device/Change.antt =====
-- What one call of a method of `RgbDevice` changes, and what it keeps.
use luma_core.Prelude.{
  ℕ, ◌≡◌, ◌≢◌, refl, ap, sym, subst, ◌∙◌, ℤ, List, Option, none, some, get_elem?, get_elem?-set_ne,
  length, length-set, All, Option-cases, Bool-cases, inl, inr, ◌==◌, ◌||◌, ◌==ℤ◌, All-set, All-get,
}
use luma_core.Color.{RgbColor}
use luma_core.Effect.{RgbEffect}
use luma_core.Zone.{RgbZone, set_name, set_led_count, set_led_colors, set_effect}
use luma_core.Zone.Laws.{IsNumbered, set_led_count-IsNumbered, set_led_colors-IsNumbered}
use luma_core.Device.{
  RgbDevice, zone_at, put_zone, set_zone_name, set_zone_led_count, update_zone_metadata,
  set_zone_effect, apply_zone_effect, set_zone_effect_colors, ltb_ℤ, pos, same_codes, led_count,
}
use luma_core.Device.Laws.{zone_at-some}

-- What stays: the identity of the device, the number of its zones, and that lamp number i of a zone
-- stands at place i.
pub record Kept {D : Type 0} (d e : RgbDevice D) : Type 0 where
  pub id : e.id ≡ d.id
  pub name : e.name ≡ d.name
  pub vendor : e.vendor ≡ d.vendor
  pub kind : e.kind ≡ d.kind
  pub size : length e.zones ≡ length d.zones
  pub numbered : All IsNumbered d.zones → All IsNumbered e.zones

module _ {D : Type 0} where
  pub Kept-self : (d : RgbDevice D) → Kept d d
  Kept-self d = record {
    id = refl;
    name = refl;
    vendor = refl;
    kind = refl;
    size = refl;
    numbered = λ h. h;
  }

  pub Kept-trans : {d e f : RgbDevice D} → Kept d e → Kept e f → Kept d f
  Kept-trans a b = record {
    id = b.id ∙ a.id;
    name = b.name ∙ a.name;
    vendor = b.vendor ∙ a.vendor;
    kind = b.kind ∙ a.kind;
    size = b.size ∙ a.size;
    numbered = λ h. b.numbered (a.numbered h);
  }

  put_zone-Kept :
      (d : RgbDevice D) (i : ℕ) (z : RgbZone D)
      → (All IsNumbered d.zones → IsNumbered z)
      → Kept d (put_zone d i z)
  put_zone-Kept d i z h = record {
    id = refl;
    name = refl;
    vendor = refl;
    kind = refl;
    size = length-set d.zones i z;
    numbered = λ all. All-set IsNumbered d.zones i z all (h all);
  }

  found-IsNumbered :
      (d : RgbDevice D) (zone : ℤ) (i : ℕ) (z : RgbZone D)
      → zone_at d.zones zone ≡ some (i, z)
      → All IsNumbered d.zones
      → IsNumbered z
  found-IsNumbered d zone i z found all =
      All-get IsNumbered d.zones i z all (zone_at-some d.zones zone i z found).1

  -- What a call for a zone does: nothing, or it puts another zone in the place of that one.
  pub data Change (zone : ℤ) (d : RgbDevice D) : RgbDevice D → Type 0 where
    unchanged : Change zone d d
    changed :
        (i : ℕ) (z : RgbZone D)
        → zone ≡ pos i
        → (All IsNumbered d.zones → IsNumbered z)
        → Change zone d (put_zone d i z)

  pub Change-Kept : {zone : ℤ} {d e : RgbDevice D} → Change zone d e → Kept d e
  Change-Kept {d = d} unchanged = Kept-self d
  Change-Kept {d = d} (changed i z at numbered) = put_zone-Kept d i z numbered

  -- The zone at a place that a call is not for.
  Change-other :
      {zone : ℤ} {d e : RgbDevice D} (j : ℕ)
      → Change zone d e
      → some zone ≢ some (pos j)
      → get_elem? e.zones j ≡ get_elem? d.zones j
  Change-other j unchanged other = refl
  Change-other {d = d} j (changed i z at numbered) other =
      get_elem?-set_ne d.zones z (λ same. other (ap some (at ∙ ap pos same)))

  put_found :
      (d : RgbDevice D) (zone : ℤ) (i : ℕ) (z y : RgbZone D)
      → zone_at d.zones zone ≡ some (i, z)
      → (IsNumbered z → IsNumbered y)
      → Change zone d (put_zone d i y)
  put_found d zone i z y found numbered =
      changed i y (zone_at-some d.zones zone i z found).0
        (λ all. numbered (found-IsNumbered d zone i z found all))

  pub set_zone_effect-Change :
      (d : RgbDevice D) (zone : ℤ) (e : RgbEffect D) → Change zone d (set_zone_effect d zone e)
  unfolding set_zone_effect set_effect
  set_zone_effect-Change d zone e = elim (Option-cases (zone_at d.zones zone)) [
    | inl missing ↦ rw (set_zone_effect, missing) unchanged
    | inr ((i, z), found) ↦
        rw (set_zone_effect, found) (put_found d zone i z (set_effect z e) found (λ h. h))
  ]

  pub set_zone_name-Change :
      (trimmed : List ℕ → List ℕ) (d : RgbDevice D) (zone : ℤ) (name : List ℕ)
      → Change zone d (set_zone_name trimmed d zone name).1
  unfolding set_zone_name set_name
  set_zone_name-Change trimmed d zone name = elim (Option-cases (zone_at d.zones zone)) [
    | inl missing ↦ rw (set_zone_name, missing) unchanged
    | inr ((i, z), found) ↦
        elim (Bool-cases (length (trimmed name) == 0 || same_codes z.name (trimmed name))) [
          | inl same ↦ rw (set_zone_name, found, same) unchanged
          | inr new ↦
              rw (set_zone_name, found, new)
                (put_found d zone i z (set_name z (trimmed name)) found (λ h. h))
        ]
  ]

  pub set_zone_led_count-Change :
      (d : RgbDevice D) (zone count : ℤ) → Change zone d (set_zone_led_count d zone count).1
  unfolding set_zone_led_count
  set_zone_led_count-Change d zone count = elim (Option-cases (zone_at d.zones zone)) [
    | inl missing ↦ rw (set_zone_led_count, missing) unchanged
    | inr ((i, z), found) ↦ elim (Bool-cases (ltb_ℤ count (pos 0) || pos (led_count z) ==ℤ count)) [
      | inl same ↦ rw (set_zone_led_count, found, same) unchanged
      | inr new ↦
          rw (set_zone_led_count, found, new)
            (put_found d zone i z (set_led_count z count) found (set_led_count-IsNumbered z count))
    ]
  ]

  pub apply_zone_effect-Change :
      (d : RgbDevice D) (zone : ℤ) (e : RgbEffect D) → Change zone d (apply_zone_effect d zone e).1
  unfolding apply_zone_effect
  apply_zone_effect-Change d zone e = elim (Option-cases (zone_at d.zones zone)) [
    | inl missing ↦ rw (apply_zone_effect, missing) unchanged
    | inr (_, found) ↦ rw (apply_zone_effect, found) (set_zone_effect-Change d zone e)
  ]

  pub set_zone_effect_colors-Change :
      (d : RgbDevice D) (zone : ℤ) (colors : List RgbColor)
      → Change zone d (set_zone_effect_colors d zone colors).1
  unfolding set_zone_effect_colors
  set_zone_effect_colors-Change d zone colors = elim (Option-cases (zone_at d.zones zone)) [
    | inl missing ↦ rw (set_zone_effect_colors, missing) unchanged
    | inr ((i, z), found) ↦ elim (Bool-cases (length colors == 0)) [
      | inl none_given ↦ rw (set_zone_effect_colors, found, none_given) unchanged
      | inr some_given ↦
          rw (set_zone_effect_colors, found, some_given)
            (put_found d zone i z (set_led_colors z colors) found
              (set_led_colors-IsNumbered z colors))
    ]
  ]

  -- What a call for a zone keeps: what `Kept` says, and the other zones.
  abbrev pub Local : Option ℤ → RgbDevice D → RgbDevice D → Type 0
  Local zone d e =
      Kept d e × ((j : ℕ) → zone ≢ some (pos j) → get_elem? e.zones j ≡ get_elem? d.zones j)

  pub Change-Local : {zone : ℤ} {d e : RgbDevice D} → Change zone d e → Local (some zone) d e
  Change-Local c = (Change-Kept c, λ j other. Change-other j c other)

  pub Local-trans :
      {zone : Option ℤ} {d e f : RgbDevice D} → Local zone d e → Local zone e f → Local zone d f
  Local-trans a b = (Kept-trans a.0 b.0, λ j other. b.1 j other ∙ a.1 j other)

  pub update_zone_metadata-Local :
      (trimmed : List ℕ → List ℕ) (d : RgbDevice D) (zone : ℤ) (name : List ℕ) (count : ℤ)
      → Local (some zone) d (update_zone_metadata trimmed d zone name count).1
  unfolding update_zone_metadata
  update_zone_metadata-Local trimmed d zone name count =
      let first = Change-Local (set_zone_name-Change trimmed d zone name) in
      let second =
        Change-Local (set_zone_led_count-Change (set_zone_name trimmed d zone name).1 zone count) in
      elim (Option-cases (zone_at d.zones zone)) [
        | inl missing ↦ rw (update_zone_metadata, missing) (Change-Local unchanged)
        | inr (_, found) ↦ rw (update_zone_metadata, found) (Local-trans first second)
      ]

  pub update_zone_metadata-Kept :
      (trimmed : List ℕ → List ℕ) (d : RgbDevice D) (zone : ℤ) (name : List ℕ) (count : ℤ)
      → Kept d (update_zone_metadata trimmed d zone name count).1
  update_zone_metadata-Kept trimmed d zone name count =
      (update_zone_metadata-Local trimmed d zone name count).0

  pub no_zone :
      (d e : RgbDevice D)
      → e.zones ≡ d.zones
      → e.id ≡ d.id
      → e.name ≡ d.name
      → e.vendor ≡ d.vendor
      → e.kind ≡ d.kind
      → Local none d e
  no_zone d e zones id name vendor kind = (
    record {
      id = id;
      name = name;
      vendor = vendor;
      kind = kind;
      size = ap length zones;
      numbered = λ h. subst (All IsNumbered) (sym zones) h;
    },
    λ j _. ap (λ zs. get_elem? zs j) zones,
  )
