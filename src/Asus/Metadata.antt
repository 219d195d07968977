-- ===== src/Asus/Metadata.antt =====
-- AsusAuraHidDevice.cpp, `updateZoneMetadata`: what a change of the name and the number of lamps keeps.
use luma_core.Prelude.{
  ℕ, ℤ, pos, List, length, All, Option-cases, Bool-cases, arith, ltb_ℤ, ◌||◌, inl, inr, ◌==◌, ◌&&◌,
  ◌==ℤ◌, All-get, All-set,
}
use luma_core.Zone.{led_count, set_name, set_led_count}
use luma_core.Zone.Laws.{led_count-set_led_count}
use luma_core.Device.{RgbDevice, zone_at, set_zone_name, set_zone_led_count, update_zone_metadata}
use luma_core.Device.Laws.{zone_at-some}
use luma_core.Aura.Ready.{Within}
use luma_core.Text.{same_codes}
use luma_core.Aura.Packets.Static.{Within-pos_part}
use luma_core.Device.Change.{update_zone_metadata-Kept}
use luma_core.Asus.{AsusAuraHidDevice, fixed_zone_count, max_research_leds, ltb, not}
use luma_core.Asus.Write.{update_metadata}
use luma_core.Asus.Zones.{Lit}
use luma_core.Asus.Follows.{Follows, Follows-self, Follows-status, Follows-base}

module _ {D : Type 0} where
  -- A new name keeps the lamps; a new number of lamps that is in bounds keeps the bounds.
  set_zone_name-Lit :
      (trimmed : List ℕ → List ℕ) (d : RgbDevice D) (zone : ℤ) (name : List ℕ)
      → All Lit d.zones
      → All Lit (set_zone_name trimmed d zone name).1.zones
  unfolding set_zone_name set_name
  set_zone_name-Lit trimmed d zone name h = elim (Option-cases (zone_at d.zones zone)) [
    | inl missing ↦ rw (set_zone_name, missing) h
    | inr ((i, z), found) ↦
        let put =
          All-set Lit d.zones i (set_name z (trimmed name)) h
            (All-get Lit d.zones i z h (zone_at-some d.zones zone i z found).1) in
        elim (Bool-cases (length (trimmed name) == 0 || same_codes z.name (trimmed name))) [
          | inl same ↦ rw (set_zone_name, found, same) h
          | inr new ↦ rw (set_zone_name, found, new) put
        ]
  ]

  set_zone_led_count-Lit :
      (d : RgbDevice D) (zone count : ℤ)
      → Within 1 120 count
      → All Lit d.zones
      → All Lit (set_zone_led_count d zone count).1.zones
  unfolding set_zone_led_count
  set_zone_led_count-Lit d zone count bounds h = elim (Option-cases (zone_at d.zones zone)) [
    | inl missing ↦ rw (set_zone_led_count, missing) h
    | inr ((i, z), found) ↦
        let lamps = led_count-set_led_count z count in
        let (low, high) = Within-pos_part count bounds in
        let put =
          All-set Lit d.zones i (set_led_count z count) h
            (omega (arith, lamps, low), omega (arith, lamps, high)) in
        elim (Bool-cases (ltb_ℤ count (pos 0) || pos (led_count z) ==ℤ count)) [
          | inl same ↦ rw (set_zone_led_count, found, same) h
          | inr new ↦ rw (set_zone_led_count, found, new) put
        ]
  ]

  update_zone_metadata-Lit :
      (trimmed : List ℕ → List ℕ) (d : RgbDevice D) (zone : ℤ) (name : List ℕ) (count : ℤ)
      → Within 1 120 count
      → All Lit d.zones
      → All Lit (update_zone_metadata trimmed d zone name count).1.zones
  unfolding update_zone_metadata
  update_zone_metadata-Lit trimmed d zone name count bounds h =
      elim (Option-cases (zone_at d.zones zone)) [
        | inl missing ↦ rw (update_zone_metadata, missing) h
        | inr (_, found) ↦
            rw (update_zone_metadata, found)
              (set_zone_led_count-Lit _ zone count bounds (set_zone_name-Lit trimmed d zone name h))
      ]

module _ {D : Type 0} {H : Type 0} where
  pub update_metadata-Follows :
      (trimmed : List ℕ → List ℕ) (d : AsusAuraHidDevice D H) (zone : ℤ) (name : List ℕ) (count : ℤ)
      → Follows d (update_metadata trimmed d zone name count).1
  unfolding update_metadata
  update_metadata-Follows trimmed d zone name count =
      elim (Option-cases (zone_at d.base.zones zone)) [
        | inl missing ↦ rw (update_metadata, missing) (Follows-self d)
        | inr ((i, z), found) ↦
            let outside = ltb_ℤ count (pos 1) || ltb_ℤ (pos max_research_leds) count in
            let frozen = ltb i (fixed_zone_count d) && not (count ==ℤ pos (led_count z)) in
            elim (Bool-cases outside) [
              | inl refused ↦ rw (update_metadata, found, refused) (Follows-self d)
              | inr bounds ↦ elim (Bool-cases frozen) [
                | inl refused ↦ rw (update_metadata, found, bounds, refused) (Follows-status d _)
                | inr free ↦
                    rw (update_metadata, found, bounds, free)
                      (Follows-base d d _ (Follows-self d)
                        (update_zone_metadata-Kept trimmed d.base zone name count).size
                        (update_zone_metadata-Lit trimmed d.base zone name count (ground arith)))
              ]
            ]
      ]
