-- ===== src/Asus/Examples.antt =====
-- A device with the table of three zones, and the theorems at it.
use luma_core.Prelude.{
  ℕ, ◌≤◌, ◌<◌, ◌≡◌, pos, true, false, List, [], ◌∷◌, ◌++◌, some, length, map, All, arith, ◌+◌,
  Bool-cases, subst, get_elem?, inr, sym, inl,
}
use luma_core.Text.{codes}
use luma_core.Message.{blank}
use luma_core.Color.{black}
use luma_core.Real.Hundredths.{hundredths}
use luma_core.Zone.{RgbZone}
use luma_core.Aura.Config.{exposed_zone_count, fixed_exposed_zone_count, addressable_channels_of}
use luma_core.Aura.Examples.{
  table, table-WriteReady, full_rainbow, two_late, two_exposed, table_zones,
}
use luma_core.Aura.Report.{Report}
use luma_core.Aura.Packets.{sent}
use luma_core.Hid.{write_reports}
use luma_core.Hid.Examples.{Bus, bus_api, idle}
use luma_core.Asus.{
  ProbeDevice, AsusAuraHidDevice, make_asus_device, initialize_zones, is_addressable_zone,
}
use luma_core.Asus.Write.{
  apply_zone_effect, apply_zone_frame, apply_all_off, set_zone_static_color, effect_packet,
  update_metadata,
}
use luma_core.Asus.Zones.{Header, Lit, shape, wanted, initialize_zones-refine}
use luma_core.Asus.Metadata.{update_metadata-Follows}
use luma_core.Asus.Safe.{is_addressable_zone_iff, refused-base, not_addressable-unwritten}
use luma_core.Asus.Live.{
  IsUsable, Reach, here, next, metadata, Reach-IsUsable, make_asus_device-IsUsable, built-writes,
}

abbrev digits : ℕ → List ℕ
digits n = (48 + n) ∷ []

abbrev pub trim_none : List ℕ → List ℕ
trim_none t = t

abbrev probe : ProbeDevice
probe = record {
  id = codes "aura";
  name = [];
  vendor = [];
  path = codes "/dev/hidraw0";
  interface_number = pos 2;
}

abbrev pub board : AsusAuraHidDevice ℕ Bus
board = make_asus_device ⦃r = hundredths⦄ digits probe true table blank idle

abbrev renamed : AsusAuraHidDevice ℕ Bus
renamed = (update_metadata trim_none board (pos 2) (codes "Fans") (pos 8)).1

initialize_zones-refine_example :
    (front : List (RgbZone ℕ)) × (back : List (RgbZone ℕ)) × (initialize_zones ⦃r = hundredths⦄
        digits true table
      ≡ front ++ back)
    × (length front ≡ fixed_exposed_zone_count table)
    × All Header front
    × (map (shape ℕ ⦃r = hundredths⦄) back
        ≡ map (wanted ℕ ⦃r = hundredths⦄) (addressable_channels_of table.channels))
    × All Lit back
initialize_zones-refine_example =
    initialize_zones-refine ℕ ⦃r = hundredths⦄ digits table table-WriteReady

refused-base_example :
    ((apply_zone_effect ⦃r = hundredths⦄ bus_api trim_none board (pos 0) full_rainbow).0 ≡ false
      → (apply_zone_effect ⦃r = hundredths⦄ bus_api trim_none board (pos 0) full_rainbow).1.base
        ≡ board.base)
    × ((apply_zone_frame bus_api trim_none board (pos 0) (black ∷ [])).0 ≡ false
        → (apply_zone_frame bus_api trim_none board (pos 0) (black ∷ [])).1.base ≡ board.base)
    × ((apply_all_off ⦃r = hundredths⦄ bus_api trim_none board).0 ≡ false
        → (apply_all_off ⦃r = hundredths⦄ bus_api trim_none board).1.base ≡ board.base)
refused-base_example =
    refused-base bus_api trim_none ⦃r = hundredths⦄ board (pos 0) full_rainbow (black ∷ [])

-- The first zone is that of the fixed channel.
first_fixed : is_addressable_zone board (pos 0) ≡ false
unfolding make_asus_device
first_fixed = elim (Bool-cases (is_addressable_zone board (pos 0))) [
  | inr fixed_zone ↦ fixed_zone
  | inl free ↦
      let (_, _, late, _) = (is_addressable_zone_iff board 0).0 free in
      absurd (omega (arith, late, table_zones.0))
]

not_addressable-unwritten_example :
    ((apply_zone_effect ⦃r = hundredths⦄ bus_api trim_none board (pos 0) full_rainbow).0 ≡ false)
    × ((apply_zone_effect ⦃r = hundredths⦄ bus_api trim_none board (pos 0) full_rainbow).1.hid
        ≡ board.hid)
    × ((set_zone_static_color ⦃r = hundredths⦄ bus_api trim_none board (pos 0) black).0 ≡ false)
    × ((set_zone_static_color ⦃r = hundredths⦄ bus_api trim_none board (pos 0) black).1.hid
        ≡ board.hid)
    × ((apply_zone_frame bus_api trim_none board (pos 0) (black ∷ [])).0 ≡ false)
    × ((apply_zone_frame bus_api trim_none board (pos 0) (black ∷ [])).1.hid ≡ board.hid)
not_addressable-unwritten_example =
    not_addressable-unwritten bus_api trim_none ⦃r = hundredths⦄ board (pos 0) full_rainbow black
      (black ∷ []) first_fixed

board-IsUsable : IsUsable board
board-IsUsable =
    make_asus_device-IsUsable ⦃r = hundredths⦄ bus_api trim_none digits probe table blank idle
      table-WriteReady

one_call : Reach ⦃r = hundredths⦄ bus_api trim_none board renamed
one_call = next here (metadata board (pos 2) (codes "Fans") (pos 8))

Reach-IsUsable_example : IsUsable renamed
Reach-IsUsable_example =
    Reach-IsUsable ⦃r = hundredths⦄ bus_api trim_none board renamed one_call board-IsUsable

renamed-late : fixed_exposed_zone_count renamed.config_table ≤ 2
unfolding make_asus_device
renamed-late =
    subst (λ c. fixed_exposed_zone_count c ≤ 2)
      (sym (update_metadata-Follows trim_none board (pos 2) (codes "Fans") (pos 8)).config) two_late

renamed-exposed : 2 < exposed_zone_count renamed.config_table
unfolding make_asus_device
renamed-exposed =
    subst (λ c. 2 < exposed_zone_count c)
      (sym (update_metadata-Follows trim_none board (pos 2) (codes "Fans") (pos 8)).config)
      two_exposed

built-writes_example :
    (z : RgbZone ℕ) × (reports : List Report) × (get_elem? renamed.base.zones 2 ≡ some z)
    × (sent (effect_packet ⦃r = hundredths⦄ renamed (pos 2) z full_rainbow) ≡ some reports)
    × ((apply_zone_effect ⦃r = hundredths⦄ bus_api trim_none renamed (pos 2) full_rainbow).0
        ≡ (write_reports bus_api trim_none renamed.device.path reports renamed.hid).0.success)
    × ((apply_zone_effect ⦃r = hundredths⦄ bus_api trim_none renamed (pos 2) full_rainbow).1.hid
        ≡ (write_reports bus_api trim_none renamed.device.path reports renamed.hid).1)
built-writes_example =
    built-writes ⦃r = hundredths⦄ bus_api trim_none digits probe table blank idle renamed 2
      full_rainbow table-WriteReady one_call renamed-late renamed-exposed (omega arith)
