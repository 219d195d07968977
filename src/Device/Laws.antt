-- ===== src/Device/Laws.antt =====
-- The laws of zones in a device: what putting a zone at a place keeps.
use luma_core.Prelude.{ℕ, ◌≡◌, ℤ, pos, negsuc, List, Option, some, none, get_elem?, ap, sym, ◌∙◌}
use luma_core.Zone.{RgbZone}
use luma_core.Device.{zone_at, with_index}

with_index-some {ℓ} :
    {A : Type ℓ} (o : Option A) (j i : ℕ) (z : A)
    → with_index j o ≡ some (i, z)
    → (j ≡ i) × (o ≡ some z)
with_index-some none j i z e = cc
with_index-some (some w) j i z e = (cc, cc)

-- A zone that is found stands at its index, which is a number.
pub zone_at-some :
    {D : Type 0} (zones : List (RgbZone D)) (zone : ℤ) (i : ℕ) (z : RgbZone D)
    → zone_at zones zone ≡ some (i, z)
    → (zone ≡ pos i) × (get_elem? zones i ≡ some z)
zone_at-some zones (negsuc _) i z e = cc
zone_at-some zones (pos j) i z e =
    let (place, found) = with_index-some (get_elem? zones j) j i z e in
    (ap pos place, ap (get_elem? zones) (sym place) ∙ found)
