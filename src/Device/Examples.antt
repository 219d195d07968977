-- ===== src/Device/Examples.antt =====
-- A device of two zones, and the theorems at it.
use luma_core.Prelude.{ℕ, pos, List, [], ◌∷◌, none, some, false, All, ◌≡◌, ◌≢◌, get_elem?}
use luma_core.Color.{RgbColor}
use luma_core.Real.Hundredths.{hundredths}
use luma_core.Zone.{RgbZone, make_zone, addressable_header}
use luma_core.Device.{RgbDevice, controller, set_backend_id, update_zone_metadata, codes}
use luma_core.Device.Step.{here, next, attached, updated, Reach-Kept}
use luma_core.Device.Change.{Kept}

abbrev pink : RgbColor
pink = record { red = 200; green = 10; blue = 90 }

abbrev strip : RgbZone ℕ
strip = make_zone ⦃r = hundredths⦄ (codes "Strip") addressable_header (pos 3) pink

abbrev pub lamp_box : RgbDevice ℕ
lamp_box = record {
  id = codes "box";
  name = codes "Lamp box";
  vendor = codes "ACME";
  backend_id = codes "mock";
  kind = controller;
  zones = strip ∷ strip ∷ [];
  likely_rgb_controller = false;
  rgb_controller_override = none;
}

abbrev trim_none : List ℕ → List ℕ
trim_none t = t

abbrev renamed : RgbDevice ℕ
renamed = (update_zone_metadata trim_none lamp_box (pos 1) (codes "Back") (pos 5)).1

abbrev two_calls : RgbDevice ℕ
two_calls = set_backend_id renamed (codes "daemon")

Reach-Kept_example :
    Kept lamp_box two_calls
    × ((i : ℕ)
        → All (λ zone. zone ≢ some (pos i)) (none ∷ some (pos 1) ∷ [])
        → get_elem? two_calls.zones i ≡ get_elem? lamp_box.zones i)
Reach-Kept_example = Reach-Kept trim_none lamp_box two_calls (none ∷ some (pos 1) ∷ []) (
    next (next here (updated lamp_box (pos 1) (codes "Back") (pos 5)))
      (attached renamed (codes "daemon")))
