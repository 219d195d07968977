-- ===== src/Device/Step.antt =====
-- The devices that the methods of `RgbDevice` can reach, and what stays of one on the way.
use luma_core.Prelude.{
  ℕ, ◌≡◌, ◌≢◌, refl, ◌∙◌, ℤ, Bool, List, [], ◌∷◌, Option, none, some, get_elem?, All,
}
use luma_core.Color.{RgbColor}
use luma_core.Effect.{RgbEffect}
use luma_core.Device.{
  RgbDevice, set_zone_name, set_zone_led_count, update_zone_metadata, set_zone_effect,
  apply_zone_effect, set_zone_effect_colors, apply_zone_frame, set_backend_id,
  set_likely_rgb_controller, set_rgb_controller_override, clear_rgb_controller_override, pos,
}
use luma_core.Device.Change.{
  Kept, Kept-self, Kept-trans, Local, Change-Local, update_zone_metadata-Local, no_zone,
  set_zone_effect-Change, set_zone_name-Change, set_zone_led_count-Change, apply_zone_effect-Change,
  set_zone_effect_colors-Change,
}

module _ {D : Type 0} (trimmed : List ℕ → List ℕ) where
  -- One call of a method of the base class that changes the device, with the zone that it is for.
  pub data Step : RgbDevice D → Option ℤ → RgbDevice D → Type 0 where
    named :
        (d : RgbDevice D) (zone : ℤ) (name : List ℕ)
        → Step d (some zone) (set_zone_name trimmed d zone name).1
    counted :
        (d : RgbDevice D) (zone count : ℤ) → Step d (some zone) (set_zone_led_count d zone count).1
    updated :
        (d : RgbDevice D) (zone : ℤ) (name : List ℕ) (count : ℤ)
        → Step d (some zone) (update_zone_metadata trimmed d zone name count).1
    given :
        (d : RgbDevice D) (zone : ℤ) (e : RgbEffect D)
        → Step d (some zone) (set_zone_effect d zone e)
    applied :
        (d : RgbDevice D) (zone : ℤ) (e : RgbEffect D)
        → Step d (some zone) (apply_zone_effect d zone e).1
    painted :
        (d : RgbDevice D) (zone : ℤ) (colors : List RgbColor)
        → Step d (some zone) (set_zone_effect_colors d zone colors).1
    framed :
        (d : RgbDevice D) (zone : ℤ) (colors : List RgbColor)
        → Step d (some zone) (apply_zone_frame d zone colors).1
    attached : (d : RgbDevice D) (id : List ℕ) → Step d none (set_backend_id d id)
    guessed : (d : RgbDevice D) (b : Bool) → Step d none (set_likely_rgb_controller d b)
    overridden : (d : RgbDevice D) (b : Bool) → Step d none (set_rgb_controller_override d b)
    cleared : (d : RgbDevice D) → Step d none (clear_rgb_controller_override d)

  -- A sequence of calls, with the zones they are for, the latest first.
  pub data Reach (s : RgbDevice D) : List (Option ℤ) → RgbDevice D → Type 0 where
    here : Reach s [] s
    next :
        {d e : RgbDevice D} {zone : Option ℤ} {zones : List (Option ℤ)}
        → Reach s zones d
        → Step d zone e
        → Reach s (zone ∷ zones) e

module _ {D : Type 0} where
  Step-Local :
      (trimmed : List ℕ → List ℕ) {zone : Option ℤ} {d e : RgbDevice D}
      → Step trimmed d zone e
      → Local zone d e
  unfolding apply_zone_frame set_rgb_controller_override clear_rgb_controller_override
      set_backend_id set_likely_rgb_controller
  Step-Local trimmed (named d zone name) = Change-Local (set_zone_name-Change trimmed d zone name)
  Step-Local trimmed (counted d zone count) = Change-Local (set_zone_led_count-Change d zone count)
  Step-Local trimmed (updated d zone name count) =
      update_zone_metadata-Local trimmed d zone name count
  Step-Local trimmed (given d zone e) = Change-Local (set_zone_effect-Change d zone e)
  Step-Local trimmed (applied d zone e) = Change-Local (apply_zone_effect-Change d zone e)
  Step-Local trimmed (painted d zone colors) =
      Change-Local (set_zone_effect_colors-Change d zone colors)
  Step-Local trimmed (framed d zone colors) =
      Change-Local (set_zone_effect_colors-Change d zone colors)
  Step-Local trimmed (attached d id) = no_zone d (set_backend_id d id) refl refl refl refl refl
  Step-Local trimmed (guessed d b) =
      no_zone d (set_likely_rgb_controller d b) refl refl refl refl refl
  Step-Local trimmed (overridden d b) =
      no_zone d (set_rgb_controller_override d b) refl refl refl refl refl
  Step-Local trimmed (cleared d) =
      no_zone d (clear_rgb_controller_override d) refl refl refl refl refl

  -- Whatever methods of the base class are called, and in whatever order, a device keeps its identity, its
  -- kind, the number of its zones and the numbering of their lamps; and a zone stays as it was, with its
  -- name, lamps, colours and effect, unless one of the calls was for its index.
  pub Reach-Kept :
      (trimmed : List ℕ → List ℕ) (d e : RgbDevice D) (zones : List (Option ℤ))
      → Reach trimmed d zones e
      → Kept d e
        × ((i : ℕ) → All (λ z. z ≢ some (pos i)) zones → get_elem? e.zones i ≡ get_elem? d.zones i)
  Reach-Kept trimmed d e zones here = (Kept-self d, λ i _. refl)
  Reach-Kept trimmed d e (this ∷ zones) (next r s) =
      let (kept, rest) = Reach-Kept trimmed d _ zones r in
      let (kept_now, others) = Step-Local trimmed s in
      (Kept-trans kept kept_now, λ i (other, all). others i other ∙ rest i all)
