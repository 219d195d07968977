-- ===== src/Asus/Follows.antt =====
-- AsusAuraHidDevice.cpp: what every write keeps of a device.
use luma_core.Prelude.{
  ℕ, zero, suc, ◌≡◌, refl, ap, ◌∙◌, ℤ, false, List, [], ◌∷◌, some, length, length-set, All,
  Option-cases, Bool-cases, arith, inl, inr, All-get, All-set,
}
use luma_core.Message.{Message, blank}
use luma_core.Color.{RgbColor}
use luma_core.Effect.{RgbEffect, is_animated}
use luma_core.Real.{Real}
use luma_core.Zone.{RgbZone, led_count, set_led_colors, set_effect}
use luma_core.Zone.Laws.{led_count-set_color, led_count-set_led_colors}
use luma_core.Device.{RgbDevice, zone_at, put_zone}
use luma_core.Device.Laws.{zone_at-some}
use luma_core.Aura.{AsusAuraHidPacket, ProtocolResult, ok, fail}
use luma_core.Aura.Write.Direct.{direct_frame_packet, all_off_packet}
use luma_core.Hid.{Hidapi, write_reports}
use luma_core.Asus.{AsusAuraHidDevice, fixed_zone_count, is_addressable_zone, format, end, black}
use luma_core.Asus.Write.{
  send_approved_packet, effect_packet, shown, apply_zone_effect, apply_zone_frame, off_from,
  apply_local_all_off, apply_all_off, with_status, with_base, off_effect,
}
use luma_core.Asus.Zones.{Lit}
use luma_core.Asus.Guard.{behind_one-all, behind_two-all}

-- What every operation keeps of a device.
pub record Follows {D : Type 0} {H : Type 0} (d x : AsusAuraHidDevice D H) : Type 0 where
  pub verified : x.config_table_verified ≡ d.config_table_verified
  pub config : x.config_table ≡ d.config_table
  pub path : x.device ≡ d.device
  pub size : length x.base.zones ≡ length d.base.zones
  pub lit : All Lit d.base.zones → All Lit x.base.zones

module _ {D : Type 0} {H : Type 0} where
  pub Follows-self : (d : AsusAuraHidDevice D H) → Follows d d
  Follows-self d = record { verified = refl; config = refl; path = refl; size = refl; lit = λ h. h }

  pub Follows-status : (d : AsusAuraHidDevice D H) (m : Message) → Follows d (with_status d m)
  Follows-status d m = record {
    verified = refl;
    config = refl;
    path = refl;
    size = refl;
    lit = λ h. h;
  }

  pub Follows-trans : {d x y : AsusAuraHidDevice D H} → Follows d x → Follows x y → Follows d y
  Follows-trans a b = record {
    verified = b.verified ∙ a.verified;
    config = b.config ∙ a.config;
    path = b.path ∙ a.path;
    size = b.size ∙ a.size;
    lit = λ h. b.lit (a.lit h);
  }

  -- A base with as many zones, lit where those before were, in a device that follows.
  pub Follows-base :
      (d x : AsusAuraHidDevice D H) (base : RgbDevice D)
      → Follows d x
      → length base.zones ≡ length d.base.zones
      → (All Lit d.base.zones → All Lit base.zones)
      → Follows d (with_base x base)
  Follows-base d x base f size lit = record {
    verified = f.verified;
    config = f.config;
    path = f.path;
    size = size;
    lit = lit;
  }

  -- A zone with as many lamps, in the place of one.
  Follows-put :
      (d x : AsusAuraHidDevice D H) (zone : ℤ) (i : ℕ) (z w : RgbZone D)
      → Follows d x
      → zone_at d.base.zones zone ≡ some (i, z)
      → led_count w ≡ led_count z
      → Follows d (with_base x (put_zone d.base i w))
  Follows-put d x zone i z w f found same =
      Follows-base d x (put_zone d.base i w) f (length-set d.base.zones i w) (λ all.
        let (low, high) =
          All-get Lit d.base.zones i z all (zone_at-some d.base.zones zone i z found).1 in
        All-set Lit d.base.zones i w all (omega (arith, same, low), omega (arith, same, high)))

module _ {D : Type 0} ⦃r : Real D⦄ where
  led_count-shown : (e : RgbEffect D) (z : RgbZone D) → led_count (shown e z) ≡ led_count z
  unfolding shown set_effect
  led_count-shown e z = elim (Bool-cases (is_animated e)) [
    | inl moving ↦ rw (shown, moving) (led_count-set_led_colors (set_effect z e) _)
    | inr still ↦ rw (shown, still) (led_count-set_color (set_effect z e) e.color)
  ]

module _ {D : Type 0} {H : Type 0} (api : Hidapi H) (trimmed : List ℕ → List ℕ) where
  send-Follows :
      (m : ProtocolResult AsusAuraHidPacket) (operation : Message) (d : AsusAuraHidDevice D H)
      → Follows d (send_approved_packet api trimmed m operation d).1
  unfolding send_approved_packet
  send-Follows (fail error) operation d = Follows-status d _
  send-Follows (ok p) operation d =
      let (write, hid) = write_reports api trimmed d.device.path p.reports d.hid in
      behind_one-all (Follows d) p.hardware_write_approved write.success _ _ _ (Follows-status d _)
        (record { verified = refl; config = refl; path = refl; size = refl; lit = λ h. h })
        (record { verified = refl; config = refl; path = refl; size = refl; lit = λ h. h })

  pub apply_zone_effect-Follows :
      ⦃r : Real D⦄ (d : AsusAuraHidDevice D H) (zone : ℤ) (e : RgbEffect D)
      → Follows d (apply_zone_effect api trimmed d zone e).1
  unfolding apply_zone_effect
  apply_zone_effect-Follows d zone e = elim (Option-cases (zone_at d.base.zones zone)) [
    | inl missing ↦ rw (apply_zone_effect, missing) (Follows-status d _)
    | inr ((i, z), found) ↦
        let m = effect_packet d zone z e in
        let (success, sent) =
          send_approved_packet api trimmed m (format "write" end) (with_status d blank) in
        let ran =
          Follows-trans (Follows-status d blank)
            (send-Follows m (format "write" end) (with_status d blank)) in
        rw (apply_zone_effect, found)
          (behind_two-all (Follows d) d.config_table_verified (is_addressable_zone d zone) success _
            _ _ _ (Follows-status d _) (Follows-status d _) ran
            (Follows-put d sent zone i z (shown e z) ran found (led_count-shown e z)))
  ]

  pub apply_zone_frame-Follows :
      (d : AsusAuraHidDevice D H) (zone : ℤ) (colors : List RgbColor)
      → Follows d (apply_zone_frame api trimmed d zone colors).1
  unfolding apply_zone_frame
  apply_zone_frame-Follows d zone colors = elim (Option-cases (zone_at d.base.zones zone)) [
    | inl missing ↦ rw (apply_zone_frame, missing) (Follows-status d _)
    | inr ((i, z), found) ↦
        let m = direct_frame_packet d.config_table zone colors false in
        let (success, sent) =
          send_approved_packet api trimmed m (format "stream frame" end) (with_status d blank) in
        let ran =
          Follows-trans (Follows-status d blank)
            (send-Follows m (format "stream frame" end) (with_status d blank)) in
        rw (apply_zone_frame, found)
          (behind_one-all (Follows d) d.config_table_verified success _ _ _ (Follows-status d _) ran
            (Follows-put d sent zone i z (set_led_colors z colors) ran found
              (led_count-set_led_colors z colors)))
  ]

  off_from_lem :
      ⦃r : Real D⦄ (n : ℕ) (zs : List (RgbZone D))
      → (length (off_from n zs) ≡ length zs) × (All Lit zs → All Lit (off_from n zs))
  unfolding off_from set_effect
  off_from_lem n [] = (refl, λ h. tt)
  off_from_lem zero (z ∷ zs) =
      let (size, lit) = off_from_lem zero zs in
      let same = led_count-set_color (set_effect z off_effect) black in
      (
        ap suc size,
        λ ((low, high), h). ((omega (arith, same, low), omega (arith, same, high)), lit h),
      )
  off_from_lem (suc n) (z ∷ zs) =
      let (size, lit) = off_from_lem n zs in (ap suc size, λ (x, h). (x, lit h))

  local_all_off-Follows :
      ⦃r : Real D⦄ (d : AsusAuraHidDevice D H) → Follows d (apply_local_all_off d)
  unfolding apply_local_all_off
  local_all_off-Follows d =
      let (size, lit) = off_from_lem (fixed_zone_count d) d.base.zones in
      Follows-base d d _ (Follows-self d) size lit

  pub apply_all_off-Follows :
      ⦃r : Real D⦄ (d : AsusAuraHidDevice D H) → Follows d (apply_all_off api trimmed d).1
  unfolding apply_all_off
  apply_all_off-Follows d =
      let m = all_off_packet d.config_table in
      let (success, sent) =
        send_approved_packet api trimmed m (format "all-off" end) (with_status d blank) in
      let ran =
        Follows-trans (Follows-status d blank)
          (send-Follows m (format "all-off" end) (with_status d blank)) in
      behind_one-all (Follows d) d.config_table_verified success _ _ _ (Follows-status d _) ran
        (Follows-trans ran (local_all_off-Follows sent))
