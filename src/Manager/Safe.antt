-- ===== src/Manager/Safe.antt =====
-- core/DeviceManager.cpp: when a write of the manager reaches a device, and when it reports success.
use luma_core.Prelude.{
  ℕ, ◌≡◌, refl, ap, ◌∙◌, sym, ◌⊎◌, inl, inr, ◌↔◌, ℤ, pos, Bool, true, false, not, some, none,
  Option-cases, Bool-cases, if◌then◌else◌, arith,
}
use luma_core.Message.{format, end, txt}
use luma_core.Effect.{RgbEffect, effect_number}
use luma_core.Real.{Real}
use luma_core.Zone.{RgbZone}
use luma_core.Permission.{check_write, zone_color_write, BackendCapability}
use luma_core.Permission.Gate.{evaluate}
use luma_core.Permission.Laws.{Permits, evaluate_applies_iff, evaluate_reports_iff}
use luma_core.Manager.{
  RgbDevices, DeviceManager, device_at, paired, device_for_zone, device_write_confirmed, Option,
  zone_at,
}
use luma_core.Manager.Write.{apply_all_off}
use luma_core.Manager.Effect.{operation_of, prepared_effect, dry_run_summary, apply_zone_effect}

-- The early returns of a write: not supported, refused by the gate, only logged, failed, and done.
abbrev pub gated {ℓ} : {X : Type ℓ} → Bool → Bool → Bool → Bool → X → X → X → X → X → Bool × X
gated supported report apply done a b c d e =
    if not supported
    then (false, a)
    else if not report
    then (false, b)
    else if not apply
    then (true, c)
    else if not done
    then (false, d)
    else (true, e)

-- What holds of the values of the first three returns holds of the outcome, or the write is applied.
gated_lem {ℓ κ} :
    {X : Type ℓ} (P : X → Type κ) (supported report apply done : Bool) (a b c d e : X)
    → P a
    → P b
    → P c
    → P (gated supported report apply done a b c d e).1 ⊎ (apply ≡ true)
gated_lem P false report apply done a b c d e pa pb pc = inl pa
gated_lem P true false apply done a b c d e pa pb pc = inl pb
gated_lem P true true false done a b c d e pa pb pc = inl pc
gated_lem P true true true done a b c d e pa pb pc = inr refl

pub gated-all {ℓ κ} :
    {X : Type ℓ} (P : X → Type κ) (supported report apply done : Bool) (a b c d e : X)
    → P a
    → P b
    → P c
    → P d
    → P e
    → P (gated supported report apply done a b c d e).1
gated-all P false report apply done a b c d e pa pb pc pd pe = pa
gated-all P true false apply done a b c d e pa pb pc pd pe = pb
gated-all P true true false done a b c d e pa pb pc pd pe = pc
gated-all P true true true false a b c d e pa pb pc pd pe = pd
gated-all P true true true true a b c d e pa pb pc pd pe = pe

gated_iff {ℓ} :
    {X : Type ℓ} (supported report apply done : Bool) (a b c d e : X)
    → ((gated supported report apply done a b c d e).0 ≡ true) ↔ (
        (supported ≡ true) × (report ≡ true) × ((apply ≡ false) ⊎ ((apply ≡ true) × (done ≡ true))))
gated_iff false report apply done a b c d e = (λ h. cc, λ h. cc)
gated_iff true false apply done a b c d e = (λ h. cc, λ h. cc)
gated_iff true true false done a b c d e = (λ h. (refl, refl, inl refl), λ h. refl)
gated_iff true true true false a b c d e = (λ h. cc, λ h. ground arith)
gated_iff true true true true a b c d e = (λ h. (refl, refl, inr (refl, refl)), λ h. refl)

paired-some {ℓ κ} :
    {A : Type ℓ} {B : Type κ} (o : Option B) (a c : A) (b : B)
    → paired a o ≡ some (c, b)
    → (a ≡ c) × (o ≡ some b)
paired-some none a c b e = cc
paired-some (some x) a c b e = (cc, cc)

module _ {V D Q : Type 0} (i : RgbDevices V D) where
  -- A write of this operation to this device may take place now.
  pub record Allowed (m : DeviceManager V Q) (device : ℤ) (op : BackendCapability) : Type 0 where
    pub wet : m.dry_run_enabled ≡ false
    pub place : ℕ
    pub target : V
    pub found : device_at i m device ≡ some (place, target)
    pub permitted : Permits (check_write (i.guarded target) op) (device_write_confirmed i m device)

  pub device_for_zone-found :
      (m : DeviceManager V Q) (device zone : ℤ) (n : ℕ) (v : V) (k : ℕ) (z : RgbZone D)
      → device_for_zone i m device zone ≡ some ((n, v), (k, z))
      → (device_at i m device ≡ some (n, v)) × (zone_at (i.base v).zones zone ≡ some (k, z))
  unfolding device_for_zone
  device_for_zone-found m device zone n v k z e = elim (Option-cases (device_at i m device)) [
    | inl missing ↦
        let bad : none ≡ some ((n, v), (k, z)) = rw (device_for_zone, missing) at e in cc
    | inr ((p, w), there) ↦
        let (same, at) =
          paired-some (zone_at (i.base w).zones zone) (p, w) (n, v) (k, z)
            (rw (device_for_zone, there) at e) in
        let one : w ≡ v = cc in
        (there ∙ ap some same, ap (λ x. zone_at (i.base x).zones zone) (sym one) ∙ at)
  ]

module _ {V D Q : Type 0} ⦃r : Real D⦄ (i : RgbDevices V D) where
  effect-gated :
      (m : DeviceManager V Q) (device zone : ℤ) (e : RgbEffect D) (client_streams : Bool) (n : ℕ)
      (v : V) (k : ℕ) (z : RgbZone D)
      → device_for_zone i m device zone ≡ some ((n, v), (k, z))
      → ((apply_zone_effect i m device zone e client_streams).1.devices ≡ m.devices)
        ⊎ ((m.dry_run_enabled ≡ false)
            × Permits
                (check_write (i.guarded v) (operation_of e))
                (device_write_confirmed i m device))
  unfolding apply_zone_effect
  effect-gated m device zone e client_streams n v k z found =
      let summary = dry_run_summary i v zone z (prepared_effect i v zone e) in
      let confirmed = device_write_confirmed i m device in
      let (outcome, _) =
        evaluate m.dry_run_enabled (i.guarded v) (operation_of e) m.activity_log summary
          confirmed in
      rw (apply_zone_effect, found)
        (elim (gated_lem (λ (x : DeviceManager V Q). x.devices ≡ m.devices)
          (i.supports_zone_effect v zone (pos (effect_number e.kind))) outcome.report_success
          outcome.apply_write (i.apply_zone_effect v zone (prepared_effect i v zone e)).0 _ _ _ _ _
          refl refl refl) [
            | inl same ↦ inl same
            | inr applies ↦ inr (
                (evaluate_applies_iff m.dry_run_enabled (i.guarded v) (operation_of e)
                    m.activity_log summary confirmed).0
                  applies)
          ])

  effect-Allowed :
      (m : DeviceManager V Q) (device zone : ℤ) (e : RgbEffect D) (client_streams : Bool)
      → ((apply_zone_effect i m device zone e client_streams).1.devices ≡ m.devices)
        ⊎ Allowed i m device (operation_of e)
  unfolding apply_zone_effect
  effect-Allowed m device zone e client_streams =
      elim (Option-cases (device_for_zone i m device zone)) [
        | inl missing ↦ inl (rw (apply_zone_effect, missing) refl)
        | inr (((n, v), (k, z)), found) ↦
            elim (effect-gated m device zone e client_streams n v k z found) [
              | inl same ↦ inl same
              | inr (wet, permitted) ↦ inr (record {
                wet = wet;
                place = n;
                target = v;
                found = (device_for_zone-found i m device zone n v k z found).0;
                permitted = permitted;
              })
            ]
      ]

  off-Allowed :
      (m : DeviceManager V Q) (device : ℤ)
      → ((apply_all_off i m device).2.devices ≡ m.devices) ⊎ Allowed i m device zone_color_write
  unfolding apply_all_off
  off-Allowed m device = elim (Option-cases (device_at i m device)) [
    | inl missing ↦ inl (rw (apply_all_off, missing) refl)
    | inr ((n, v), found) ↦
        let summary = format "Would turn off all zones on %1." (txt (i.base v).name end) in
        let confirmed = device_write_confirmed i m device in
        let (outcome, _) =
          evaluate m.dry_run_enabled (i.guarded v) zone_color_write m.activity_log summary
            confirmed in
        elim (Bool-cases outcome.apply_write) [
          | inl applies ↦
              let (wet, permitted) =
                (evaluate_applies_iff m.dry_run_enabled (i.guarded v) zone_color_write
                    m.activity_log summary confirmed).0
                  applies in
              inr
                (record { wet = wet; place = n; target = v; found = found; permitted = permitted })
          | inr logged ↦ elim (Bool-cases outcome.report_success) [
            | inl reported ↦ inl (rw (apply_all_off, found, reported, logged) refl)
            | inr refused ↦ inl (rw (apply_all_off, found, refused) refl)
          ]
        ]
  ]

  -- The manager changes no device by an effect or by all-off unless dry-run is off, the device exists,
  -- and its permission for that operation is granted, or asks for a confirmation that the user has
  -- given for this device.
  pub writes-Allowed :
      (m : DeviceManager V Q) (device zone : ℤ) (e : RgbEffect D) (client_streams : Bool)
      → (((apply_zone_effect i m device zone e client_streams).1.devices ≡ m.devices)
          ⊎ Allowed i m device (operation_of e))
        × (((apply_all_off i m device).2.devices ≡ m.devices) ⊎ Allowed i m device zone_color_write)
  writes-Allowed m device zone e client_streams =
      (effect-Allowed m device zone e client_streams, off-Allowed m device)

  -- For a device and a zone that exist, an effect is reported as a success exactly if the zone supports
  -- it and either dry-run is on and the permission is not refused, or dry-run is off, the permission is
  -- granted or confirmed, and the device reports that it has applied the effect, with what the zone does
  -- not support set to its default.
  pub apply_zone_effect_iff :
      (m : DeviceManager V Q) (device zone : ℤ) (e : RgbEffect D) (client_streams : Bool) (n : ℕ)
      (v : V) (k : ℕ) (z : RgbZone D)
      → device_for_zone i m device zone ≡ some ((n, v), (k, z))
      → ((apply_zone_effect i m device zone e client_streams).0 ≡ true) ↔ (
          (i.supports_zone_effect v zone (pos (effect_number e.kind)) ≡ true)
          × (((m.dry_run_enabled ≡ true)
                × Permits (check_write (i.guarded v) (operation_of e)) true)
              ⊎ ((m.dry_run_enabled ≡ false)
                  × Permits
                      (check_write (i.guarded v) (operation_of e))
                      (device_write_confirmed i m device)
                  × ((i.apply_zone_effect v zone (prepared_effect i v zone e)).0 ≡ true))))
  unfolding apply_zone_effect
  apply_zone_effect_iff m device zone e client_streams n v k z found =
      let summary = dry_run_summary i v zone z (prepared_effect i v zone e) in
      let confirmed = device_write_confirmed i m device in
      let p = i.guarded v in
      let op = operation_of e in
      let (outcome, _) = evaluate m.dry_run_enabled p op m.activity_log summary confirmed in
      let supported = i.supports_zone_effect v zone (pos (effect_number e.kind)) in
      let done = (i.apply_zone_effect v zone (prepared_effect i v zone e)).0 in
      let (a, b) = evaluate_applies_iff m.dry_run_enabled p op m.activity_log summary confirmed in
      let ((c, d), (f, g)) =
        evaluate_reports_iff m.dry_run_enabled p op m.activity_log summary confirmed in
      let (to, from) =
        gated_iff {X = DeviceManager V Q} supported outcome.report_success outcome.apply_write done
          _ _ _ _ _ in
      rw (apply_zone_effect, found)
        (
          (λ h.
              let (s, reported, how) = to h in
              elim how [
                | inl logged ↦ (s, inl (f (reported, logged)))
                | inr (applies, did) ↦
                    let (wet, permitted) = a applies in (s, inr (wet, permitted, did))
              ]),
          λ (s, how). elim how [
            | inl dry ↦ let (reported, logged) = g dry in from (s, reported, inl logged)
            | inr (wet, permitted, did) ↦
                let applies = b (wet, permitted) in from (s, d (inl applies), inr (applies, did))
          ],
        )
