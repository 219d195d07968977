-- ===== src/Manager/Engine.antt =====
-- core/DeviceManager.cpp, `applyZoneEffect`: which zones stream after an effect.
use luma_core.Prelude.{
  ℕ, ℤ, pos, Bool, true, false, not, ◌&&◌, ◌≡◌, ◌≢◌, refl, sym, ◌∙◌, ◌↔◌, some, Bool-cases, inl,
  inr, arith,
}
use luma_core.Effect.{RgbEffect, is_animated, effect_number, set_speed, set_brightness}
use luma_core.Real.{Real}
use luma_core.Zone.{RgbZone}
use luma_core.Log.{ActivityLog}
use luma_core.Permission.Gate.{evaluate}
use luma_core.Permission.Laws.{evaluate_reports_iff}
use luma_core.Engine.{EffectsEngine, ZoneKey, is_zone_streaming, start_zone, stop_zone}
use luma_core.Engine.Laws.{start_zone_lem, stop_zone_lem}
use luma_core.Manager.{RgbDevices, DeviceManager, device_for_zone, device_write_confirmed}
use luma_core.Manager.Effect.{
  operation_of, prepared_effect, dry_run_summary, apply_zone_effect, effect_applied,
}
use luma_core.Manager.Safe.{gated}

-- A success of a write that is not only logged is what its last return gives.
gated-done {ℓ κ} :
    {X : Type ℓ} (P : X → Type κ) (supported report apply done : Bool) (a b c d e : X)
    → (gated supported report apply done a b c d e).0 ≡ true
    → (report ≡ true → apply ≢ false)
    → P e
    → P (gated supported report apply done a b c d e).1
gated-done P false report apply done a b c d e h real p = cc
gated-done P true false apply done a b c d e h real p = cc
gated-done P true true false done a b c d e h real p = absurd (real refl refl)
gated-done P true true true false a b c d e h real p = cc
gated-done P true true true true a b c d e h real p = p

-- A zone streams exactly where this holds, and another one as before.
abbrev Streams : Type 0 → EffectsEngine → EffectsEngine → ZoneKey → ZoneKey → Type 0
Streams P before after key other =
    ((is_zone_streaming after key ≡ true) ↔ P)
    × (is_zone_streaming after other ≡ is_zone_streaming before other)

start-Streams :
    {P : Type 0} (e : EffectsEngine) (key other : ZoneKey)
    → other ≢ key
    → P
    → Streams P e (start_zone e key) key other
start-Streams e key other differ p =
    let (on, same) = start_zone_lem e key other differ in ((λ _. p, λ _. on), same)

stop-Streams :
    {P : Type 0} (e : EffectsEngine) (key other : ZoneKey)
    → other ≢ key
    → ¬ P
    → Streams P e (stop_zone e key) key other
stop-Streams e key other differ never =
    let (off, same) = stop_zone_lem e key other differ in
    ((λ on. let bad : true ≡ false = sym on ∙ off in cc, λ p. absurd (never p)), same)

and_not_iff : (a b : Bool) → ((a && not b) ≡ true) ↔ ((a ≡ true) × (b ≡ false))
and_not_iff a b = ground arith

-- The effect is rendered here, frame by frame.
abbrev IsRendered : {D : Type 0} → RgbEffect D → Bool → Bool → Type 0
IsRendered e local_rendering client_streams =
    (is_animated e ≡ true) × (local_rendering ≡ true) × (client_streams ≡ false)

-- What the zone does not support is set to its default, and the kind of the effect stays.
prepared_effect-is_animated :
    {V D : Type 0} ⦃r : Real D⦄ (i : RgbDevices V D) (v : V) (zone : ℤ) (e : RgbEffect D)
    → is_animated (prepared_effect i v zone e) ≡ is_animated e
unfolding prepared_effect set_speed set_brightness
prepared_effect-is_animated i v zone e =
    let number = pos (effect_number e.kind) in
    elim (Bool-cases (i.supports_zone_effect_brightness v zone number)) [
      | inl bright ↦ elim (Bool-cases (i.supports_zone_effect_speed v zone number)) [
        | inl fast ↦ rw (prepared_effect, bright, fast)
        | inr slow ↦ rw (prepared_effect, bright, slow)
      ]
      | inr plain ↦ elim (Bool-cases (i.supports_zone_effect_speed v zone number)) [
        | inl fast ↦ rw (prepared_effect, plain, fast)
        | inr slow ↦ rw (prepared_effect, plain, slow)
      ]
    ]

module _ {V D Q : Type 0} ⦃r : Real D⦄ (i : RgbDevices V D) where
  applied-Streams :
      (m : DeviceManager V Q) (k other : ZoneKey) (n : ℕ) (w : V)
      (local_rendering client_streams : Bool) (e : RgbEffect D) (l : ActivityLog) {P : Type 0}
      → P ↔ IsRendered e local_rendering client_streams
      → other ≢ k
      → Streams P m.effects_engine
          (effect_applied i m k n w local_rendering client_streams e l).effects_engine
          k
          other
  unfolding effect_applied
  applied-Streams m k other n w local_rendering client_streams e l (to, from) differ =
      let started = start-Streams m.effects_engine k other differ in
      let stopped = stop-Streams m.effects_engine k other differ in
      elim (Bool-cases (is_animated e)) [
        | inr still ↦
            rw (effect_applied, still)
              (stopped (λ h.
                let (moving, _, _) = to h in let bad : true ≡ false = sym moving ∙ still in cc))
        | inl moving ↦ elim (Bool-cases (local_rendering && not client_streams)) [
          | inl here ↦
              rw (effect_applied, moving, here)
                (let (a, b) = (and_not_iff _ _).0 here in started (from (moving, a, b)))
          | inr there ↦
              rw (effect_applied, moving, there)
                (stopped (λ h.
                  let (_, a, b) = to h in
                  let bad : true ≡ false = sym ((and_not_iff _ _).1 (a, b)) ∙ there in cc))
        ]
      ]

  sent-Streams :
      (m : DeviceManager V Q) (device zone : ℤ) (e : RgbEffect D) (client_streams : Bool) (n : ℕ)
      (v : V) (k : ℕ) (z : RgbZone D) (other : ZoneKey)
      → device_for_zone i m device zone ≡ some ((n, v), (k, z))
      → m.dry_run_enabled ≡ false
      → (apply_zone_effect i m device zone e client_streams).0 ≡ true
      → other ≢ record { device_index = device; zone_index = zone }
      → let sent = prepared_effect i v zone e in
        Streams
          (IsRendered sent (i.uses_local_frame_rendering_for_effect v zone sent) client_streams)
          m.effects_engine
          (apply_zone_effect i m device zone e client_streams).1.effects_engine
          (record { device_index = device; zone_index = zone })
          other
  unfolding apply_zone_effect
  sent-Streams m device zone e client_streams n v k z other found wet success differ =
      let key : ZoneKey = record { device_index = device; zone_index = zone } in
      let sent = prepared_effect i v zone e in
      let rendered = i.uses_local_frame_rendering_for_effect v zone sent in
      let summary = dry_run_summary i v zone z sent in
      let confirmed = device_write_confirmed i m device in
      let p = i.guarded v in
      let op = operation_of e in
      let (outcome, _) = evaluate m.dry_run_enabled p op m.activity_log summary confirmed in
      let (_, (logged, _)) =
        evaluate_reports_iff m.dry_run_enabled p op m.activity_log summary confirmed in
      rw (apply_zone_effect, found)
        (gated-done
          (λ (x : DeviceManager V Q).
            Streams (IsRendered sent rendered client_streams) m.effects_engine x.effects_engine key
              other)
          (i.supports_zone_effect v zone (pos (effect_number e.kind))) outcome.report_success
          outcome.apply_write (i.apply_zone_effect v zone sent).0 _ _ _ _ _
          (rw (apply_zone_effect, found) at success)
          (λ reported only.
            let (dry, _) = logged (reported, only) in let bad : true ≡ false = sym dry ∙ wet in cc)
          (applied-Streams m key other n _ rendered client_streams sent _ (λ h. h, λ h. h) differ))

  -- After an effect that the manager has reported as a success with dry-run off, the zone streams exactly
  -- if the effect is animated, the device renders it by frames from here, and no client streams it
  -- instead; every other zone streams or not as it did before.
  pub apply_zone_effect-streams :
      (m : DeviceManager V Q) (device zone : ℤ) (e : RgbEffect D) (client_streams : Bool) (n : ℕ)
      (v : V) (k : ℕ) (z : RgbZone D) (other : ZoneKey)
      → device_for_zone i m device zone ≡ some ((n, v), (k, z))
      → m.dry_run_enabled ≡ false
      → (apply_zone_effect i m device zone e client_streams).0 ≡ true
      → other ≢ record { device_index = device; zone_index = zone }
      → let after = (apply_zone_effect i m device zone e client_streams).1.effects_engine in
        let sent = prepared_effect i v zone e in
        ((is_zone_streaming after (record { device_index = device; zone_index = zone }) ≡ true) ↔ (
          (is_animated e ≡ true)
          × (i.uses_local_frame_rendering_for_effect v zone sent ≡ true)
          × (client_streams ≡ false)))
        × (is_zone_streaming after other ≡ is_zone_streaming m.effects_engine other)
  apply_zone_effect-streams m device zone e client_streams n v k z other found wet success differ =
      let (streams, kept) =
        sent-Streams m device zone e client_streams n v k z other found wet success differ in
      let kind = prepared_effect-is_animated i v zone e in
      (
        (
          (λ on. let (a, b, c) = streams.0 on in (sym kind ∙ a, b, c)),
          λ (a, b, c). streams.1 (kind ∙ a, b, c),
        ),
        kept,
      )
