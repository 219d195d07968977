-- ===== src/Aura/Packets/Mode.antt =====
-- The report that sets the mode of a channel, byte by byte, and the mode of an effect.
use luma_core.Prelude.{
  ℕ, ◌<◌, ◌%◌, ◌∙◌, negsuc, replicate, ◌≡◌, ◌≢◌, refl, ap, ◌⊎◌, inl, inr, ℤ, pos, true, false,
  arith, ◌∷◌, if◌then◌else◌, ◌==◌,
}
use luma_core.Effect.{
  RgbEffect, RgbEffectType, static, rainbow, breathing, color_cycle, wave, marquee, strobe,
}
use luma_core.Aura.Report.{mode_report}
use luma_core.Aura.Write.{native_mode_for_effect, off_mode}
use luma_core.Aura.Ready.{Within}

other_mode :
    (k : RgbEffectType)
    → k ≢ breathing
    → k ≢ color_cycle
    → k ≢ rainbow
    → native_mode_for_effect k ≡ 1
unfolding native_mode_for_effect
other_mode static b c r = refl
other_mode rainbow b c r = absurd (r refl)
other_mode breathing b c r = absurd (b refl)
other_mode color_cycle b c r = absurd (c refl)
other_mode wave b c r = refl
other_mode marquee b c r = refl
other_mode strobe b c r = refl

mode_small : (k : RgbEffectType) → native_mode_for_effect k < 256
unfolding native_mode_for_effect
mode_small static = omega arith
mode_small rainbow = omega arith
mode_small breathing = omega arith
mode_small color_cycle = omega arith
mode_small wave = omega arith
mode_small marquee = omega arith
mode_small strobe = omega arith

module _ {D : Type 0} where
  -- The number by which the firmware is asked for an effect.
  unfoldable pub IsModeOf : RgbEffect D → ℕ → Type 0
  IsModeOf e mode =
      (e.brightness ≡ 0 → mode ≡ 0)
      × (e.brightness ≢ 0 → e.kind ≡ color_cycle → mode ≡ 4)
      × (e.brightness ≢ 0 → e.kind ≡ rainbow → mode ≡ 5)
      × (e.brightness ≢ 0 → e.kind ≢ breathing → e.kind ≢ color_cycle → e.kind ≢ rainbow → mode ≡ 1)

  pub mode-IsModeOf :
      (e : RgbEffect D)
      → (e.brightness ≡ 0) ⊎ (e.brightness ≡ 100)
      → IsModeOf e (if e.brightness == 0 then off_mode else native_mode_for_effect e.kind)
        × ((if e.brightness == 0 then off_mode else native_mode_for_effect e.kind) < 256)
  unfolding IsModeOf native_mode_for_effect
  mode-IsModeOf e (inl off) =
      let test : (e.brightness == 0) ≡ true = ground arith in
      rw test (
        (λ _. refl, λ on. absurd (on off), λ on. absurd (on off), λ on. absurd (on off)),
        omega arith,
      )
  mode-IsModeOf e (inr on) =
      let test : (e.brightness == 0) ≡ false = ground arith in
      rw test (
        (
          λ off. absurd (omega arith),
          λ _ k. ap native_mode_for_effect k,
          λ _ k. ap native_mode_for_effect k,
          λ _. other_mode e.kind,
        ),
        mode_small e.kind,
      )

pub as_byte : (z : ℤ) → Within 0 255 z → (n : ℕ) × (z ≡ pos n) × (n < 256)
as_byte (pos n) h = (n, refl, omega arith)
as_byte (negsuc n) h = absurd (omega arith)

pub mode_report-bytes :
    (channel mode : ℕ)
    → channel < 256
    → mode < 256
    → mode_report channel mode ≡ 236 ∷ 53 ∷ channel ∷ 0 ∷ 0 ∷ mode ∷ replicate 59 0
unfolding mode_report
mode_report-bytes channel mode c m =
    let same_channel : channel % 256 ≡ channel = omega arith in
    let same_mode : mode % 256 ≡ mode = omega arith in
    ap (λ (x : ℕ). 236 ∷ 53 ∷ x ∷ 0 ∷ 0 ∷ (mode % 256) ∷ replicate 59 0) same_channel
    ∙ ap (λ (x : ℕ). 236 ∷ 53 ∷ channel ∷ 0 ∷ 0 ∷ x ∷ replicate 59 0) same_mode
