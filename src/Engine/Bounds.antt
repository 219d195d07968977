-- ===== src/Engine/Bounds.antt =====
-- What every frame of an effect has in common, whatever the arithmetic of doubles is.
use luma_core.Prelude.{
  All, ℕ, zero, suc, ◌≡◌, refl, ap, ℤ, pos_part, Bool, true, false, List, if◌then◌else◌, arith,
  length, replicate,
}
use luma_core.Color.{RgbColor, IsColor, black, Components, from_qcolor}
use luma_core.Color.Laws.{from_rgb-IsColor}
use luma_core.Real.{Real}
use luma_core.Effect.{
  RgbEffect, RgbEffectType, static, rainbow, breathing, color_cycle, wave, marquee, strobe,
}
use luma_core.Engine.Frame.{lamp_loop, times, frame_of_kind, compute_frame}

-- As many colours as lamps, each with components up to 255.
unfoldable pub IsFrame : ℕ → List RgbColor → Type 0
IsFrame n colors = (length colors ≡ n) × All IsColor colors

black-IsColor : IsColor black
black-IsColor = omega arith

lamp_loop-IsFrame :
    (color_at : ℕ → RgbColor) (index n : ℕ)
    → ((i : ℕ) → IsColor (color_at i))
    → IsFrame n (lamp_loop color_at index n)
unfolding IsFrame lamp_loop
lamp_loop-IsFrame color_at index zero each = (refl, tt)
lamp_loop-IsFrame color_at index (suc n) each =
    let (size, rest) = lamp_loop-IsFrame color_at (suc index) n each in
    (ap suc size, (each index, rest))

replicate-IsFrame : (n : ℕ) (c : RgbColor) → IsColor c → IsFrame n (replicate n c)
unfolding IsFrame
replicate-IsFrame zero c v = (refl, tt)
replicate-IsFrame (suc n) c v =
    let (size, rest) = replicate-IsFrame n c v in (ap suc size, (v, rest))

if-IsColor : (b : Bool) (c : RgbColor) → IsColor c → IsColor (if b then c else black)
if-IsColor true c v = v
if-IsColor false c v = black-IsColor

from_qcolor-IsColor : (q : Components) → IsColor (from_qcolor q)
unfolding from_qcolor
from_qcolor-IsColor (r, g, b) = from_rgb-IsColor r g b

module _ {D : Type 0} ⦃r : Real D⦄ where
  times-IsColor : (c : RgbColor) (factor : D) → IsColor (times c factor)
  unfolding times
  times-IsColor c factor = from_rgb-IsColor _ _ _

  kind-IsFrame :
      (kind : RgbEffectType) (base : RgbColor) (brightness : D) (n : ℕ) (speed elapsed : D)
      → IsFrame n (frame_of_kind kind base brightness n speed elapsed)
  unfolding frame_of_kind
  kind-IsFrame rainbow base brightness n speed elapsed =
      lamp_loop-IsFrame _ 0 n (λ i. from_qcolor-IsColor _)
  kind-IsFrame color_cycle base brightness n speed elapsed =
      replicate-IsFrame n _ (from_qcolor-IsColor _)
  kind-IsFrame breathing base brightness n speed elapsed =
      replicate-IsFrame n _ (times-IsColor base _)
  kind-IsFrame wave base brightness n speed elapsed =
      lamp_loop-IsFrame _ 0 n (λ i. times-IsColor base _)
  kind-IsFrame marquee base brightness n speed elapsed =
      lamp_loop-IsFrame _ 0 n (λ i. if-IsColor _ _ (times-IsColor base brightness))
  kind-IsFrame strobe base brightness n speed elapsed =
      replicate-IsFrame n _ (if-IsColor _ _ (times-IsColor base brightness))
  kind-IsFrame static base brightness n speed elapsed =
      replicate-IsFrame n _ (times-IsColor base brightness)

  -- Whatever the arithmetic of doubles is, the frame of an effect at a time has one colour for each lamp,
  -- and none for a count that is not positive, and the components of each are at most 255.
  pub compute_frame-IsFrame :
      (effect : RgbEffect D) (led_count : ℤ) (elapsed : D)
      → IsFrame (pos_part led_count) (compute_frame effect led_count elapsed)
  unfolding compute_frame
  compute_frame-IsFrame effect led_count elapsed =
      kind-IsFrame effect.kind effect.color _ (pos_part led_count) effect.speed elapsed
