-- ===== src/Engine/Frame.antt =====
-- core/EffectsEngine.cpp, `computeFrame`: the colours of an effect at a time. The arithmetic is that of
-- an instance of `Real`. The casts to `float` are part of `from_hsv`.
use luma_core.Prelude.{
  ℕ, zero, suc, ◌+◌, ◌*◌, ◌-◌, ◌%◌, ℤ, pos, negsuc, pos_part, List, [], ◌∷◌, if◌then◌else◌, ltb,
  replicate,
}
use luma_core.Color.{RgbColor, black, from_rgb, from_qcolor}
use luma_core.Real.{Real}
use luma_core.Effect.{
  RgbEffect, RgbEffectType, static, rainbow, breathing, color_cycle, wave, marquee, strobe, q_bound,
}

abbrev pub marquee_block_leds : ℕ
marquee_block_leds = 3

-- The loops over the lamps, from `index` on, with `left` lamps to come.
unfoldable pub lamp_loop : (ℕ → RgbColor) → ℕ → ℕ → List RgbColor
lamp_loop color_at index zero = []
lamp_loop color_at index (suc left) = color_at index ∷ lamp_loop color_at (suc index) left

-- `((index - shift) % 6 + 6) % 6`, where the remainder of C++ has the sign of the dividend.
unfoldable pub pattern_index : ℕ → ℤ → ℕ
pattern_index index (pos shift) =
    let size = marquee_block_leds * 2 in
    if ltb index shift then (size - (shift - index) % size) % size else (index - shift) % size
pattern_index index (negsuc shift) = (index + suc shift) % (marquee_block_leds * 2)

module _ {D : Type 0} ⦃r : Real D⦄ where
  abbrev fractional : D → D
  fractional value = r.sub value (r.floor value)

  abbrev stream_period_scale : D
  stream_period_scale =
      r.div (r.sub (r.literal 165 1) (r.literal 16 1))
        (r.sub (r.div (r.literal 1 0) (r.literal 1 1)) (r.div (r.literal 1 0) (r.literal 5 0)))

  abbrev stream_period_offset : D
  stream_period_offset = r.sub (r.literal 16 1) (r.div stream_period_scale (r.literal 5 0))

  unfoldable pub streamed_effect_period_seconds : D → D
  streamed_effect_period_seconds speed =
      r.add stream_period_offset
        (r.div stream_period_scale (q_bound (r.literal 1 1) speed (r.literal 5 0)))

  -- `RgbColor::fromRgb` of the three components, each times a factor and rounded.
  unfoldable pub times : RgbColor → D → RgbColor
  times c factor =
      from_rgb (r.lround (r.mul (r.of_int (pos c.red)) factor))
        (r.lround (r.mul (r.of_int (pos c.green)) factor))
        (r.lround (r.mul (r.of_int (pos c.blue)) factor))

  -- A sine between 0 and 1.
  abbrev wave_at : D → D
  wave_at phase =
      r.div (r.add (r.sin (r.mul (r.mul phase (r.literal 2 0)) r.pi)) (r.literal 1 0))
        (r.literal 2 0)

  abbrev position_of : ℕ → ℕ → D
  position_of index led_count = r.div (r.of_int (pos index)) (r.of_int (pos led_count))

  unfoldable pub frame_of_kind : RgbEffectType → RgbColor → D → ℕ → D → D → List RgbColor
  unfolding times lamp_loop pattern_index streamed_effect_period_seconds
  frame_of_kind kind base brightness led_count speed elapsed =
      let offset = r.div elapsed (streamed_effect_period_seconds speed) in
      elim kind [
        | rainbow ↦
            lamp_loop
              (λ index. from_qcolor (
                r.from_hsv (fractional (r.add offset (position_of index led_count))) (r.literal 1 0)
                  brightness))
              0 led_count
        | color_cycle ↦
            replicate led_count
              (from_qcolor (r.from_hsv (fractional offset) (r.literal 1 0) brightness))
        | breathing ↦
            let depth = r.mul (r.sub (r.literal 1 0) (r.literal 12 2)) (wave_at offset) in
            replicate led_count (times base (r.mul (r.add (r.literal 12 2) depth) brightness))
        | wave ↦
            lamp_loop
              (λ index.
                times base
                  (r.mul (wave_at (r.sub (position_of index led_count) offset)) brightness))
              0 led_count
        | marquee ↦
            let size = r.of_int (pos (marquee_block_leds * 2)) in
            let shift = r.truncate (r.floor (r.mul (fractional offset) size)) in
            let lit = times base brightness in
            lamp_loop
              (λ index. if ltb (pattern_index index shift) marquee_block_leds then lit else black) 0
              led_count
        | strobe ↦
            let lit = r.lt (fractional (r.mul offset (r.literal 8 0))) (r.literal 5 1) in
            replicate led_count (if lit then times base brightness else black)
        | static ↦ replicate led_count (times base brightness)
      ]

  -- A count that is not positive gives no colours.
  unfoldable pub compute_frame : RgbEffect D → ℤ → D → List RgbColor
  unfolding frame_of_kind
  compute_frame effect led_count elapsed =
      let part = r.div (r.of_int (pos effect.brightness)) (r.literal 100 0) in
      frame_of_kind effect.kind effect.color (q_bound (r.literal 0 0) part (r.literal 1 0))
        (pos_part led_count) effect.speed elapsed
