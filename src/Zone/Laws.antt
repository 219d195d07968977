-- ===== src/Zone/Laws.antt =====
-- The laws of zones: lamps stay numbered in order, and what each operation does to their colours.
use luma_core.Prelude.{
  ℕ, zero, suc, ◌+◌, ◌-◌, ◌≡◌, refl, ap, ℤ, pos_part, List, [], ◌∷◌, ◌++◌, map, arith, length,
  length-append, length-take, take, replicate, subst, ◌<◌, ◌≤◌, length-map, get_elem?, some, get_or,
  ◌%◌, ◌∙◌, ◌/◌,
}
use native.Mathlib.Nat.{add-zero}
use mathlib.Core.List.{append-nil}
use luma_core.Color.{RgbColor, black}
use luma_core.Effect.{RgbEffect}
use luma_core.Real.{Real}
use luma_core.Zone.{
  RgbZone, RgbZoneType, RgbLed, led_count, fresh_leds, make_zone, set_name, set_led_count,
  paint_all, set_color, paint_from, set_led_colors, set_effect,
}

-- The lamps are numbered one by one from `index`.
abbrev pub Numbered : ℕ → List RgbLed → Type 0
Numbered index [] = Unit
Numbered index (led ∷ rest) = (led.index ≡ index) × Numbered (suc index) rest

abbrev pub IsNumbered : {D : Type 0} → RgbZone D → Type 0
IsNumbered z = Numbered 0 z.leds

abbrev pub colors_of : List RgbLed → List RgbColor
colors_of = map (λ led. led.color)

fresh_leds-Numbered : (i n : ℕ) (c : RgbColor) → Numbered i (fresh_leds i n c)
unfolding fresh_leds
fresh_leds-Numbered i zero c = tt
fresh_leds-Numbered i (suc n) c = (refl, fresh_leds-Numbered (suc i) n c)

pub length-fresh_leds : (i n : ℕ) (c : RgbColor) → length (fresh_leds i n c) ≡ n
unfolding fresh_leds
length-fresh_leds i zero c = refl
length-fresh_leds i (suc n) c = ap suc (length-fresh_leds (suc i) n c)

colors_of-fresh_leds : (i n : ℕ) (c : RgbColor) → colors_of (fresh_leds i n c) ≡ replicate n c
unfolding fresh_leds
colors_of-fresh_leds i zero c = refl
colors_of-fresh_leds i (suc n) c = ap (◌∷◌ c) (colors_of-fresh_leds (suc i) n c)

take-Numbered : (i n : ℕ) (xs : List RgbLed) → Numbered i xs → Numbered i (take n xs)
take-Numbered i zero xs h = tt
take-Numbered i (suc n) [] h = tt
take-Numbered i (suc n) (x ∷ xs) h = (h.0, take-Numbered (suc i) n xs h.1)

append-Numbered :
    (i j : ℕ) (xs ys : List RgbLed)
    → Numbered i xs
    → j ≡ i + length xs
    → Numbered j ys
    → Numbered i (xs ++ ys)
append-Numbered i j [] ys h e k = subst (λ m. Numbered m ys) (omega arith) k
append-Numbered i j (x ∷ xs) ys h e k = (h.0, append-Numbered (suc i) j xs ys h.1 (omega arith) k)

paint_all-Numbered :
    (i : ℕ) (c : RgbColor) (xs : List RgbLed) → Numbered i xs → Numbered i (paint_all c xs)
unfolding paint_all
paint_all-Numbered i c [] h = tt
paint_all-Numbered i c (x ∷ xs) h = (h.0, paint_all-Numbered (suc i) c xs h.1)

paint_from-Numbered :
    (i k : ℕ) (cs : List RgbColor) (xs : List RgbLed)
    → Numbered i xs
    → Numbered i (paint_from k cs xs)
unfolding paint_from
paint_from-Numbered i k cs [] h = tt
paint_from-Numbered i k cs (x ∷ xs) h = (h.0, paint_from-Numbered (suc i) (suc k) cs xs h.1)

colors_of-paint_all :
    (c : RgbColor) (xs : List RgbLed) → colors_of (paint_all c xs) ≡ replicate (length xs) c
unfolding paint_all
colors_of-paint_all c [] = refl
colors_of-paint_all c (x ∷ xs) = ap (◌∷◌ c) (colors_of-paint_all c xs)

get_elem?-colors_of-paint_from :
    (k : ℕ) (cs : List RgbColor) (xs : List RgbLed) (i : ℕ)
    → i < length xs
    → get_elem? (colors_of (paint_from k cs xs)) i ≡ some (get_or cs ((k + i) % length cs) black)
unfolding paint_from
get_elem?-colors_of-paint_from k cs [] i h = absurd (omega arith)
get_elem?-colors_of-paint_from k cs (x ∷ xs) zero h = rw (add-zero k)
get_elem?-colors_of-paint_from k cs (x ∷ xs) (suc i) h =
    get_elem?-colors_of-paint_from (suc k) cs xs i (omega arith)
    ∙ ap (λ (m : ℕ). some (get_or cs (m % length cs) black)) (omega arith)

colors_of-append : (xs ys : List RgbLed) → colors_of (xs ++ ys) ≡ colors_of xs ++ colors_of ys
colors_of-append [] ys = refl
colors_of-append (x ∷ xs) ys = ap (◌∷◌ x.color) (colors_of-append xs ys)

colors_of-take : (n : ℕ) (xs : List RgbLed) → colors_of (take n xs) ≡ take n (colors_of xs)
colors_of-take zero xs = refl
colors_of-take (suc n) [] = refl
colors_of-take (suc n) (x ∷ xs) = ap (◌∷◌ x.color) (colors_of-take n xs)

take-all {ℓ} : {A : Type ℓ} (n : ℕ) (xs : List A) → length xs ≤ n → take n xs ≡ xs
take-all zero [] h = refl
take-all zero (x ∷ xs) h = absurd (omega arith)
take-all (suc n) [] h = refl
take-all (suc n) (x ∷ xs) h = ap (◌∷◌ x) (take-all n xs (omega arith))

module _ {D : Type 0} where
  pub set_led_count-IsNumbered :
      (z : RgbZone D) (n : ℤ) → IsNumbered z → IsNumbered (set_led_count z n)
  unfolding set_led_count
  set_led_count-IsNumbered z n h = ground (
    arith,
    take-Numbered 0 (pos_part n) z.leds h,
    append-Numbered 0 (led_count z) z.leds
        (fresh_leds (led_count z) (pos_part n - led_count z) z.current_color) h (omega arith)
        (fresh_leds-Numbered (led_count z) (pos_part n - led_count z) z.current_color),
  )

  pub set_led_colors-IsNumbered :
      (z : RgbZone D) (cs : List RgbColor) → IsNumbered z → IsNumbered (set_led_colors z cs)
  unfolding set_led_colors
  set_led_colors-IsNumbered z [] h = h
  set_led_colors-IsNumbered z (c ∷ cs) h = paint_from-Numbered 0 0 (c ∷ cs) z.leds h

  -- The constructor puts lamp number i at place i, and every setter keeps that of a zone where it holds.
  pub zone_ops-IsNumbered :
      ⦃r : Real D⦄ (name : List ℕ) (kind : RgbZoneType) (n : ℤ) (c : RgbColor) (z : RgbZone D)
      (e : RgbEffect D) (cs : List RgbColor)
      → IsNumbered z
      → IsNumbered {D = D} (make_zone name kind n c)
        × IsNumbered (set_name z name)
        × IsNumbered (set_led_count z n)
        × IsNumbered (set_color z c)
        × IsNumbered (set_led_colors z cs)
        × IsNumbered (set_effect z e)
  unfolding make_zone set_name set_color set_effect
  zone_ops-IsNumbered name kind n c z e cs h = (
    fresh_leds-Numbered 0 (pos_part n) c,
    h,
    set_led_count-IsNumbered z n h,
    paint_all-Numbered 0 c z.leds h,
    set_led_colors-IsNumbered z cs h,
    h,
  )

  pub led_count-set_led_count : (z : RgbZone D) (n : ℤ) → led_count (set_led_count z n) ≡ pos_part n
  unfolding set_led_count
  led_count-set_led_count z n = ground (
    arith,
    length-take (pos_part n) z.leds,
    length-append z.leds (fresh_leds (led_count z) (pos_part n - led_count z) z.current_color),
    length-fresh_leds (led_count z) (pos_part n - led_count z) z.current_color,
  )

  -- The new number of lamps is the requested one, and 0 for a negative request; the lamps that stay
  -- keep their colours, and the new ones have the current colour.
  pub colors_of-set_led_count :
      (z : RgbZone D) (n : ℤ)
      → (led_count (set_led_count z n) ≡ pos_part n)
        × (colors_of (set_led_count z n).leds
            ≡ take (pos_part n) (colors_of z.leds)
              ++ replicate (pos_part n - led_count z) z.current_color)
  unfolding set_led_count
  colors_of-set_led_count z n = (
    led_count-set_led_count z n,
    ground (
      arith,
      colors_of-take (pos_part n) z.leds,
      take-all (pos_part n) (colors_of z.leds),
      length-map z.leds (λ (led : RgbLed). led.color),
      colors_of-append z.leds (fresh_leds (led_count z) (pos_part n - led_count z) z.current_color),
      colors_of-fresh_leds (led_count z) (pos_part n - led_count z) z.current_color,
      append-nil (take (pos_part n) (colors_of z.leds)),
    ),
  )

  -- After `set_led_colors` with at least one colour, each lamp i of the zone has colour number i modulo
  -- the number of colours, and the current colour is the middle one; with no colour nothing changes.
  pub set_led_colors_lem :
      (z : RgbZone D) (c : RgbColor) (cs : List RgbColor) (i : ℕ)
      → i < led_count z
      → (get_elem? (colors_of (set_led_colors z (c ∷ cs)).leds) i
          ≡ some (get_or (c ∷ cs) (i % length (c ∷ cs)) black))
        × ((set_led_colors z (c ∷ cs)).current_color ≡ get_or (c ∷ cs) (length (c ∷ cs) / 2) black)
        × (set_led_colors z [] ≡ z)
  unfolding set_led_colors
  set_led_colors_lem z c cs i h = (
    get_elem?-colors_of-paint_from 0 (c ∷ cs) z.leds i h
        ∙ ap (λ (m : ℕ). some (get_or (c ∷ cs) (m % length (c ∷ cs)) black)) (omega arith),
    refl,
    refl,
  )

pub length-paint_all : (c : RgbColor) (xs : List RgbLed) → length (paint_all c xs) ≡ length xs
unfolding paint_all
length-paint_all c [] = refl
length-paint_all c (x ∷ xs) = ap suc (length-paint_all c xs)

length-paint_from :
    (k : ℕ) (cs : List RgbColor) (xs : List RgbLed) → length (paint_from k cs xs) ≡ length xs
unfolding paint_from
length-paint_from k cs [] = refl
length-paint_from k cs (x ∷ xs) = ap suc (length-paint_from (suc k) cs xs)

pub led_count-set_color :
    {D : Type 0} (z : RgbZone D) (c : RgbColor) → led_count (set_color z c) ≡ led_count z
unfolding set_color
led_count-set_color z c = length-paint_all c z.leds

pub led_count-set_led_colors :
    {D : Type 0} (z : RgbZone D) (cs : List RgbColor)
    → led_count (set_led_colors z cs) ≡ led_count z
unfolding set_led_colors
led_count-set_led_colors z [] = refl
led_count-set_led_colors z (c ∷ cs) = length-paint_from 0 (c ∷ cs) z.leds
