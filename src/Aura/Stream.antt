-- ===== src/Aura/Stream.antt =====
-- A stream of EC40 reports, read back by an independent decoder of the wire format.
pub mod Frame
use Prim.Native.Nat.{bit_or}
use mathlib.Core.List.{append_assoc, append-nil}
use luma_core.Prelude.{
  All, ==_iff, ℕ, zero, suc, ◌+◌, ◌-◌, ◌*◌, ◌/◌, ◌%◌, ◌≤◌, ◌<◌, ◌≡◌, refl, ap, ◌∙◌, sym, Bool, true,
  false, ◌&&◌, List, [], ◌∷◌, ◌++◌, if◌then◌else◌, ltb, ◌==◌, arith, length, length-append,
  length-take, length-drop, take, drop, replicate, set, min, get_or, Bool-cases, inl, inr, subst,
}
use luma_core.Color.{RgbColor, IsColor}
use luma_core.Aura.Report.{
  Report, aura_report, to_char, put_color, put_colors, direct_report, direct_reports,
  max_leds_per_packet, color_payload_offset,
}

-- The bytes of colours, one after another.
unfoldable pub bytes_of : List RgbColor → List ℕ
bytes_of [] = []
bytes_of (c ∷ cs) = c.red ∷ c.green ∷ c.blue ∷ bytes_of cs

length-bytes_of : (cs : List RgbColor) → length (bytes_of cs) ≡ 3 * length cs
unfolding bytes_of
length-bytes_of [] = refl
length-bytes_of (c ∷ cs) = omega (arith, length-bytes_of cs)

suc-plus : (i k : ℕ) → suc i + k ≡ suc (i + k)
suc-plus i k = omega arith

put_color-suc :
    (x : ℕ) (r : Report) (i : ℕ) (c : RgbColor) → put_color (x ∷ r) (suc i) c ≡ x ∷ put_color r i c
unfolding put_color
put_color-suc x r i c = rw (suc-plus i 1, suc-plus i 2)

put_colors-suc :
    (x : ℕ) (r : Report) (i : ℕ) (cs : List RgbColor)
    → put_colors (x ∷ r) (suc i) cs ≡ x ∷ put_colors r i cs
unfolding put_colors
put_colors-suc x r i [] = refl
put_colors-suc x r i (c ∷ cs) =
    rw (put_color-suc x r i c, suc-plus i 3) (put_colors-suc x (put_color r i c) (i + 3) cs)

put_colors-3 :
    (x y z : ℕ) (r : Report) (cs : List RgbColor)
    → put_colors (x ∷ y ∷ z ∷ r) 3 cs ≡ x ∷ y ∷ z ∷ put_colors r 0 cs
put_colors-3 x y z r cs =
    put_colors-suc x (y ∷ z ∷ r) 2 cs
    ∙ ap (λ (t : Report). x ∷ t) (put_colors-suc y (z ∷ r) 1 cs)
    ∙ ap (λ (t : Report). x ∷ y ∷ t) (put_colors-suc z r 0 cs)

to_char-byte : (v : ℕ) → v ≤ 255 → to_char v ≡ v
to_char-byte v h = omega arith

-- Over a blank payload the writes leave the colours' bytes, and zeros behind them.
pub put_colors-zeros :
    (n : ℕ) (cs : List RgbColor)
    → All IsColor cs
    → 3 * length cs ≤ n
    → put_colors (replicate n 0) 0 cs ≡ bytes_of cs ++ replicate (n - 3 * length cs) 0
unfolding put_colors put_color bytes_of
put_colors-zeros n [] v h = ap (λ (k : ℕ). replicate k 0) (omega arith)
put_colors-zeros (suc (suc (suc n))) (c ∷ cs) v h =
    let rest : 3 * length cs ≤ n = omega arith in
    let left : suc (suc (suc n)) - 3 * suc (length cs) ≡ n - 3 * length cs = omega arith in
    rw (
      put_colors-3 (to_char c.red) (to_char c.green) (to_char c.blue) (replicate n 0) cs,
      left,
      to_char-byte c.red v.0.red_le,
      to_char-byte c.green v.0.green_le,
      to_char-byte c.blue v.0.blue_le,
      put_colors-zeros n cs v.1 rest,
    )
put_colors-zeros n (c ∷ cs) v h = absurd (omega arith)

-- A report of five header bytes with colours behind them.
pub put_colors-payload :
    (a b c d e : ℕ) (cs : List RgbColor)
    → All IsColor cs
    → length cs ≤ 20
    → put_colors (a ∷ b ∷ c ∷ d ∷ e ∷ replicate 60 0) 5 cs
      ≡ a ∷ b ∷ c ∷ d ∷ e ∷ (bytes_of cs ++ replicate (60 - 3 * length cs) 0)
put_colors-payload a b c d e cs v h =
    put_colors-suc a (b ∷ c ∷ d ∷ e ∷ replicate 60 0) 4 cs
    ∙ ap (λ (t : Report). a ∷ t) (put_colors-suc b (c ∷ d ∷ e ∷ replicate 60 0) 3 cs)
    ∙ ap (λ (t : Report). a ∷ b ∷ t)
        (put_colors-3 c d e (replicate 60 0) cs
          ∙ ap (λ (t : Report). c ∷ d ∷ e ∷ t) (put_colors-zeros 60 cs v (omega arith)))

-- The decoder: the colours of `count` lamps in a payload.
unfoldable pub read_colors : ℕ → List ℕ → List RgbColor
read_colors (suc n) (r ∷ g ∷ b ∷ rest) =
    record { red = r; green = g; blue = b } ∷ read_colors n rest
read_colors _ _ = []

pub read_colors-bytes_of :
    (cs : List RgbColor) (rest : List ℕ) → read_colors (length cs) (bytes_of cs ++ rest) ≡ cs
unfolding read_colors bytes_of
read_colors-bytes_of [] rest = refl
read_colors-bytes_of (c ∷ cs) rest = ap (◌∷◌ c) (read_colors-bytes_of cs rest)
