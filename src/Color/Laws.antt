-- ===== src/Color/Laws.antt =====
-- The laws of colours: clamping, and the hexadecimal text.
use luma_core.Prelude.{
  ℕ, ◌+◌, ◌-◌, ◌*◌, ◌/◌, ◌%◌, ◌≤◌, ◌<◌, ℤ, pos, ◌≡◌, ap, ◌⊎◌, Option, some, List, [], ◌∷◌, arith,
  ltb, if◌then◌else◌,
}
use luma_core.Color.{
  RgbColor, IsColor, from_rgb, hex_digit, to_hex_string, Components, from_qcolor, from_hex_string,
}

pub from_rgb-IsColor : (r g b : ℤ) → IsColor (from_rgb r g b)
unfolding from_rgb
from_rgb-IsColor r g b = omega arith

pub from_rgb-of_color :
    (c : RgbColor) → IsColor c → from_rgb (pos c.red) (pos c.green) (pos c.blue) ≡ c
unfolding from_rgb
from_rgb-of_color c v = ground arith

-- The value of a hexadecimal digit, by the order of the ASCII table.
unfoldable pub digit_value : ℕ → ℕ
digit_value code = if ltb code 58 then code - 48 else if ltb code 71 then code - 55 else code - 87

abbrev pub IsHexDigit : ℕ → Type 0
IsHexDigit code =
    ((48 ≤ code) × (code < 58)) ⊎ ((65 ≤ code) × (code < 71)) ⊎ ((97 ≤ code) × (code < 103))

unfoldable pub pair_value : ℕ → ℕ → ℤ
unfolding digit_value
pair_value high low = pos (16 * digit_value high + digit_value low)

-- What Qt documents of `QColor(const QString&)` for the form "#RRGGBB".
abbrev pub ReadsSixDigits : (List ℕ → Option Components) → Type 0
ReadsSixDigits parse =
    (a b c d e f : ℕ)
    → IsHexDigit a
    → IsHexDigit b
    → IsHexDigit c
    → IsHexDigit d
    → IsHexDigit e
    → IsHexDigit f
    → parse (b'#' ∷ a ∷ b ∷ c ∷ d ∷ e ∷ f ∷ [])
      ≡ some (pair_value a b, pair_value c d, pair_value e f)

hex_digit-IsHexDigit : (d : ℕ) → d < 16 → IsHexDigit (hex_digit d)
unfolding hex_digit
hex_digit-IsHexDigit d h = ground arith

digit_value-hex_digit : (d : ℕ) → d < 16 → digit_value (hex_digit d) ≡ d
unfolding hex_digit digit_value
digit_value-hex_digit d h = ground arith

pair_value-hex : (v : ℕ) → v ≤ 255 → pair_value (hex_digit (v / 16)) (hex_digit (v % 16)) ≡ pos v
unfolding pair_value
pair_value-hex v h = ap pos (
    omega (
      arith,
      digit_value-hex_digit (v / 16) (omega arith),
      digit_value-hex_digit (v % 16) (omega arith),
    ))

-- With a `QColor` that reads "#RRGGBB" as documented, the text that `to_hex_string` writes for a
-- colour of bytes is read back by `from_hex_string` as that very colour.
pub from_hex_string-to_hex_string :
    (parse : List ℕ → Option Components) (c : RgbColor)
    → ReadsSixDigits parse
    → IsColor c
    → from_hex_string parse (to_hex_string c) ≡ some c
unfolding to_hex_string from_hex_string from_qcolor
from_hex_string-to_hex_string parse c reads v =
    rw
      (
        reads (hex_digit (c.red / 16)) (hex_digit (c.red % 16)) (hex_digit (c.green / 16))
            (hex_digit (c.green % 16)) (hex_digit (c.blue / 16)) (hex_digit (c.blue % 16))
            (hex_digit-IsHexDigit _ (omega arith)) (hex_digit-IsHexDigit _ (omega arith))
            (hex_digit-IsHexDigit _ (omega arith)) (hex_digit-IsHexDigit _ (omega arith))
            (hex_digit-IsHexDigit _ (omega arith)) (hex_digit-IsHexDigit _ (omega arith)),
        from_hex_string,
        pair_value-hex c.red v.red_le,
        pair_value-hex c.green v.green_le,
        pair_value-hex c.blue v.blue_le,
      )
      (ap some (from_rgb-of_color c v))
