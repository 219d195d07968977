-- ===== src/Color.antt =====
-- core/RgbColor.h and core/RgbColor.cpp: a colour of three bytes, its clamped constructor and its
-- hexadecimal text. A byte is a number below 256; a text is the list of its character codes.
-- `QColor` is Qt's: its reader of texts is the argument `parse` of `from_hex_string`, `none` where
-- `QColor::isValid` is false and else the three components. The JSON object is not modelled here.
pub mod Laws
pub mod Examples
use luma_core.Prelude.{
  ℕ, ◌+◌, ◌/◌, ◌%◌, ◌≤◌, ℤ, bound, Option, none, some, List, [], ◌∷◌, ◌++◌, ltb, if◌then◌else◌, ◌-◌,
}

pub record RgbColor : Type 0 where
  pub red : ℕ
  pub green : ℕ
  pub blue : ℕ

abbrev pub black : RgbColor
black = record { red = 0; green = 0; blue = 0 }

-- The members are `quint8`.
pub record IsColor (c : RgbColor) : Type 0 where
  pub red_le : c.red ≤ 255
  pub green_le : c.green ≤ 255
  pub blue_le : c.blue ≤ 255

unfoldable pub from_rgb : ℤ → ℤ → ℤ → RgbColor
from_rgb red green blue = record {
  red = bound red 255;
  green = bound green 255;
  blue = bound blue 255;
}

-- One digit of `.arg(value, 2, 16, QChar('0'))` after `toUpper`.
unfoldable pub hex_digit : ℕ → ℕ
hex_digit d = if ltb d 10 then b'0' + d else b'A' + d - 10

unfoldable pub hex_byte : ℕ → List ℕ
hex_byte v = hex_digit (v / 16) ∷ hex_digit (v % 16) ∷ []

unfoldable pub to_hex_string : RgbColor → List ℕ
unfolding hex_byte
to_hex_string c = b'#' ∷ hex_byte c.red ++ (hex_byte c.green ++ hex_byte c.blue)

abbrev pub Components : Type 0
Components = ℤ × ℤ × ℤ

unfoldable pub from_qcolor : Components → RgbColor
unfolding from_rgb
from_qcolor (r, g, b) = from_rgb r g b

-- The colour, and what `*ok` is set to as the presence of the components.
unfoldable pub from_hex_string : (List ℕ → Option Components) → List ℕ → Option RgbColor
from_hex_string parse value = elim (parse value) [
  | none ↦ none
  | some color ↦ some (from_qcolor color)
]
