-- ===== src/Color/Examples.antt =====
-- Tests of the colour functions, and the theorems about them at concrete colours.
use luma_core.Prelude.{ℕ, pos, negsuc, ◌≡◌, refl, Option, some, none, List, [], ◌∷◌, arith}
use luma_core.Color.{
  RgbColor, IsColor, from_rgb, to_hex_string, hex_digit, Components, from_hex_string,
}
use luma_core.Color.Laws.{ReadsSixDigits, pair_value, from_hex_string-to_hex_string}

abbrev header_blue : RgbColor
header_blue = record { red = 30; green = 84; blue = 214 }

hex_text : to_hex_string header_blue ≡ b'#' ∷ b'1' ∷ b'E' ∷ b'5' ∷ b'4' ∷ b'D' ∷ b'6' ∷ []
unfolding to_hex_string hex_digit
hex_text = refl

clamps : from_rgb (negsuc 4) (pos 300) (pos 7) ≡ record { red = 0; green = 255; blue = 7 }
unfolding from_rgb
clamps = refl

-- A reader of "#RRGGBB" alone.
six_digit_parse : List ℕ → Option Components
six_digit_parse (hash ∷ a ∷ b ∷ c ∷ d ∷ e ∷ f ∷ []) =
    some (pair_value a b, pair_value c d, pair_value e f)
six_digit_parse _ = none

six_digit_parse-ReadsSixDigits : ReadsSixDigits six_digit_parse
unfolding six_digit_parse
six_digit_parse-ReadsSixDigits a b c d e f _ _ _ _ _ _ = refl

header_blue-IsColor : IsColor header_blue
header_blue-IsColor = omega arith

from_hex_string-to_hex_string_example :
    from_hex_string six_digit_parse (to_hex_string header_blue) ≡ some header_blue
from_hex_string-to_hex_string_example =
    from_hex_string-to_hex_string six_digit_parse header_blue six_digit_parse-ReadsSixDigits
      header_blue-IsColor
