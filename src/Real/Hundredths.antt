-- ===== src/Real/Hundredths.antt =====
-- An instance of the arithmetic that meets the laws: numbers of hundredths. It serves the tests.
use luma_core.Prelude.{ℕ, ◌+◌, ◌-◌, ◌*◌, ◌/◌, ◌^◌, pos, pos_part, ap, ltb, arith, []}
use luma_core.Real.{Real, IsReal}

abbrev pub hundredths : Real ℕ
hundredths = record {
  of_int = λ z. pos_part z * 100;
  literal = λ n k. n * 100 / 10 ^ k;
  add = λ a b. a + b;
  sub = λ a b. a - b;
  mul = λ a b. a * b / 100;
  div = λ a b. a * 100 / b;
  lt = ltb;
  floor = λ a. a / 100 * 100;
  sin = λ a. 0;
  pi = 314;
  q_round = λ a. pos ((a + 50) / 100);
  lround = λ a. pos ((a + 50) / 100);
  truncate = λ a. pos (a / 100);
  from_hsv = λ h s v. (pos (h * 255 / 100), pos (s * 255 / 100), pos (v * 255 / 100));
  print = λ a. [];
}

pub hundredths-IsReal : IsReal hundredths
hundredths-IsReal = record {
  div_self = λ n. grind arith;
  zero_div = λ n. grind arith;
  mul_one = λ n. omega arith;
  mul_zero = λ n. omega arith;
  literal_int = λ n. omega arith;
  q_round_int = λ n. ap pos (omega arith);
  lround_int = λ n. ap pos (omega arith);
}
