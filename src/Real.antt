-- ===== src/Real.antt =====
-- What the program uses of `double`, of <cmath> and of Qt's rounding and `QColor::fromHsvF`. None of
-- it is the program's, so it enters as an instance: a type with its operations. The laws that some
-- theorems rely on are apart, in `IsReal`: facts of IEEE arithmetic about whole numbers.
pub mod Hundredths
use luma_core.Prelude.{ℕ, suc, ℤ, pos, Bool, ◌≡◌, List}
use luma_core.Color.{Components}

pub record Real (D : Type 0) : Type 0 where
  -- `static_cast<double>` of an `int`, and the literal n / 10 ^ k.
  pub of_int : ℤ → D
  pub literal : ℕ → ℕ → D
  pub add : D → D → D
  pub sub : D → D → D
  pub mul : D → D → D
  pub div : D → D → D
  pub lt : D → D → Bool
  pub floor : D → D
  pub sin : D → D
  pub pi : D
  -- `qRound`, `std::lround`, and `static_cast<int>`, which cuts the fraction off.
  pub q_round : D → ℤ
  pub lround : D → ℤ
  pub truncate : D → ℤ
  -- `QColor::fromHsvF`, after the casts to `float`, and the components of the colour.
  pub from_hsv : D → D → D → Components
  -- The text of `QString::arg` for a double.
  pub print : D → List ℕ

-- Division of a whole number by itself gives 1.0, a product with 1.0 or 0.0 is exact, and a whole
-- number is rounded to itself.
pub record IsReal {D : Type 0} (r : Real D) : Type 0 where
  pub div_self :
      (n : ℕ) → r.div (r.of_int (pos (suc n))) (r.of_int (pos (suc n))) ≡ r.of_int (pos 1)
  pub zero_div : (n : ℕ) → r.div (r.of_int (pos 0)) (r.of_int (pos (suc n))) ≡ r.of_int (pos 0)
  pub mul_one : (n : ℕ) → r.mul (r.of_int (pos n)) (r.of_int (pos 1)) ≡ r.of_int (pos n)
  pub mul_zero : (n : ℕ) → r.mul (r.of_int (pos n)) (r.of_int (pos 0)) ≡ r.of_int (pos 0)
  pub literal_int : (n : ℕ) → r.literal n 0 ≡ r.of_int (pos n)
  pub q_round_int : (n : ℕ) → r.q_round (r.of_int (pos n)) ≡ pos n
  pub lround_int : (n : ℕ) → r.lround (r.of_int (pos n)) ≡ pos n
