-- ===== src/Prelude/Int.antt =====
-- C++ `int` values as signed integers over the native numbers, under the library's names (its ℤ
-- stands on the unary ℕ). Sums and orders go through the two parts of an integer, which are numbers
-- that `omega` reads. Overflow is not modelled: the program's `int`s are counts and indices.
use Prim.Native.Nat.{ℕ, suc, ◌+◌, ◌-◌, ◌≤◌, ◌<◌, min}
use mathlib.Core.Path.{◌≡◌}
use mathlib.Core.Logic.{◌⊎◌}
use mathlib.Core.Bool.{Bool}
use mathlib.Core.Option.{Option, none, some}
use native.Mathlib.Omega.{arith}
use luma_core.Prelude.Tests.{ltb, leb, ◌==◌, if◌then◌else◌}

-- `negsuc n` is -(n + 1).
pub data ℤ : Type 0 where
  pos : ℕ → ℤ
  negsuc : ℕ → ℤ

abbrev pub pos_part : ℤ → ℕ
pos_part (pos n) = n
pos_part (negsuc n) = 0

abbrev pub neg_part : ℤ → ℕ
neg_part (pos n) = 0
neg_part (negsuc n) = suc n

-- a - b, as an integer.
abbrev pub sub_ℕ : ℕ → ℕ → ℤ
sub_ℕ a b = if leb b a then pos (a - b) else negsuc (b - a - 1)

infixl 65 ◌+ℤ◌
infix 50 ◌≤ℤ◌ ◌==ℤ◌
unfoldable pub ◌+ℤ◌ : ℤ → ℤ → ℤ
a +ℤ b = sub_ℕ (pos_part a + pos_part b) (neg_part a + neg_part b)

abbrev pub ◌≤ℤ◌ : ℤ → ℤ → Type 0
a ≤ℤ b = pos_part a + neg_part b ≤ pos_part b + neg_part a

abbrev pub ltb_ℤ : ℤ → ℤ → Bool
ltb_ℤ a b = ltb (pos_part a + neg_part b) (pos_part b + neg_part a)

abbrev pub ◌==ℤ◌ : ℤ → ℤ → Bool
a ==ℤ b = (pos_part a + neg_part b) == (pos_part b + neg_part a)

-- `qBound(0, value, high)`: the value clamped to the range from 0 to `high`.
abbrev pub bound : ℤ → ℕ → ℕ
bound z high = min (pos_part z) high

-- The test `value < 0 || value >= limit` that guards an index: `some` of the index if it passes.
abbrev pub index? : ℤ → ℕ → Option ℕ
index? (pos n) limit = if ltb n limit then some n else none
index? (negsuc n) limit = none

pub index?-some : (z : ℤ) (limit i : ℕ) → index? z limit ≡ some i → (z ≡ pos i) × (i < limit)
index?-some (pos n) limit i h = ground arith
index?-some (negsuc n) limit i h = ground arith

pub index?-pos : (i limit : ℕ) → i < limit → index? (pos i) limit ≡ some i
index?-pos i limit h = ground arith

-- An index that is refused is negative or at least the limit.
pub index?-none : (z : ℤ) (limit : ℕ) → index? z limit ≡ none → (z ≤ℤ negsuc 0) ⊎ (pos limit ≤ℤ z)
index?-none (pos n) limit h = ground arith
index?-none (negsuc n) limit h = ground arith
