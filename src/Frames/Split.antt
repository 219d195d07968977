-- ===== src/Frames/Split.antt =====
-- Bytes split at the first newline.
use luma_core.Prelude.{
  ℕ, suc, ◌≤◌, ◌≡◌, ◌≢◌, refl, ap, ◌∙◌, sym, ◌⊎◌, inl, inr, Bool-cases, false, List, [], ◌∷◌, ◌++◌,
  none, some, ◌==◌, arith, length, take, drop, get_or,
}
use luma_core.Frames.{newline_index}

-- No byte is a newline.
unfoldable pub IsLine : List ℕ → Type 0
IsLine [] = Unit
IsLine (b ∷ bs) = (b ≢ 10) × IsLine bs

pub newline_index-line : (p s : List ℕ) → IsLine p → newline_index (p ++ 10 ∷ s) ≡ some (length p)
unfolding newline_index IsLine
newline_index-line [] s h = refl
newline_index-line (b ∷ p) s h =
    let other : (b == 10) ≡ false = ground (arith, h.0) in
    rw (newline_index, other, newline_index-line p s h.1)

pub newline_index-none : (p : List ℕ) → IsLine p → newline_index p ≡ none
unfolding newline_index IsLine
newline_index-none [] h = refl
newline_index-none (b ∷ p) h =
    let other : (b == 10) ≡ false = ground (arith, h.0) in
    rw (newline_index, other, newline_index-none p h.1)

-- Every buffer is a line, or starts with a line and a newline.
pub split_at_newline : (bs : List ℕ) → IsLine bs ⊎ ((p s : List ℕ) × IsLine p × (bs ≡ p ++ 10 ∷ s))
unfolding IsLine
split_at_newline [] = inl tt
split_at_newline (b ∷ bs) = elim (Bool-cases (b == 10)) [
  | inl e ↦ inr ([], bs, tt, ap (λ (x : ℕ). x ∷ bs) (ground arith))
  | inr e ↦ elim (split_at_newline bs) [
    | inl h ↦ inl (ground arith, h)
    | inr (p, s, h, same) ↦ inr (b ∷ p, s, (ground arith, h), ap (◌∷◌ b) same)
  ]
]

head-eq : {a b : ℕ} {s t : List ℕ} → a ∷ s ≡ b ∷ t → a ≡ b
head-eq {a = a} e = ap (λ (xs : List ℕ). get_or xs 0 a) e

tail-eq : {a b : ℕ} {s t : List ℕ} → a ∷ s ≡ b ∷ t → s ≡ t
tail-eq e = ap (drop 1) e

-- Two lines with a newline behind them are the same where the bytes are.
pub line_unique :
    (p q s t : List ℕ) → IsLine p → IsLine q → p ++ 10 ∷ s ≡ q ++ 10 ∷ t → (p ≡ q) × (s ≡ t)
unfolding IsLine
line_unique [] [] s t hp hq e = (refl, tail-eq e)
line_unique [] (b ∷ q) s t hp hq e = absurd (hq.0 (sym (head-eq e)))
line_unique (a ∷ p) [] s t hp hq e = absurd (hp.0 (head-eq e))
line_unique (a ∷ p) (b ∷ q) s t hp hq e =
    let (same, rest) = line_unique p q s t hp.1 hq.1 (tail-eq e) in
    (ap (λ (x : ℕ). x ∷ p) (head-eq e) ∙ ap (◌∷◌ b) same, rest)

-- A line that starts some bytes is no longer than the first line of them.
pub line-le : (p q s t : List ℕ) → IsLine p → p ++ s ≡ q ++ 10 ∷ t → length p ≤ length q
unfolding IsLine
line-le [] q s t hp e = omega arith
line-le (a ∷ p) [] s t hp e = absurd (hp.0 (head-eq e))
line-le (a ∷ p) (b ∷ q) s t hp e = let le = line-le p q s t hp.1 (tail-eq e) in omega (arith, le)

pub IsLine-left : (p s : List ℕ) → IsLine (p ++ s) → IsLine p
unfolding IsLine
IsLine-left [] s h = tt
IsLine-left (b ∷ p) s h = (h.0, IsLine-left p s h.1)

pub not-line : (p s : List ℕ) {X : Type 0} → IsLine (p ++ 10 ∷ s) → X
unfolding IsLine
not-line [] s h = absurd (h.0 refl)
not-line (b ∷ p) s h = not-line p s h.1

pub take-line : (p s : List ℕ) → take (length p) (p ++ s) ≡ p
take-line [] s = refl
take-line (b ∷ p) s = ap (◌∷◌ b) (take-line p s)

pub drop-line : (p s : List ℕ) → drop (suc (length p)) (p ++ 10 ∷ s) ≡ s
drop-line [] s = refl
drop-line (b ∷ p) s = drop-line p s
