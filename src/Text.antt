-- ===== src/Text.antt =====
-- Texts as lists of character codes, and Qt's comparison without regard to case. Case folding is
-- Qt's, so it is an argument `fold`; that it takes the ASCII letters to lower case is `FoldsAscii`.
use Prim.Native.Char.{code}
use luma_core.Prelude.{
  ℕ, ◌+◌, ◌<◌, Bool, true, false, ◌&&◌, List, [], ◌∷◌, map, ◌≡◌, refl, leb, ◌==◌, if◌then◌else◌,
  String,
}

-- The code points of a literal.
abbrev pub codes : String → List ℕ
codes String.[] = []
codes (String.◌∷◌ c s) = code c ∷ codes s

unfoldable pub same_codes : List ℕ → List ℕ → Bool
same_codes [] [] = true
same_codes (x ∷ xs) (y ∷ ys) = x == y && same_codes xs ys
same_codes _ _ = false

-- `QString::compare(…, Qt::CaseInsensitive) == 0`.
unfoldable pub same_text : (ℕ → ℕ) → List ℕ → List ℕ → Bool
same_text fold xs ys = same_codes (map fold xs) (map fold ys)

unfoldable pub lower_ascii : ℕ → ℕ
lower_ascii c = if leb b'A' c && leb c b'Z' then c + 32 else c

abbrev pub FoldsAscii : (ℕ → ℕ) → Type 0
FoldsAscii fold = (c : ℕ) → c < 128 → fold c ≡ lower_ascii c

abbrev pub AllAscii : List ℕ → Type 0
AllAscii [] = Unit
AllAscii (x ∷ xs) = (x < 128) × AllAscii xs

map-fold-ascii :
    (fold : ℕ → ℕ) (xs : List ℕ) → FoldsAscii fold → AllAscii xs → map fold xs ≡ map lower_ascii xs
map-fold-ascii fold [] law a = refl
map-fold-ascii fold (x ∷ xs) law (a, as') = rw (law x a, map-fold-ascii fold xs law as')

-- On ASCII texts the comparison is the one by ASCII letters.
pub same_text-ascii :
    (fold : ℕ → ℕ) (xs ys : List ℕ)
    → FoldsAscii fold
    → AllAscii xs
    → AllAscii ys
    → same_text fold xs ys ≡ same_text lower_ascii xs ys
unfolding same_text
same_text-ascii fold xs ys law a b = rw (map-fold-ascii fold xs law a, map-fold-ascii fold ys law b)
