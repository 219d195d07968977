-- ===== src/Log/Laws.antt =====
-- The log keeps the latest texts, at most as many as its limit.
use luma_core.Prelude.{
  ℕ, zero, suc, ◌-◌, ◌≤◌, ◌≡◌, refl, ap, ◌∙◌, sym, List, [], ◌∷◌, ◌++◌, length, length-append,
  length-drop, drop, drop-drop, arith, Option, none, some, Option-cases, inl, inr,
}
use mathlib.Core.List.{append_assoc, append-nil}
use luma_core.Message.{Message}
use luma_core.Log.{ActivityLog, LogEntry, log}

-- A history of calls of `log`.
unfoldable pub log_all : ActivityLog → List LogEntry → ActivityLog
log_all l [] = l
log_all l (e ∷ es) = log_all (log l e.level e.category e.message) es

-- The entries of which a text is left after trimming, with that text.
unfoldable pub spoken : (Message → Option Message) → List LogEntry → List LogEntry
spoken trimmed [] = []
spoken trimmed (e ∷ es) = elim (trimmed e.message) [
  | none ↦ spoken trimmed es
  | some text ↦ record e { message = text } ∷ spoken trimmed es
]

-- The last `n` elements.
abbrev pub last_of {ℓ} : {A : Type ℓ} → ℕ → List A → List A
last_of n xs = drop (length xs - n) xs

drop-append {ℓ} :
    {A : Type ℓ} (n : ℕ) (xs ys : List A) → n ≤ length xs → drop n (xs ++ ys) ≡ drop n xs ++ ys
drop-append zero xs ys h = refl
drop-append (suc n) [] ys h = absurd (omega arith)
drop-append (suc n) (x ∷ xs) ys h = drop-append n xs ys (omega arith)

last_of-append {ℓ} :
    {A : Type ℓ} (m : ℕ) (xs ys : List A) → last_of m (last_of m xs ++ ys) ≡ last_of m (xs ++ ys)
last_of-append m xs ys =
    let k = length xs - m in
    let e = drop-append k xs ys (omega arith) in
    ap (λ zs. last_of m zs) (sym e)
    ∙ drop-drop (length (drop k (xs ++ ys)) - m) k (length (xs ++ ys) - m) (xs ++ ys)
        (omega (arith, length-drop k (xs ++ ys), length-append xs ys))

length-last_of {ℓ} : {A : Type ℓ} (m : ℕ) (xs : List A) → length (last_of m xs) ≤ m
length-last_of m xs = omega (arith, length-drop (length xs - m) xs)

last_of-short {ℓ} : {A : Type ℓ} (m : ℕ) (xs : List A) → length xs ≤ m → last_of m xs ≡ xs
last_of-short m xs h =
    let none_lost : length xs - m ≡ 0 = omega arith in ap (λ (k : ℕ). drop k xs) none_lost

log-blank :
    (l : ActivityLog) (e : LogEntry)
    → l.trimmed e.message ≡ none
    → log l e.level e.category e.message ≡ l
unfolding log
log-blank l e h = rw (log, h)

log-spoken :
    (l : ActivityLog) (e : LogEntry) (text : Message)
    → l.trimmed e.message ≡ some text
    → log l e.level e.category e.message ≡ record l {
      lines = last_of l.max_line_count (l.lines ++ (record e { message = text } ∷ []));
    }
unfolding log
log-spoken l e text h = rw (log, h)

lines-log_all :
    (l : ActivityLog) (es : List LogEntry)
    → length l.lines ≤ l.max_line_count
    → ((log_all l es).lines ≡ last_of l.max_line_count (l.lines ++ spoken l.trimmed es))
      × ((log_all l es).max_line_count ≡ l.max_line_count)
unfolding log_all spoken
lines-log_all l [] h =
    (sym (ap (λ zs. last_of l.max_line_count zs) (append-nil l.lines) ∙ last_of-short _ _ h), refl)
lines-log_all l (e ∷ es) h = elim (Option-cases (l.trimmed e.message)) [
  | inl b ↦ rw (log-blank l e b, log_all, b, spoken) (lines-log_all l es h)
  | inr (text, b) ↦
      let m = l.max_line_count in
      let entry : LogEntry = record e { message = text } in
      let kept = l.lines ++ (entry ∷ []) in
      let l' : ActivityLog = record l { lines = last_of m kept } in
      let (lines, limit) = lines-log_all l' es (length-last_of m kept) in
      rw (log-spoken l e text b, log_all, b, spoken)
        (
          lines
              ∙ last_of-append m kept (spoken l.trimmed es)
              ∙ ap (λ zs. last_of m zs) (append_assoc l.lines (entry ∷ []) (spoken l.trimmed es)),
          limit,
        )
]

-- After any history of calls on a log within its limit, the log holds exactly the latest entries of
-- which a text is left after trimming, with the trimmed text, in order, at most as many as its limit,
-- and the limit stays.
pub log_all-keeps_latest :
    (l : ActivityLog) (es : List LogEntry)
    → length l.lines ≤ l.max_line_count
    → ((log_all l es).lines ≡ last_of l.max_line_count (l.lines ++ spoken l.trimmed es))
      × (length (log_all l es).lines ≤ l.max_line_count)
      × ((log_all l es).max_line_count ≡ l.max_line_count)
log_all-keeps_latest l es h =
    let (lines, limit) = lines-log_all l es h in
    (lines, rw lines (length-last_of l.max_line_count (l.lines ++ spoken l.trimmed es)), limit)
