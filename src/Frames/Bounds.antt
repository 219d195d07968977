-- ===== src/Frames/Bounds.antt =====
-- Where the read loop of the server stops, whatever the bytes are.
use luma_core.Prelude.{
  ℕ, zero, suc, ◌+◌, ◌*◌, ◌≤◌, ◌<◌, ◌≡◌, refl, ap, ◌∙◌, sym, ◌⊎◌, inl, inr, Bool-cases, true, false,
  List, [], ◌∷◌, ◌++◌, ltb, arith, length, subst,
}
use luma_core.Frames.{
  is_blank, take_next_daemon_frame, max_message_bytes, read_loop, handle_ready_read, waiting,
  disconnected, out_of_fuel, Ending, empty_frame,
}
use luma_core.Frames.Split.{
  IsLine, newline_index-line, newline_index-none, split_at_newline, take-line, drop-line,
}
use luma_core.Frames.Stream.{
  loop-message, loop-read, loop-wait, moved-less, Nil-cases, length-suffix,
}

-- The client is disconnected, or the loop waits for bytes with a line within the limit.
unfoldable pub IsStopped : Ending → Type 0
IsStopped (waiting buffer unread) =
    IsLine buffer × (length buffer ≤ max_message_bytes) × (unread ≡ [])
IsStopped disconnected = Unit
IsStopped out_of_fuel = ⊥

-- A line or a message above the limit ends the connection.
pub loop-oversized :
    (trimmed : List ℕ → List ℕ) (fuel : ℕ) (p unread : List ℕ)
    → IsLine p
    → max_message_bytes < length p
    → (read_loop trimmed (suc fuel) p unread ≡ ([], disconnected))
      × ((s : List ℕ) → read_loop trimmed (suc fuel) (p ++ 10 ∷ s) unread ≡ ([], disconnected))
unfolding read_loop take_next_daemon_frame
loop-oversized trimmed fuel p unread line over =
    let large : ltb max_message_bytes (length p) ≡ true = ground arith in
    (
      rw (read_loop, take_next_daemon_frame, newline_index-none p line, large),
      λ s. rw (read_loop, take_next_daemon_frame, newline_index-line p s line, large),
    )

take_next-blank :
    (trimmed : List ℕ → List ℕ) (p s : List ℕ)
    → IsLine p
    → is_blank trimmed p ≡ true
    → length p ≤ max_message_bytes
    → take_next_daemon_frame trimmed (p ++ 10 ∷ s)
      ≡ (record { status = empty_frame; payload = [] }, s)
unfolding take_next_daemon_frame
take_next-blank trimmed p s line blank few =
    let small : ltb max_message_bytes (length p) ≡ false = ground arith in
    rw (
      take_next_daemon_frame,
      newline_index-line p s line,
      small,
      take-line p (10 ∷ s),
      drop-line p s,
      blank,
    )

loop-blank :
    (trimmed : List ℕ → List ℕ) (fuel : ℕ) (p s unread : List ℕ)
    → IsLine p
    → is_blank trimmed p ≡ true
    → length p ≤ max_message_bytes
    → read_loop trimmed (suc fuel) (p ++ 10 ∷ s) unread ≡ read_loop trimmed fuel s unread
unfolding read_loop
loop-blank trimmed fuel p s unread line blank few =
    let taken = take_next-blank trimmed p s line blank few in rw (read_loop, taken, taken)

le-cases : (a b : ℕ) → (a ≤ b) ⊎ (b < a)
le-cases a b = ground arith

loop-IsStopped :
    (trimmed : List ℕ → List ℕ) (fuel : ℕ) (buffer unread : List ℕ)
    → 2 * length unread + length buffer < fuel
    → IsStopped (read_loop trimmed fuel buffer unread).1
unfolding IsStopped
loop-IsStopped trimmed zero buffer unread enough = absurd (omega arith)
loop-IsStopped trimmed (suc fuel) buffer unread enough =
    let Ends : List (List ℕ) × Ending → Type 0 = λ x. IsStopped x.1 in
    elim (split_at_newline buffer) [
      | inl line ↦ elim (le-cases (length buffer) max_message_bytes) [
        | inr over ↦ subst Ends (sym (loop-oversized trimmed fuel buffer unread line over).0) tt
        | inl few ↦ elim (Nil-cases unread) [
          | inl nothing ↦
              subst Ends
                (sym (
                  ap (read_loop trimmed (suc fuel) buffer) nothing
                  ∙ loop-wait trimmed fuel buffer line few))
                (line, few, refl)
          | inr more ↦
              subst Ends (sym (loop-read trimmed fuel buffer unread line few more))
                (loop-IsStopped trimmed fuel _ _ (moved-less buffer unread fuel few more enough))
        ]
      ]
      | inr (p, s, line, split) ↦
          let less : 2 * length unread + length s < fuel =
            omega (arith, enough, ap length split, length-suffix p s) in
          let ih = loop-IsStopped trimmed fuel s unread less in
          subst (λ b. Ends (read_loop trimmed (suc fuel) b unread)) (sym split)
            (elim (le-cases (length p) max_message_bytes) [
              | inr over ↦
                  subst Ends (sym ((loop-oversized trimmed fuel p unread line over).1 s)) tt
              | inl few ↦ elim (Bool-cases (is_blank trimmed p)) [
                | inl blank ↦
                    subst Ends (sym (loop-blank trimmed fuel p s unread line blank few)) ih
                | inr full ↦
                    subst Ends (sym (loop-message trimmed fuel p s unread line full few)) ih
              ]
            ])
    ]

-- Whatever a client sends, the loop ends, and then the client is disconnected, or every byte has been
-- read and the buffer holds one unfinished line within the limit.
pub handle_ready_read-IsStopped :
    (trimmed : List ℕ → List ℕ) (buffer unread : List ℕ)
    → IsStopped (handle_ready_read trimmed buffer unread).1
unfolding handle_ready_read
handle_ready_read-IsStopped trimmed buffer unread =
    loop-IsStopped trimmed (suc (2 * length unread + length buffer)) buffer unread (omega arith)
