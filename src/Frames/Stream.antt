-- ===== src/Frames/Stream.antt =====
-- The read loop of the server on a stream of messages.
use mathlib.Core.List.{append_assoc, append-nil}
use luma_core.Prelude.{
  ℕ, zero, suc, ◌+◌, ◌-◌, ◌*◌, ◌≤◌, ◌<◌, ◌≡◌, refl, ap, ◌∙◌, sym, ◌⊎◌, inl, inr, true, false, List,
  [], ◌∷◌, ◌++◌, ltb, arith, length, take, drop, length-append, length-take, length-drop,
  take-append-drop, subst,
}
use luma_core.Frames.{
  is_blank, take_next_daemon_frame, daemon_frame_read_capacity, max_message_bytes, max_frame_bytes,
  read_loop, handle_ready_read, waiting, complete_frame,
}
use luma_core.Frames.Split.{
  IsLine, newline_index-line, newline_index-none, split_at_newline, line_unique, line-le, not-line,
  take-line, drop-line,
}

-- What a sender writes: each message with a newline behind it.
unfoldable pub encode : List (List ℕ) → List ℕ
encode [] = []
encode (m ∷ ms) = m ++ 10 ∷ encode ms

-- Messages that fit: no newline in them, not blank, and not above the limit.
unfoldable pub AreMessages : (List ℕ → List ℕ) → List (List ℕ) → Type 0
AreMessages trimmed [] = Unit
AreMessages trimmed (m ∷ ms) =
    IsLine m
    × (is_blank trimmed m ≡ false)
    × (length m ≤ max_message_bytes)
    × AreMessages trimmed ms

-- A complete message at the front of the buffer is taken, with its newline, and nothing else.
pub take_next-message :
    (trimmed : List ℕ → List ℕ) (m s : List ℕ)
    → IsLine m
    → is_blank trimmed m ≡ false
    → length m ≤ max_message_bytes
    → take_next_daemon_frame trimmed (m ++ 10 ∷ s)
      ≡ (record { status = complete_frame; payload = m }, s)
unfolding take_next_daemon_frame
take_next-message trimmed m s line full few =
    let small : ltb max_message_bytes (length m) ≡ false = ground arith in
    rw (
      take_next_daemon_frame,
      newline_index-line m s line,
      small,
      take-line m (10 ∷ s),
      drop-line m s,
      full,
    )

-- One message at the front of the buffer.
pub loop-message :
    (trimmed : List ℕ → List ℕ) (fuel : ℕ) (m s unread : List ℕ)
    → IsLine m
    → is_blank trimmed m ≡ false
    → length m ≤ max_message_bytes
    → read_loop trimmed (suc fuel) (m ++ 10 ∷ s) unread
      ≡ (m ∷ (read_loop trimmed fuel s unread).0, (read_loop trimmed fuel s unread).1)
unfolding read_loop
loop-message trimmed fuel m s unread line full few =
    let taken = take_next-message trimmed m s line full few in rw (read_loop, taken, taken)

-- A line in the buffer, and bytes to read.
pub loop-read :
    (trimmed : List ℕ → List ℕ) (fuel : ℕ) (buffer unread : List ℕ)
    → IsLine buffer
    → length buffer ≤ max_message_bytes
    → 1 ≤ length unread
    → read_loop trimmed (suc fuel) buffer unread
      ≡ read_loop trimmed fuel
          (buffer ++ take (max_frame_bytes - length buffer) unread)
          (drop (max_frame_bytes - length buffer) unread)
unfolding read_loop take_next_daemon_frame daemon_frame_read_capacity
loop-read trimmed fuel buffer unread line few more =
    let small : ltb max_message_bytes (length buffer) ≡ false = ground arith in
    let some_bytes : ltb 0 (length unread) ≡ true = ground arith in
    let capacity : ltb 0 (max_frame_bytes - length buffer) ≡ true = ground arith in
    rw (
      read_loop,
      take_next_daemon_frame,
      newline_index-none buffer line,
      small,
      daemon_frame_read_capacity,
      some_bytes,
      capacity,
    )

pub loop-wait :
    (trimmed : List ℕ → List ℕ) (fuel : ℕ) (buffer : List ℕ)
    → IsLine buffer
    → length buffer ≤ max_message_bytes
    → read_loop trimmed (suc fuel) buffer [] ≡ ([], waiting buffer [])
unfolding read_loop take_next_daemon_frame
loop-wait trimmed fuel buffer line few =
    let small : ltb max_message_bytes (length buffer) ≡ false = ground arith in
    rw (read_loop, take_next_daemon_frame, newline_index-none buffer line, small)

pub length-suffix : (m s : List ℕ) → length (m ++ 10 ∷ s) ≡ suc (length m + length s)
length-suffix m s = omega (arith, length-append m (10 ∷ s))

-- The bytes of a buffer that is a line are fewer than the limit, in front of messages that fit.
line-few :
    (trimmed : List ℕ → List ℕ) (ms : List (List ℕ)) (tail buffer unread : List ℕ)
    → AreMessages trimmed ms
    → IsLine tail
    → length tail ≤ max_message_bytes
    → IsLine buffer
    → buffer ++ unread ≡ encode ms ++ tail
    → length buffer ≤ max_message_bytes
unfolding AreMessages encode
line-few trimmed [] tail buffer unread fit end few line same =
    omega (arith, length-append buffer unread, ap length same, few)
line-few trimmed (m ∷ ms) tail buffer unread fit end few line same =
    let first =
      line-le buffer m unread (encode ms ++ tail) line
        (same ∙ append_assoc m (10 ∷ encode ms) tail) in
    omega (arith, first, fit.2)

-- The bytes that the socket gives and those that are left are the ones there were.
moved :
    (buffer unread : List ℕ) (n : ℕ) → (buffer ++ take n unread) ++ drop n unread ≡ buffer ++ unread
moved buffer unread n =
    append_assoc buffer (take n unread) (drop n unread)
    ∙ ap (◌++◌ buffer) (take-append-drop n unread)

pub Nil-cases : (bs : List ℕ) → (bs ≡ []) ⊎ (1 ≤ length bs)
Nil-cases [] = inl refl
Nil-cases (b ∷ bs) = inr (omega arith)

-- A line with a newline, at the front of messages, is the first of them.
first-message :
    (trimmed : List ℕ → List ℕ) (ms : List (List ℕ)) (tail p s unread : List ℕ)
    → AreMessages trimmed ms
    → IsLine tail
    → IsLine p
    → (p ++ 10 ∷ s) ++ unread ≡ encode ms ++ tail
    → (m : List ℕ) × (rest : List (List ℕ)) × (ms ≡ m ∷ rest)
      × (p ≡ m)
      × (s ++ unread ≡ encode rest ++ tail)
unfolding AreMessages encode
first-message trimmed [] tail p s unread fit end line same =
    not-line p (s ++ unread) (subst IsLine (sym (sym (append_assoc p (10 ∷ s) unread) ∙ same)) end)
first-message trimmed (m ∷ rest) tail p s unread fit end line same =
    let (first, others) =
      line_unique p m (s ++ unread) (encode rest ++ tail) line fit.0
        (sym (append_assoc p (10 ∷ s) unread) ∙ same ∙ append_assoc m (10 ∷ encode rest) tail) in
    (m, rest, refl, first, others)

-- Without a newline there is no message.
line-alone :
    (trimmed : List ℕ → List ℕ) (ms : List (List ℕ)) (tail buffer : List ℕ)
    → AreMessages trimmed ms
    → IsLine buffer
    → buffer ≡ encode ms ++ tail
    → (ms ≡ []) × (buffer ≡ tail)
unfolding AreMessages encode
line-alone trimmed [] tail buffer fit line same = (refl, same)
line-alone trimmed (m ∷ ms) tail buffer fit line same =
    not-line m (encode ms ++ tail) (subst IsLine (same ∙ append_assoc m (10 ∷ encode ms) tail) line)

pub moved-less :
    (buffer unread : List ℕ) (fuel : ℕ)
    → length buffer ≤ max_message_bytes
    → 1 ≤ length unread
    → 2 * length unread + length buffer < suc fuel
    → 2 * length (drop (max_frame_bytes - length buffer) unread)
        + length (buffer ++ take (max_frame_bytes - length buffer) unread)
      < fuel
moved-less buffer unread fuel small more enough =
    let n = max_frame_bytes - length buffer in
    omega (arith, length-append buffer (take n unread), length-take n unread, length-drop n unread)

ReadsAs : (List ℕ → List ℕ) → ℕ → List ℕ → List ℕ → List (List ℕ) → List ℕ → Type 0
ReadsAs trimmed fuel buffer unread ms tail =
    read_loop trimmed fuel buffer unread ≡ (ms, waiting tail [])

read_loop_lem :
    (trimmed : List ℕ → List ℕ) (fuel : ℕ) (ms : List (List ℕ)) (tail buffer unread : List ℕ)
    → AreMessages trimmed ms
    → IsLine tail
    → length tail ≤ max_message_bytes
    → buffer ++ unread ≡ encode ms ++ tail
    → 2 * length unread + length buffer < fuel
    → ReadsAs trimmed fuel buffer unread ms tail
unfolding ReadsAs AreMessages encode
read_loop_lem trimmed zero ms tail buffer unread fit end few same enough = absurd (omega arith)
read_loop_lem trimmed (suc fuel) ms tail buffer unread fit end few same enough =
    elim (split_at_newline buffer) [
      | inr (p, s, line, split) ↦
          let (m, rest, first, front, others) =
            first-message trimmed ms tail p s unread fit end line
              (ap (λ b. b ++ unread) (sym split) ∙ same) in
          let fits : AreMessages trimmed (m ∷ rest) = subst (AreMessages trimmed) first fit in
          let buffer_eq : buffer ≡ m ++ 10 ∷ s = split ∙ ap (λ b. b ++ 10 ∷ s) front in
          let less : 2 * length unread + length s < fuel =
            omega (arith, enough, ap length buffer_eq, length-suffix m s) in
          let ih = read_loop_lem trimmed fuel rest tail s unread fits.3 end few others less in
          ap (λ b. read_loop trimmed (suc fuel) b unread) buffer_eq
          ∙ loop-message trimmed fuel m s unread fits.0 fits.1 fits.2
          ∙ ap (λ r. (m ∷ r.0, r.1)) ih
          ∙ ap (λ x. (x, waiting tail [])) (sym first)
      | inl line ↦
          let small = line-few trimmed ms tail buffer unread fit end few line same in
          elim (Nil-cases unread) [
            | inl nothing ↦
                let (none_left, all) =
                  line-alone trimmed ms tail buffer fit line
                    (sym (append-nil buffer) ∙ ap (◌++◌ buffer) (sym nothing) ∙ same) in
                ap (read_loop trimmed (suc fuel) buffer) nothing
                ∙ loop-wait trimmed fuel buffer line small
                ∙ ap (λ x. ([], waiting x [])) all
                ∙ ap (λ x. (x, waiting tail [])) (sym none_left)
            | inr more ↦
                let n = max_frame_bytes - length buffer in
                loop-read trimmed fuel buffer unread line small more
                ∙ read_loop_lem trimmed fuel ms tail (buffer ++ take n unread) (drop n unread) fit
                    end few (moved buffer unread n ∙ same)
                    (moved-less buffer unread fuel small more enough)
          ]
    ]

-- For messages without a newline, not blank and within the limit, and a rest without a newline and
-- within the limit: however their bytes are divided between the buffer and the socket, the loop stops,
-- hands on the messages, each once and in their order, and waits with the rest.
pub handle_ready_read-encode :
    (trimmed : List ℕ → List ℕ) (ms : List (List ℕ)) (tail buffer unread : List ℕ)
    → AreMessages trimmed ms
    → IsLine tail
    → length tail ≤ max_message_bytes
    → buffer ++ unread ≡ encode ms ++ tail
    → handle_ready_read trimmed buffer unread ≡ (ms, waiting tail [])
unfolding handle_ready_read ReadsAs
handle_ready_read-encode trimmed ms tail buffer unread fit end few same =
    read_loop_lem trimmed (suc (2 * length unread + length buffer)) ms tail buffer unread fit end
      few same (omega arith)
