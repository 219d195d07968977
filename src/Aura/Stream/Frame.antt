-- ===== src/Aura/Stream/Frame.antt =====
-- AsusAuraHidProtocol.cpp, `appendDirectColorReports`: what the stream of reports means to a reader.
use Prim.Native.Nat.{bit_or}
use luma_core.Prelude.{
  All, ==_iff, ℕ, zero, suc, ◌+◌, ◌-◌, ◌*◌, ◌≤◌, ◌<◌, ◌≡◌, refl, ap, ◌∙◌, sym, Bool, true, false,
  ◌&&◌, List, [], ◌∷◌, ◌++◌, if◌then◌else◌, ltb, ◌==◌, arith, length, length-append, length-take,
  length-drop, take, drop, drop-all, drop-drop, All-take, All-drop, replicate, min, get_or,
  Bool-cases, inl, inr, subst, take-append-drop, pos, length-replicate,
}
use luma_core.Color.{RgbColor, IsColor}
use luma_core.Aura.{ok}
use luma_core.Aura.Stream.{
  bytes_of, length-bytes_of, put_colors-payload, read_colors, read_colors-bytes_of,
}
use luma_core.Aura.Report.{
  Report, to_char, direct_report, direct_reports, append_direct_color_reports,
}

-- The decoder of a stream: each report's byte 4 says how many colours stand behind its header.
unfoldable pub decode : List Report → List RgbColor
decode [] = []
decode (r ∷ rs) = read_colors (get_or r 4 0) (drop 5 r) ++ decode rs

-- A stream on a channel whose reports are 65 bytes long, carry at most 20 of the `total` colours
-- each, start where the one before stopped, and have the apply flag on the last one only.
unfoldable pub IsFramed : ℕ → ℕ → ℕ → List Report → Type 0
IsFramed channel total offset [] = offset ≡ total
IsFramed channel total offset (r ∷ rs) =
    (length r ≡ 65)
    × (get_or r 2 0 ≡ (if offset + get_or r 4 0 == total then 128 else 0) + channel)
    × (get_or r 3 0 ≡ offset)
    × (1 ≤ get_or r 4 0)
    × (get_or r 4 0 ≤ 20)
    × IsFramed channel total (offset + get_or r 4 0) rs

check_below : ℕ → (ℕ → Bool) → Bool
check_below zero p = true
check_below (suc n) p = p n && check_below n p

and_left : (a b : Bool) → a && b ≡ true → a ≡ true
and_left true b h = refl
and_left false b h = h

and_right : (a b : Bool) → a && b ≡ true → b ≡ true
and_right true b h = h
and_right false b h = cc

check_below_lem : (n : ℕ) (p : ℕ → Bool) (k : ℕ) → check_below n p ≡ true → k < n → p k ≡ true
unfolding check_below
check_below_lem (suc n) p k h less = elim (Bool-cases (k == n)) [
  | inl e ↦
      subst (λ (i : ℕ). p i ≡ true) (sym ((==_iff k n).0 e)) (and_left (p n) (check_below n p) h)
  | inr e ↦ check_below_lem n p k (and_right (p n) (check_below n p) h) (ground arith)
]
check_below_lem zero p k h less = absurd (omega arith)

flag-on : (k : ℕ) → k < 16 → to_char (bit_or 128 k) ≡ 128 + k
unfolding check_below
flag-on k less =
    let same = check_below_lem 16 (λ i. to_char (bit_or 128 i) == 128 + i) k refl less in
    (==_iff (to_char (bit_or 128 k)) (128 + k)).0 same

flag-off : (k : ℕ) → k < 16 → to_char (bit_or 0 k) ≡ k
unfolding check_below
flag-off k less =
    let same = check_below_lem 16 (λ i. to_char (bit_or 0 i) == i) k refl less in
    (==_iff (to_char (bit_or 0 k)) k).0 same

flag_byte :
    (b : Bool) (k : ℕ)
    → k < 16
    → to_char (bit_or (if b then 0x80 else 0x00) k) ≡ (if b then 128 else 0) + k
flag_byte true k less = flag-on k less
flag_byte false k less = flag-off k less ∙ omega arith

to_char-small : (k : ℕ) → k < 256 → to_char k ≡ k
to_char-small k less = omega arith

-- The number of lamps in the report at an offset, and the bytes of that report.
abbrev carried : ℕ → List RgbColor → ℕ
carried offset colors = min 20 (length colors - offset)

direct_report_lem :
    (channel offset : ℕ) (colors : List RgbColor)
    → channel < 16
    → length colors ≤ 120
    → offset < length colors
    → All IsColor colors
    → direct_report channel offset colors
      ≡ 0xEC
        ∷ 0x40
        ∷ ((if offset + carried offset colors == length colors then 128 else 0) + channel)
        ∷ offset
        ∷ carried offset colors
        ∷ (bytes_of (take (carried offset colors) (drop offset colors))
            ++ replicate (60 - 3 * carried offset colors) 0)
unfolding direct_report
direct_report_lem channel offset colors low total less v =
    let n = carried offset colors in
    let part = take n (drop offset colors) in
    let size : length part ≡ n =
      length-take n (drop offset colors) ∙ ap (min n) (length-drop offset colors) ∙ omega arith in
    put_colors-payload 0xEC 0x40
      (to_char (bit_or (if offset + n == length colors then 0x80 else 0x00) channel))
      (to_char offset) (to_char n) part
      (All-take IsColor n (drop offset colors) (All-drop IsColor offset colors v))
      (omega (arith, size))
    ∙ rw (
      flag_byte (offset + n == length colors) channel low,
      to_char-small offset (omega arith),
      to_char-small n (omega arith),
      size,
    )

-- A report with `n` colours behind its header is 65 bytes long, and reads as those colours.
length-reported :
    (a b c d n : ℕ) (cs : List RgbColor)
    → length cs ≡ n
    → n ≤ 20
    → length (a ∷ b ∷ c ∷ d ∷ n ∷ (bytes_of cs ++ replicate (60 - 3 * n) 0)) ≡ 65
length-reported a b c d n cs size few =
    let zeros : List ℕ = replicate (60 - 3 * n) 0 in
    let rest : length zeros ≡ 60 - 3 * n = length-replicate (60 - 3 * n) 0 in
    omega (arith, length-append (bytes_of cs) zeros, length-bytes_of cs, rest, size, few)

read-reported :
    (n : ℕ) (cs : List RgbColor) (rest : List ℕ)
    → length cs ≡ n
    → read_colors n (bytes_of cs ++ rest) ≡ cs
read-reported n cs rest size =
    ap (λ (i : ℕ). read_colors i (bytes_of cs ++ rest)) (sym size) ∙ read_colors-bytes_of cs rest

length-part :
    (offset : ℕ) (colors : List RgbColor)
    → length (take (carried offset colors) (drop offset colors)) ≡ carried offset colors
length-part offset colors =
    length-take (carried offset colors) (drop offset colors)
    ∙ ap (min (carried offset colors)) (length-drop offset colors)
    ∙ omega arith

-- The loop with enough fuel leaves a well-framed stream of the colours that are left.
direct_reports_lem :
    (fuel channel offset : ℕ) (colors : List RgbColor)
    → channel < 16
    → length colors ≤ 120
    → offset ≤ length colors
    → length colors - offset ≤ fuel
    → All IsColor colors
    → IsFramed channel (length colors) offset (direct_reports fuel channel offset colors)
      × (decode (direct_reports fuel channel offset colors) ≡ drop offset colors)
unfolding direct_reports IsFramed decode
direct_reports_lem zero channel offset colors low total start enough v =
    (omega arith, sym (drop-all offset colors (omega arith)))
direct_reports_lem (suc fuel) channel offset colors low total start enough v =
    elim (Bool-cases (ltb offset (length colors))) [
      | inr stop ↦
          let same : offset ≡ length colors = ground arith in
          rw (stop) (same, sym (drop-all offset colors (omega arith)))
      | inl more ↦
          let less : offset < length colors = ground arith in
          let n = carried offset colors in
          let ih =
            direct_reports_lem fuel channel (offset + n) colors low total (omega arith)
              (omega arith) v in
          let part = take n (drop offset colors) in
          let size : length part ≡ n = length-part offset colors in
          rw (more, direct_report_lem channel offset colors low total less v)
            (
              (
                length-reported 0 0 0 0 n part size (omega arith),
                refl,
                refl,
                omega arith,
                omega arith,
                ih.0,
              ),
              ap
                    (λ (p : List RgbColor).
                      p ++ decode (direct_reports fuel channel (offset + n) colors))
                    (read-reported n part (replicate (60 - 3 * n) 0) size)
                  ∙ ap (λ (p : List RgbColor). part ++ p)
                      (ih.1 ∙ sym (drop-drop n offset (offset + n) colors refl))
                  ∙ take-append-drop n (drop offset colors),
            )
    ]

-- For a channel below 16 and 1 to 120 colours with components up to 255, the reports are appended; those
-- that come to the list are 65 bytes long, carry at most 20 colours each at contiguous offsets, name
-- the channel, have the apply flag on the last one only, and decode to the colours.
pub append_direct_color_reports-decode :
    (reports : List Report) (channel : ℕ) (colors : List RgbColor)
    → channel < 16
    → 1 ≤ length colors
    → length colors ≤ 120
    → All IsColor colors
    → (stream : List Report) × (append_direct_color_reports reports (pos channel) colors
        ≡ ok (reports ++ stream))
      × IsFramed channel (length colors) 0 stream
      × (decode stream ≡ colors)
unfolding append_direct_color_reports
append_direct_color_reports-decode reports channel colors low some_led few v =
    let stream = direct_reports (length colors) channel 0 colors in
    let right =
      direct_reports_lem (length colors) channel 0 colors low few (omega arith) (omega arith) v in
    (stream, ground arith, right.0, right.1)
