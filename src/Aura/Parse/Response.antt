-- ===== src/Aura/Parse/Response.antt =====
-- Which responses to a config request the parser accepts, and that what it accepts is ready.
use luma_core.Prelude.{
  ℕ, zero, suc, ◌+◌, ◌≤◌, ◌<◌, ◌≡◌, refl, ap, ◌∙◌, ◌⊎◌, inl, inr, ◌↔◌, ℤ, pos, true, List, [], ◌∷◌,
  some, arith, length, Option-cases, sym, take, drop, min, ◌-◌, subst, ◌-◌,
}
use luma_core.Aura.{AsusAuraConfigTable}
use luma_core.Aura.Config.{is_write_ready, addressable_channels_of}
use luma_core.Aura.Ready.{count_fixed, WriteReady}
use luma_core.Aura.Ready.Complete.{is_write_ready_iff}
use luma_core.Aura.Parse.{
  table_of_counts, invalid_config_table, parse_config_table_response, prefix_index, byte_at, drop,
  take, min,
}
use luma_core.Aura.Parse.Accept.{
  CountsOk, normalized, normalized-le, built-WriteReady, table_of_counts-built,
  table_of_counts-valid,
}

byte_at-drop : (xs : List ℕ) (n i : ℕ) → byte_at (drop n xs) i ≡ byte_at xs (n + i)
byte_at-drop xs zero i = ap (byte_at xs) (omega arith)
byte_at-drop [] (suc n) i = refl
byte_at-drop (x ∷ xs) (suc n) i =
    byte_at-drop xs n i ∙ ap (byte_at (x ∷ xs)) {x = suc (n + i)} (omega arith)

byte_at-take : (xs : List ℕ) (n i : ℕ) → i < n → byte_at (take n xs) i ≡ byte_at xs i
byte_at-take xs zero i h = absurd (omega arith)
byte_at-take [] (suc n) i h = refl
byte_at-take (x ∷ xs) (suc n) zero h = refl
byte_at-take (x ∷ xs) (suc n) (suc i) h = byte_at-take xs n i (omega arith)

-- Where the prefix byte may stand.
abbrev pub StartsAt : List ℕ → ℕ → Type 0
StartsAt response p =
    ((p ≡ 0) × (byte_at response 0 ≡ 0xEC))
    ⊎ ((p ≡ 1) × (66 ≤ length response) × (byte_at response 0 ≡ 0) × (byte_at response 1 ≡ 0xEC))

-- The three counts of a response whose prefix stands at `p`.
abbrev pub counts_at : List ℕ → ℕ → ℕ × ℕ × ℕ
counts_at response p =
    (byte_at response (p + 6), byte_at response (p + 31), byte_at response (p + 33))

prefix_index-StartsAt :
    (response : List ℕ) (p : ℕ) → (prefix_index response ≡ some p) ↔ StartsAt response p
unfolding prefix_index
prefix_index-StartsAt response p = (ground arith, ground arith)

table_at :
    (response : List ℕ) (p i : ℕ)
    → 65 ≤ length response
    → p ≤ 1
    → i < 30
    → byte_at (take (min 60 (length response - (p + 4))) (drop (p + 4) response)) i
      ≡ byte_at response (p + 4 + i)
table_at response p i h k l =
    byte_at-take (drop (p + 4) response) (min 60 (length response - (p + 4))) i (omega arith)
    ∙ byte_at-drop response (p + 4) i

byte_of_table :
    (response : List ℕ) (p : ℕ)
    → 65 ≤ length response
    → p ≤ 1
    → let table = take (min 60 (length response - (p + 4))) (drop (p + 4) response) in
      (byte_at table 2 ≡ byte_at response (p + 6))
      × (byte_at table 27 ≡ byte_at response (p + 31))
      × (byte_at table 29 ≡ byte_at response (p + 33))
byte_of_table response p h k = (
  table_at response p 2 h k (omega arith) ∙ ap (byte_at response) (omega arith),
  table_at response p 27 h k (omega arith) ∙ ap (byte_at response) (omega arith),
  table_at response p 29 h k (omega arith) ∙ ap (byte_at response) (omega arith),
)

-- The parser behind its tests of the length and the start.
parse_at :
    (response : List ℕ) (p : ℕ)
    → 65 ≤ length response
    → StartsAt response p
    → byte_at response (p + 1) ≡ 0x30
    → parse_config_table_response response
      ≡ table_of_counts response
          (take (min 60 (length response - (p + 4))) (drop (p + 4) response))
          (byte_at response (p + 6))
          (byte_at response (p + 31))
          (byte_at response (p + 33))
unfolding parse_config_table_response
parse_at response p h st e =
    let start : p ≤ 1 = ground arith in
    ground (
      arith,
      (prefix_index-StartsAt response p).1 st,
      (byte_of_table response p h start).0,
      (byte_of_table response p h start).1,
      (byte_of_table response p h start).2,
    )

parse_valid :
    (response : List ℕ)
    → (parse_config_table_response response).valid ≡ true
    → (65 ≤ length response) × ((p : ℕ) × StartsAt response p × (byte_at response (p + 1) ≡ 0x30))
unfolding parse_config_table_response invalid_config_table
parse_valid response h = elim (Option-cases (prefix_index response)) [
  | inl missing ↦ ground arith
  | inr (p, found) ↦ (ground arith, (p, (prefix_index-StartsAt response p).0 found, ground arith))
]

-- The parser accepts a response exactly if it has at least 65 bytes, starts with EC 30 (possibly
-- behind a report number 0, if it is longer), and reports counts that the protocol can address: at
-- most 16 addressable headers, at most 3 fixed headers inside the 16-lamp mask after the
-- normalization, and something to control.
pub parse_valid_iff :
    (response : List ℕ)
    → ((parse_config_table_response response).valid ≡ true) ↔ (
        (65 ≤ length response)
        × ((p : ℕ) × StartsAt response p
            × (byte_at response (p + 1) ≡ 0x30)
            × CountsOk
                (byte_at response (p + 6))
                (byte_at response (p + 31))
                (normalized (byte_at response (p + 31)) (byte_at response (p + 33)))))
parse_valid_iff response = (accepted, accepts)
  where
    accepted :
        (parse_config_table_response response).valid ≡ true
        → (65 ≤ length response)
          × ((p : ℕ) × StartsAt response p
              × (byte_at response (p + 1) ≡ 0x30)
              × CountsOk
                  (byte_at response (p + 6))
                  (byte_at response (p + 31))
                  (normalized (byte_at response (p + 31)) (byte_at response (p + 33))))
    accepted h =
        let (long, start) = parse_valid response h in
        let (p, st, e) = start in
        (
          long,
          (
            p,
            st,
            e,
            table_of_counts-valid response _ _ _ _ (
                ap (λ (c : AsusAuraConfigTable). c.valid) (sym (parse_at response p long st e))
                ∙ h),
          ),
        )

    accepts :
        (65 ≤ length response)
          × ((p : ℕ) × StartsAt response p
              × (byte_at response (p + 1) ≡ 0x30)
              × CountsOk
                  (byte_at response (p + 6))
                  (byte_at response (p + 31))
                  (normalized (byte_at response (p + 31)) (byte_at response (p + 33))))
        → (parse_config_table_response response).valid ≡ true
    accepts (long, (p, st, e, o)) =
        rw (parse_at response p long st e, table_of_counts-built response _ _ _ _ o)

pos-injective : (a b : ℕ) → pos a ≡ pos b → a ≡ b
pos-injective a b h = ground arith

presence_at : (n b : ℕ) (z : ℤ) → z ≡ pos b → (n ≡ 0) ↔ (z ≡ pos 0) → (n ≡ 0) ↔ (b ≡ 0)
presence_at n b z e h = (λ k. pos-injective b 0 (sym e ∙ h.0 k), λ k. h.1 (e ∙ ap pos k))

-- A table that the parser marks valid passes the check that every packet builder makes, and it has
-- one addressable channel for each header that the response reports, behind at most one fixed one.
pub parse-WriteReady :
    (response : List ℕ)
    → (parse_config_table_response response).valid ≡ true
    → (is_write_ready (parse_config_table_response response) ≡ true)
      × ((p : ℕ) × StartsAt response p
          × (length (addressable_channels_of (parse_config_table_response response).channels)
              ≡ byte_at response (p + 6))
          × ((count_fixed (parse_config_table_response response).channels ≡ 0)
              ↔ (byte_at response (p + 31) ≡ 0)))
parse-WriteReady response h =
    let (long, start) = (parse_valid_iff response).0 h in
    let (p, st, e, o) = start in
    let parsed = parse_at response p long st e ∙ table_of_counts-built response _ _ _ _ o in
    let ready : WriteReady (parse_config_table_response response) =
      subst WriteReady (sym parsed) (built-WriteReady response _ _ _ _ _ (normalized-le _ _) o) in
    (
      (is_write_ready_iff _).1 ready,
      (
        p,
        st,
        pos-injective _ _
            (ready.headers ∙ ap (λ (c : AsusAuraConfigTable). c.addressable_header_count) parsed),
        presence_at _ _ _ (ap (λ (c : AsusAuraConfigTable). c.mainboard_led_count) parsed)
            ready.presence,
      ),
    )
