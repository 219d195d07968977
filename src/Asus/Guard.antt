-- ===== src/Asus/Guard.antt =====
-- AsusAuraHidDevice.cpp: the early returns in front of and behind a write, and what follows for their values.
use mathlib.Core.Bool.{false≢true}
use luma_core.Prelude.{◌≡◌, refl, sym, Bool, true, false, not, if◌then◌else◌}

-- A write behind one guard, and behind two, that is answered with `c` or `d` where it succeeds.
abbrev pub behind_one {ℓ} : {X : Type ℓ} → Bool → Bool → X → X → X → Bool × X
behind_one v s a b c = if not v then (false, a) else if not s then (false, b) else (true, c)

abbrev pub behind_two {ℓ} : {X : Type ℓ} → Bool → Bool → Bool → X → X → X → X → Bool × X
behind_two v w s a b c d = if not v then (false, a) else behind_one w s b c d

-- What holds of each value that comes with a failure holds of the value of a guarded write that fails.
pub behind_one_lem {ℓ κ} :
    {X : Type ℓ} (P : X → Type κ) (v s : Bool) (a b c : X)
    → P a
    → P b
    → (behind_one v s a b c).0 ≡ false
    → P (behind_one v s a b c).1
behind_one_lem P false s a b c pa pb h = pa
behind_one_lem P true false a b c pa pb h = pb
behind_one_lem P true true a b c pa pb h = cc

pub behind_two_lem {ℓ κ} :
    {X : Type ℓ} (P : X → Type κ) (v w s : Bool) (a b c d : X)
    → P a
    → P b
    → P c
    → (behind_two v w s a b c d).0 ≡ false
    → P (behind_two v w s a b c d).1
behind_two_lem P false w s a b c d pa pb pc h = pa
behind_two_lem P true w s a b c d pa pb pc h = behind_one_lem P w s b c d pb pc h

-- A guarded write that cannot succeed fails, and what holds of the values of its failures holds.
pub behind_one-stop {ℓ κ} :
    {X : Type ℓ} (P : X → Type κ) (v s : Bool) (a b c : X)
    → P a
    → (v ≡ true → (s ≡ false) × P b)
    → ((behind_one v s a b c).0 ≡ false) × P (behind_one v s a b c).1
behind_one-stop P false s a b c pa h = (refl, pa)
behind_one-stop P true true a b c pa h = absurd (false≢true (sym ((h refl).0)))
behind_one-stop P true false a b c pa h = (refl, (h refl).1)

pub behind_two-stop {ℓ κ} :
    {X : Type ℓ} (P : X → Type κ) (v w s : Bool) (a b c d : X)
    → P a
    → P b
    → w ≡ false
    → ((behind_two v w s a b c d).0 ≡ false) × P (behind_two v w s a b c d).1
behind_two-stop P false w s a b c d pa pb h = (refl, pa)
behind_two-stop P true false s a b c d pa pb h = (refl, pb)
behind_two-stop P true true s a b c d pa pb h = cc

-- A value behind guards has what each of the values has.
pub behind_one-all {ℓ κ} :
    {X : Type ℓ} (P : X → Type κ) (v s : Bool) (a b c : X)
    → P a
    → P b
    → P c
    → P (behind_one v s a b c).1
behind_one-all P false s a b c pa pb pc = pa
behind_one-all P true false a b c pa pb pc = pb
behind_one-all P true true a b c pa pb pc = pc

pub behind_two-all {ℓ κ} :
    {X : Type ℓ} (P : X → Type κ) (v w s : Bool) (a b c d : X)
    → P a
    → P b
    → P c
    → P d
    → P (behind_two v w s a b c d).1
behind_two-all P false w s a b c d pa pb pc pd = pa
behind_two-all P true w s a b c d pa pb pc pd = behind_one-all P w s b c d pb pc pd

-- Where every guard passes, the write decides.
pub behind_one-run {ℓ κ} :
    {X : Type ℓ} (P : X → Type κ) (v s : Bool) (a b c : X)
    → v ≡ true
    → P b
    → P c
    → ((behind_one v s a b c).0 ≡ s) × P (behind_one v s a b c).1
behind_one-run P true true a b c h pb pc = (refl, pc)
behind_one-run P true false a b c h pb pc = (refl, pb)
behind_one-run P false s a b c h pb pc = absurd (false≢true h)

pub behind_two-run {ℓ κ} :
    {X : Type ℓ} (P : X → Type κ) (v w s : Bool) (a b c d : X)
    → v ≡ true
    → w ≡ true
    → P c
    → P d
    → ((behind_two v w s a b c d).0 ≡ s) × P (behind_two v w s a b c d).1
behind_two-run P true w s a b c d h k pc pd = behind_one-run P w s b c d k pc pd
behind_two-run P false w s a b c d h k pc pd = absurd (false≢true h)
