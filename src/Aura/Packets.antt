-- ===== src/Aura/Packets.antt =====
-- AsusAuraHidProtocol.cpp, "write serializers": for which inputs a packet is built.
pub mod Static
pub mod Mode
pub mod Native
pub mod Frame
use luma_core.Prelude.{
  ℕ, suc, ◌+◌, ◌≤◌, ◌<◌, ◌≡◌, refl, ap, ◌∙◌, ◌⊎◌, inl, inr, ◌↔◌, ℤ, pos, negsuc, ◌≤ℤ◌, index?,
  index?-pos, index?-some, Bool, true, false, arith, some, none, Option, subst, sym,
}
use luma_core.Message.{Message}
use luma_core.Aura.{
  AsusAuraConfigTable, ProtocolResult, ok, fail, is_ok, ◌>>=◌, >>=-is_ok, ok_of_is_ok,
  AsusAuraChannelType, addressable, >>=-eq-ok, AsusAuraHidPacket, List,
}
use luma_core.Aura.Config.{
  Target, validate_config, is_write_ready, validate_write_shape, validate_config_write_input,
  exposed_zone_count, resolve_effect_target,
}
use luma_core.Aura.Report.{Report}
use luma_core.Aura.Write.{find_target}
use luma_core.Aura.Ready.{Within, WriteReady}
use luma_core.Aura.Ready.Complete.{is_write_ready_iff}
use luma_core.Aura.Targets.{Resolved, resolve-Resolved}

-- What every approved write asks of its table, its zone and its numbers.
pub record Writable (config : AsusAuraConfigTable) (zone : ℕ) (led_count brightness : ℤ)
    : Type 0 where
  pub ready : WriteReady config
  pub exposed : zone < exposed_zone_count config
  pub lamps : Within 1 120 led_count
  pub level : Within 0 100 brightness

pub >>=-ok {ℓ κ} :
    {A : Type ℓ} {B : Type κ} (m : ProtocolResult A) (f : A → ProtocolResult B) (a : A)
    → m ≡ ok a
    → is_ok (f a) ≡ true
    → is_ok (m >>= f) ≡ true
>>=-ok m f a e h = rw e h

shape_iff :
    (led_count brightness : ℤ)
    → (validate_write_shape led_count brightness ≡ ok tt)
      ↔ (Within 1 120 led_count × Within 0 100 brightness)
unfolding validate_write_shape
shape_iff led_count brightness = ground arith

ready_iff :
    (config : AsusAuraConfigTable)
    → (validate_config config ≡ ok tt) ↔ (is_write_ready config ≡ true)
unfolding is_write_ready
ready_iff config = ground arith

picked :
    (o : Option ℕ) (error : Message) (i : ℕ)
    → elim o [ none ↦ fail error | some j ↦ ok j ] ≡ ok i
    → o ≡ some i
picked none error i e = cc
picked (some j) error i e = cc

-- The tests in front of every approved write pass exactly for a zone that is the number of an
-- exposed one, a table that is `WriteReady`, 1 to 120 lamps and a brightness from 0 to 100.
pub validate_config_write_input_iff :
    (config : AsusAuraConfigTable) (zone led_count brightness : ℤ) (i : ℕ)
    → (validate_config_write_input config zone led_count brightness ≡ ok i)
      ↔ ((zone ≡ pos i) × Writable config i led_count brightness)
unfolding validate_config_write_input
validate_config_write_input_iff config zone led_count brightness i = (
  (λ e.
      let (_, shape, e1) = >>=-eq-ok (validate_write_shape led_count brightness) _ e in
      let (_, ready, e2) = >>=-eq-ok (validate_config config) _ e1 in
      let (at, exposed) = index?-some zone (exposed_zone_count config) i (picked _ _ i e2) in
      let (lamps, level) = (shape_iff led_count brightness).0 shape in
      let w = (is_write_ready_iff config).0 ((ready_iff config).0 ready) in
      (at, record { ready = w; exposed = exposed; lamps = lamps; level = level })),
  λ (at, w).
      let ready = (ready_iff config).1 ((is_write_ready_iff config).1 w.ready) in
      let shape = (shape_iff led_count brightness).1 (w.lamps, w.level) in
      rw (shape, ready, at, index?-pos i (exposed_zone_count config) w.exposed),
)

-- The target of a zone that may be written to.
pub find_target-Resolved :
    (config : AsusAuraConfigTable) (zone : ℕ) (error : Message) {led_count brightness : ℤ}
    → Writable config zone led_count brightness
    → (t : Target) × (find_target config zone error ≡ ok t) × Resolved config zone t
unfolding find_target
find_target-Resolved config zone error w =
    let (t, e, right) = resolve-Resolved config zone w.ready.channels w.exposed in
    (t, rw (find_target, e), right)

ok-injective : {s t : Target} → ok s ≡ ok t → s ≡ t
ok-injective e = cc

pub found-Resolved :
    (config : AsusAuraConfigTable) (zone : ℕ) (error : Message) (t : Target)
    {led_count brightness : ℤ}
    → Writable config zone led_count brightness
    → find_target config zone error ≡ ok t
    → Resolved config zone t
found-Resolved config zone error t w found =
    let (_, e, right) = find_target-Resolved config zone error w in
    subst (Resolved config zone) (ok-injective (sym e ∙ found)) right

-- The reports that a result hands to the transport.
unfoldable pub sent : ProtocolResult AsusAuraHidPacket → Option (List Report)
sent (ok p) = some p.reports
sent (fail _) = none

pub sent-is_ok :
    {reports : List Report} (m : ProtocolResult AsusAuraHidPacket)
    → sent m ≡ some reports
    → is_ok m ≡ true
unfolding sent
sent-is_ok (ok p) e = refl
sent-is_ok (fail _) e = cc

pub ready_iff_ok :
    (config : AsusAuraConfigTable) → (validate_config config ≡ ok tt) ↔ WriteReady config
ready_iff_ok config = (
  λ e. (is_write_ready_iff config).0 ((ready_iff config).0 e),
  λ w. (ready_iff config).1 ((is_write_ready_iff config).1 w),
)
