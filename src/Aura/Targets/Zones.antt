-- ===== src/Aura/Targets/Zones.antt =====
-- AsusAuraHidProtocol.cpp, `resolveEffectTarget`: which zones resolve.
use luma_core.Prelude.{
  ℕ, ◌-◌, ◌≤◌, ◌<◌, ◌≡◌, ◌∙◌, ◌⊎◌, inl, inr, ◌↔◌, arith, none, some, ltb, false, sym,
}
use luma_core.Aura.{AsusAuraConfigTable}
use luma_core.Aura.Config.{
  Target, addressable_channels_of, fixed_exposed_zone_count, exposed_zone_count,
  resolve_addressable, resolve_effect_target,
}
use luma_core.Aura.Ready.{WriteReady}
use luma_core.Aura.Targets.{resolve-Resolved, resolve-late, get_elem?-ge}

ltb-cases : (a b : ℕ) → (a < b) ⊎ (b ≤ a)
ltb-cases a b = ground arith

none-some : {t : Target} {X : Type 0} → none ≡ some t → X
none-some e = cc

resolve-beyond :
    (config : AsusAuraConfigTable) (zone : ℕ)
    → exposed_zone_count config ≤ zone
    → resolve_effect_target config zone ≡ none
unfolding exposed_zone_count resolve_addressable
resolve-beyond config zone beyond =
    let test : ltb zone (fixed_exposed_zone_count config) ≡ false = ground arith in
    let missing =
      get_elem?-ge (addressable_channels_of config.channels)
        (zone - fixed_exposed_zone_count config) (omega arith) in
    resolve-late config zone (omega arith) ∙ rw (test, missing)

-- In a `WriteReady` table a zone resolves exactly where it is one of those that `exposedZoneCount`
-- counts.
pub resolve_effect_target_iff :
    (config : AsusAuraConfigTable) (zone : ℕ)
    → WriteReady config
    → (zone < exposed_zone_count config)
      ↔ ((t : Target) × (resolve_effect_target config zone ≡ some t))
resolve_effect_target_iff config zone w = (
  (λ less. let (t, e, _) = resolve-Resolved config zone w.channels less in (t, e)),
  λ found. elim (ltb-cases zone (exposed_zone_count config)) [
    | inl less ↦ less
    | inr beyond ↦ none-some (sym (resolve-beyond config zone beyond) ∙ found.1)
  ],
)
