-- ===== src/Permission/Laws.antt =====
-- What the gates promise.
use luma_core.Prelude.{Bool, true, false, ◌≡◌, ◌↔◌, ◌⊎◌, ◌≢◌, arith}
use luma_core.Message.{Message}
use luma_core.Log.{ActivityLog}
use luma_core.Permission.{
  BackendCapability, no_capability, discovery_read, zone_color_write, zone_effect_write,
  PermissionResult, granted, requires_confirmation, Guarded, test_flag, check_write,
  check_any_write, write_allowed_or_confirmable, write_requires_confirmation,
}
use luma_core.Permission.Gate.{evaluate}

abbrev pub Permits : PermissionResult → Bool → Type 0
Permits p confirmed =
    (p.status ≡ granted) ⊎ ((p.status ≡ requires_confirmation) × (confirmed ≡ true))

-- The gate applies a write exactly if dry-run is off and the permission is granted outright, or asks
-- for a confirmation that is given.
pub evaluate_applies_iff :
    (dry_run : Bool) (d : Guarded) (op : BackendCapability) (l : ActivityLog) (m : Message)
    (confirmed : Bool)
    → ((evaluate dry_run d op l m confirmed).0.apply_write ≡ true)
      ↔ ((dry_run ≡ false) × Permits (check_write d op) confirmed)
unfolding evaluate
evaluate_applies_iff dry_run d op l m confirmed = (ground arith, ground arith)

-- The gate reports success exactly for a write that it applies and, under dry-run, for one whose
-- permission is granted or asks for a confirmation, given or not; under dry-run it applies none.
pub evaluate_reports_iff :
    (dry_run : Bool) (d : Guarded) (op : BackendCapability) (l : ActivityLog) (m : Message)
    (confirmed : Bool)
    → let out = (evaluate dry_run d op l m confirmed).0 in
      ((out.report_success ≡ true)
        ↔ ((out.apply_write ≡ true) ⊎ ((dry_run ≡ true) × Permits (check_write d op) true)))
      × (((out.report_success ≡ true) × (out.apply_write ≡ false))
          ↔ ((dry_run ≡ true) × Permits (check_write d op) true))
unfolding evaluate
evaluate_reports_iff dry_run d op l m confirmed =
    ((ground arith, ground arith), (ground arith, ground arith))

-- A permission other than a refusal comes only for an operation that the device declares, and then
-- it is the device's own answer.
pub check_write-declared :
    (d : Guarded) (op : BackendCapability)
    → ((check_write d op).status ≡ granted) ⊎ ((check_write d op).status ≡ requires_confirmation)
    → (op ≢ no_capability)
      × (test_flag d.capabilities op ≡ true)
      × (check_write d op ≡ d.check_runtime_permission op)
unfolding check_write
check_write-declared d no_capability h = ground arith
check_write-declared d discovery_read h = ground arith
check_write-declared d zone_color_write h = ground arith
check_write-declared d zone_effect_write h = ground arith

abbrev pub Asks : Guarded → BackendCapability → Type 0
Asks d op = (check_write d op).status ≡ requires_confirmation

abbrev pub Grants : Guarded → BackendCapability → Type 0
Grants d op = (check_write d op).status ≡ granted

-- `check_any_write` asks for a confirmation exactly if one of the two kinds of writes does, which is
-- also when `write_requires_confirmation` holds; and it allows writes, at once or after a
-- confirmation, exactly if one of the two kinds is granted or asks.
pub check_any_write_iff :
    (d : Guarded)
    → (((check_any_write d).status ≡ requires_confirmation)
        ↔ (Asks d zone_color_write ⊎ Asks d zone_effect_write))
      × ((write_requires_confirmation d ≡ true)
          ↔ (Asks d zone_color_write ⊎ Asks d zone_effect_write))
      × ((write_allowed_or_confirmable d ≡ true) ↔ (
          Grants d zone_color_write
          ⊎ Asks d zone_color_write
          ⊎ Grants d zone_effect_write
          ⊎ Asks d zone_effect_write))
unfolding check_any_write write_requires_confirmation write_allowed_or_confirmable check_write
    test_flag
check_any_write_iff d =
    ((ground arith, ground arith), (ground arith, ground arith), (ground arith, ground arith))
