-- ===== src/Permission/Examples.antt =====
-- The theorems on the gates at a concrete device.
use luma_core.Prelude.{Bool, true, false, ◌≡◌, ◌↔◌, ◌⊎◌}
use luma_core.Text.{codes}
use luma_core.Message.{blank, format, end}
use luma_core.Log.{new_log}
use luma_core.Log.Examples.{drop_spaces}
use luma_core.Permission.{
  BackendCapability, zone_color_write, zone_effect_write, Guarded, PermissionResult, granted,
  requires_confirmation, check_write, check_any_write, write_requires_confirmation,
  write_allowed_or_confirmable,
}
use luma_core.Permission.Gate.{evaluate}
use luma_core.Permission.Laws.{Permits, evaluate_applies_iff, check_any_write_iff, Asks, Grants}

abbrev answers : BackendCapability → PermissionResult
answers zone_color_write = record { status = requires_confirmation; reason = format "Confirm." end }
answers _ = record { status = granted; reason = blank }

abbrev board : Guarded
board = record {
  name = codes "Board";
  capabilities = record { can_discover = true; can_write_color = true; can_write_effect = false };
  check_runtime_permission = answers;
}

abbrev decided : Bool → Bool → Bool
decided dry_run confirmed =
    (evaluate dry_run board zone_color_write (new_log drop_spaces) blank confirmed).0.apply_write

-- A confirmed write on a device that asks is applied.
evaluate_applies_iff_example :
    (decided false true ≡ true)
    ↔ ((false ≡ false) × Permits (check_write board zone_color_write) true)
evaluate_applies_iff_example =
    evaluate_applies_iff false board zone_color_write (new_log drop_spaces) blank true

check_any_write_iff_example :
    (((check_any_write board).status ≡ requires_confirmation)
      ↔ (Asks board zone_color_write ⊎ Asks board zone_effect_write))
    × ((write_requires_confirmation board ≡ true)
        ↔ (Asks board zone_color_write ⊎ Asks board zone_effect_write))
    × ((write_allowed_or_confirmable board ≡ true) ↔ (
        Grants board zone_color_write
        ⊎ Asks board zone_color_write
        ⊎ Grants board zone_effect_write
        ⊎ Asks board zone_effect_write))
check_any_write_iff_example = check_any_write_iff board
