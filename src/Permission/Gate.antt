-- ===== src/Permission/Gate.antt =====
-- core/WriteGate.h and core/WriteGate.cpp: the decision whether a write is applied, only logged, or
-- refused. The activity log is passed in and out.
use luma_core.Prelude.{Bool, true, false, not, if◌then◌else◌}
use luma_core.Message.{Message, format, end, txt, sub, is_empty}
use luma_core.Log.{ActivityLog, permission, backend, log_info, log_warning}
use luma_core.Permission.{
  BackendCapability, PermissionResult, Guarded, check_write, is_granted, needs_confirmation,
  backend_capability_to_string,
}

pub record Outcome : Type 0 where
  pub apply_write : Bool
  pub report_success : Bool

abbrev pub refused : Outcome
refused = record { apply_write = false; report_success = false }

abbrev pub only_logged : Outcome
only_logged = record { apply_write = false; report_success = true }

abbrev pub applied : Outcome
applied = record { apply_write = true; report_success = true }

-- The text of the warning about a missing confirmation.
abbrev pub confirmation_text : Guarded → BackendCapability → PermissionResult → Message
confirmation_text device operation p =
    if is_empty p.reason
    then format "%1 requires confirmation before %2."
        (txt device.name (txt (backend_capability_to_string operation) end))
    else p.reason

abbrev pub log_dry_run : ActivityLog → Message → ActivityLog
log_dry_run l summary = log_info l backend (format "[DRY-RUN] %1" (sub summary end))

unfoldable pub evaluate :
    Bool → Guarded → BackendCapability → ActivityLog → Message → Bool → Outcome × ActivityLog
evaluate dry_run device operation l summary confirmed =
    let p = check_write device operation in
    let warned = log_warning l permission (confirmation_text device operation p) in
    if needs_confirmation p
    then if confirmed
      then if dry_run then (only_logged, log_dry_run warned summary) else (applied, l)
      else if dry_run
      then (only_logged, log_dry_run warned summary)
      else (refused, warned)
    else if not (is_granted p)
    then (refused, log_warning l permission p.reason)
    else if dry_run
    then (only_logged, log_dry_run l summary)
    else (applied, l)
