-- ===== src/Permission.antt =====
-- core/BackendCapabilities.h, core/PermissionGate.h, core/PermissionGate.cpp, core/WriteGate.h and
-- core/WriteGate.cpp: which writes a device declares, which it permits now, and the gate that every
-- hardware write passes. The gates see a device through `Guarded`, the three methods that they call.
pub mod Gate
pub mod Laws
pub mod Examples
use mathlib.Core.List.{dec_mem, filter}
use luma_core.Prelude.{
  String, ℕ, List, [], ◌∷◌, ◌++◌, Bool, true, false, not, ◌&&◌, ◌||◌, if◌then◌else◌, Option, some,
  none,
}
use luma_core.Text.{codes}
use luma_core.Message.{Message, Args, blank, format, end, txt, sub, is_empty, Message-discrete}

pub data BackendCapability : Type 0 where
  no_capability discovery_read zone_color_write zone_effect_write : BackendCapability

-- `QFlags` of the three bits.
pub record BackendCapabilities : Type 0 where
  pub can_discover : Bool
  pub can_write_color : Bool
  pub can_write_effect : Bool

-- `QFlags::testFlag`; a flag of value 0 is set where no bit is.
unfoldable pub test_flag : BackendCapabilities → BackendCapability → Bool
test_flag c no_capability = not (c.can_discover || c.can_write_color || c.can_write_effect)
test_flag c discovery_read = c.can_discover
test_flag c zone_color_write = c.can_write_color
test_flag c zone_effect_write = c.can_write_effect

pub data PermissionStatus : Type 0 where
  granted denied requires_confirmation not_applicable : PermissionStatus

pub record PermissionResult : Type 0 where
  pub status : PermissionStatus
  pub reason : Message

abbrev pub is_granted : PermissionResult → Bool
is_granted p = elim (p.status) [ granted ↦ true | _ ↦ false ]

abbrev pub needs_confirmation : PermissionResult → Bool
needs_confirmation p = elim (p.status) [ requires_confirmation ↦ true | _ ↦ false ]

pub record Guarded : Type 0 where
  pub name : List ℕ
  pub capabilities : BackendCapabilities
  pub check_runtime_permission : BackendCapability → PermissionResult

unfoldable pub backend_capability_to_string : BackendCapability → List ℕ
backend_capability_to_string discovery_read = codes "DiscoveryRead"
backend_capability_to_string zone_color_write = codes "ZoneColorWrite"
backend_capability_to_string zone_effect_write = codes "ZoneEffectWrite"
backend_capability_to_string no_capability = codes "None"

unfoldable pub check_write : Guarded → BackendCapability → PermissionResult
check_write device no_capability = record {
  status = not_applicable;
  reason = format "No operation requested." end;
}
check_write device operation =
    if not (test_flag device.capabilities operation)
    then record {
      status = denied;
      reason =
          format "%1 does not support %2."
            (txt device.name (txt (backend_capability_to_string operation) end));
    }
    else device.check_runtime_permission operation

abbrev pub write_capabilities : List BackendCapability
write_capabilities = zone_color_write ∷ zone_effect_write ∷ []

-- The variables of the loop of `checkAnyWrite`; `early` is the permission that it returns at once.
pub record AnyWrite : Type 0 where
  pub saw_supported : Bool
  pub saw_granted : Bool
  pub denied_reasons : List Message
  pub early : Option PermissionResult

unfoldable pub any_write_loop : Guarded → List BackendCapability → AnyWrite → AnyWrite
any_write_loop device [] s = s
any_write_loop device (c ∷ cs) s =
    let skip = any_write_loop device cs s in
    let permission = check_write device c in
    let seen = record s { saw_supported = true } in
    let allow = any_write_loop device cs (record seen { saw_granted = true }) in
    let silent = any_write_loop device cs seen in
    let deny =
      any_write_loop device cs
        (record seen { denied_reasons = s.denied_reasons ++ (permission.reason ∷ []) }) in
    if not (test_flag device.capabilities c)
    then skip
    else if needs_confirmation permission
    then record seen { early = some permission }
    else if is_granted permission
    then allow
    else if is_empty permission.reason
    then silent
    else deny

abbrev without : Message → List Message → List Message
without m [] = []
without m (n ∷ ns) = elim (Message-discrete n m) [ yes _ ↦ without m ns | no _ ↦ n ∷ without m ns ]

-- `QStringList::removeDuplicates` keeps the first of equal texts.
unfoldable pub remove_duplicates : List Message → List Message
remove_duplicates [] = []
remove_duplicates (m ∷ ms) = m ∷ without m (remove_duplicates ms)

-- `QStringList::join`, with the template that puts the separator between two texts.
unfoldable pub join : String → List Message → Message
join between [] = blank
join between (m ∷ []) = m
join between (m ∷ n ∷ ms) = format between (sub m (sub (join between (n ∷ ms)) end))

unfoldable pub check_any_write : Guarded → PermissionResult
unfolding any_write_loop
check_any_write device =
    let s =
      any_write_loop device write_capabilities (record {
        saw_supported = false;
        saw_granted = false;
        denied_reasons = [];
        early = none;
      }) in
    let reasons = remove_duplicates s.denied_reasons in
    elim (s.early) [
      | some permission ↦ permission
      | none ↦
          if s.saw_granted
          then record {
            status = granted;
            reason = format "At least one RGB write operation is available." end;
          }
          else if not s.saw_supported
          then record {
            status = denied;
            reason = format "%1 does not support RGB writes." (txt device.name end);
          }
          else record {
            status = denied;
            reason = elim reasons [
              | [] ↦ format "%1 does not currently allow RGB writes." (txt device.name end)
              | m ∷ ms ↦ join "%1 %2" (m ∷ ms)
            ];
          }
    ]

unfoldable pub allows_write_or_confirmation : PermissionResult → Bool
allows_write_or_confirmation p = is_granted p || needs_confirmation p

unfoldable pub write_allowed_or_confirmable : Guarded → Bool
unfolding allows_write_or_confirmation
write_allowed_or_confirmable device = allows_write_or_confirmation (check_any_write device)

-- The loop of `writeRequiresConfirmation`.
unfoldable pub confirmation_loop : Guarded → List BackendCapability → Bool
confirmation_loop device [] = false
confirmation_loop device (c ∷ cs) =
    (test_flag device.capabilities c && needs_confirmation (check_write device c))
    || confirmation_loop device cs

unfoldable pub write_requires_confirmation : Guarded → Bool
unfolding confirmation_loop
write_requires_confirmation device = confirmation_loop device write_capabilities

unfoldable pub with_session_confirmation : PermissionResult → Bool → PermissionResult
with_session_confirmation permission write_confirmed =
    if write_confirmed && needs_confirmation permission
    then record {
      status = granted;
      reason = format "Hardware writes are confirmed for this daemon session." end;
    }
    else permission
