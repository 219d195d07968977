-- ===== src/Log/Examples.antt =====
-- A way to trim texts, and the theorem on the log at a concrete history.
use Prim.Native.Char.{code}
use luma_core.Prelude.{
  ◌≤◌, ◌≡◌, [], ◌∷◌, arith, length, String, Option, none, some, if◌then◌else◌, ◌==◌,
}
use luma_core.Message.{Message, blank, Args, format, end}
use luma_core.Log.{ActivityLog, LogEntry, info, warning, zone, device}
use luma_core.Log.Laws.{log_all, spoken, log_all-keeps_latest}

-- The spaces in front of a text, which is enough for the texts below.
abbrev unspaced : String → Args → Option Message
unspaced String.[] args = none
unspaced (String.◌∷◌ c s) args =
    let rest = unspaced s args in if code c == 32 then rest else some (format (String.◌∷◌ c s) args)

abbrev pub drop_spaces : Message → Option Message
drop_spaces blank = none
drop_spaces (format s args) = unspaced s args

abbrev found : LogEntry
found = record { level = info; category = device; message = format "Found a device." end }

abbrev painted : LogEntry
painted = record { level = warning; category = zone; message = format "Painted." end }

abbrev spaced : LogEntry
spaced = record { level = warning; category = zone; message = format "  Painted." end }

abbrev silent : LogEntry
silent = record { level = info; category = zone; message = format "   " end }

abbrev two_lines : ActivityLog
two_lines = record { lines = found ∷ []; max_line_count = 2; trimmed = drop_spaces }

log_all-keeps_latest_example :
    ((log_all two_lines (silent ∷ spaced ∷ found ∷ [])).lines ≡ painted ∷ found ∷ [])
    × (length (log_all two_lines (silent ∷ spaced ∷ found ∷ [])).lines ≤ 2)
    × ((log_all two_lines (silent ∷ spaced ∷ found ∷ [])).max_line_count ≡ 2)
unfolding spoken
log_all-keeps_latest_example =
    log_all-keeps_latest two_lines (silent ∷ spaced ∷ found ∷ []) (omega arith)
