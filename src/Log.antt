-- ===== src/Log.antt =====
-- core/ActivityLog.h and core/ActivityLog.cpp: the bounded activity log. An entry is kept as its
-- level, category and text; the timestamp and the layout of a line, the mirror on the console and the
-- signal to the interface are not modelled. `QString::trimmed` is Qt's: the record of a log carries it,
-- so that the callers need not pass it, and it is `none` where nothing is left of a text.
pub mod Laws
pub mod Examples
use luma_core.Prelude.{ℕ, ◌-◌, Option, none, some, List, [], ◌∷◌, ◌++◌, length, drop}
use luma_core.Text.{codes}
use luma_core.Message.{Message}

pub data LogLevel : Type 0 where
  debug info warning error : LogLevel

pub data LogCategory : Type 0 where
  system device zone effect profile permission backend : LogCategory

pub record LogEntry : Type 0 where
  pub level : LogLevel
  pub category : LogCategory
  pub message : Message

pub record ActivityLog : Type 0 where
  pub lines : List LogEntry
  pub max_line_count : ℕ
  pub trimmed : Message → Option Message

abbrev pub max_stored_lines : ℕ
max_stored_lines = 500

abbrev pub new_log : (Message → Option Message) → ActivityLog
new_log trimmed = record { lines = []; max_line_count = max_stored_lines; trimmed = trimmed }

-- `while (size > max) removeFirst()`: the rounds are as many as lines are too many.
unfoldable pub trim : ℕ → List LogEntry → List LogEntry
trim max lines = drop (length lines - max) lines

unfoldable pub log : ActivityLog → LogLevel → LogCategory → Message → ActivityLog
unfolding trim
log l level category message = elim (l.trimmed message) [
  | none ↦ l
  | some text ↦ record l {
    lines =
        trim l.max_line_count
          (l.lines ++ (record { level = level; category = category; message = text } ∷ []));
  }
]

abbrev pub log_info : ActivityLog → LogCategory → Message → ActivityLog
log_info l category message = log l info category message

abbrev pub log_warning : ActivityLog → LogCategory → Message → ActivityLog
log_warning l category message = log l warning category message

abbrev pub log_error : ActivityLog → LogCategory → Message → ActivityLog
log_error l category message = log l error category message

unfoldable pub log_level_to_string : LogLevel → List ℕ
log_level_to_string debug = codes "DBG"
log_level_to_string info = codes "INF"
log_level_to_string warning = codes "WRN"
log_level_to_string error = codes "ERR"

unfoldable pub log_category_to_string : LogCategory → List ℕ
log_category_to_string system = codes "System"
log_category_to_string device = codes "Device"
log_category_to_string zone = codes "Zone"
log_category_to_string effect = codes "Effect"
log_category_to_string profile = codes "Profile"
log_category_to_string permission = codes "Permission"
log_category_to_string backend = codes "Backend"
