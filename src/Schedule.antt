-- ===== src/Schedule.antt =====
-- core/ScheduleTime.cpp, core/ScheduleService.h and core/ScheduleService.cpp: the profile that is applied
-- once a day. `QDateTime` is an interface, times of day are milliseconds, and dates are numbers; the
-- device manager is a state `M` with the two things that the service asks of it. What is written to the
-- settings is not modelled.
pub mod Laws
pub mod Fires
pub mod Examples
use luma_core.Prelude.{
  ℕ, ℤ, pos, pos_part, Bool, true, false, not, ◌&&◌, ◌||◌, List, [], ◌∷◌, Option, none, some,
  length, if◌then◌else◌, leb, ltb_ℤ, ◌==◌, min, max, ◌*◌, ltb,
}
use luma_core.Message.{Message, format, end, num, txt}

-- `QDateTime`: its date, its time of day, the one at a time of the same date, the order, the next day,
-- and the distance.
pub record Calendar (T : Type 0) : Type 0 where
  pub date : T → ℕ
  pub time : T → ℕ
  pub at_time : T → ℕ → T
  pub le : T → T → Bool
  pub add_day : T → T
  pub msecs_to : T → T → ℤ

-- What the service asks of the device manager: an entry in the log, and a profile to be applied, with
-- the number of zones for which that fails.
pub record Manager (M : Type 0) : Type 0 where
  pub log_profile : M → Message → M
  pub apply_profile_with_report : M → List ℕ → M × ℕ

pub record Config : Type 0 where
  pub enabled : Bool
  pub profile_name : List ℕ
  pub time : List ℕ

pub record ScheduleService : Type 0 where
  pub config : Config
  pub last_attempt_date : Option ℕ
  pub skip_missed_run : Bool
  -- The interval of the timer, where it runs.
  pub timer : Option ℕ

abbrev pub default_schedule_time : ℕ
default_schedule_time = 18 * 3600000

-- `parseScheduleTime`; `from_string` is that of `QTime`, behind `trimmed`.
unfoldable pub parse_schedule_time : (List ℕ → Option ℕ) → List ℕ → ℕ
parse_schedule_time from_string value = elim (from_string value) [
  | some t ↦ t
  | none ↦ default_schedule_time
]

-- `to_string` is that of `QTime`.
unfoldable pub normalize_schedule_time : (List ℕ → Option ℕ) → (ℕ → List ℕ) → List ℕ → List ℕ
unfolding parse_schedule_time
normalize_schedule_time from_string to_string value =
    to_string (parse_schedule_time from_string value)

abbrev pub minimum_interval : ℕ
minimum_interval = 1000

abbrev pub maximum_interval : ℕ
maximum_interval = 60000

abbrev pub is_active : Config → Bool
is_active c = c.enabled && not (length c.profile_name == 0)

abbrev pub same_date : Option ℕ → ℕ → Bool
same_date none d = false
same_date (some e) d = e == d

unfoldable pub sanitized_config :
    (List ℕ → List ℕ) → (List ℕ → Option ℕ) → (ℕ → List ℕ) → Config → Config
unfolding normalize_schedule_time
sanitized_config trimmed from_string to_string c =
    let name = trimmed c.profile_name in
    record {
      profile_name = name;
      enabled = c.enabled && not (length name == 0);
      time = normalize_schedule_time from_string to_string c.time;
    }

unfoldable pub set_config :
    (List ℕ → List ℕ)
    → (List ℕ → Option ℕ)
    → (ℕ → List ℕ)
    → ScheduleService
    → Config
    → ScheduleService
unfolding sanitized_config
set_config trimmed from_string to_string s c = record s {
  config = sanitized_config trimmed from_string to_string c;
  last_attempt_date = none;
  skip_missed_run = true;
}

-- One of the checks of a stretch of time: whether discovery is complete, and the two times.
pub record Check (T : Type 0) : Type 0 where
  pub discovered : Bool
  pub now : T
  pub later : T

module _ {T : Type 0} (cal : Calendar T) (from_string : List ℕ → Option ℕ) where
  -- For a time that is valid, as all that `parseScheduleTime` returns are.
  unfoldable pub milliseconds_until_next_run : T → ℕ → ℤ
  milliseconds_until_next_run now scheduled =
      let next = cal.at_time now scheduled in
      cal.msecs_to now (if cal.le next now then cal.add_day next else next)

  unfoldable pub schedule_next_check : ScheduleService → T → ScheduleService
  unfolding milliseconds_until_next_run parse_schedule_time
  schedule_next_check s now =
      let until = milliseconds_until_next_run now (parse_schedule_time from_string s.config.time) in
      if not (is_active s.config)
      then record s { timer = none }
      else record s { timer = some (max minimum_interval (min (pos_part until) maximum_interval)) }

  module _ {M : Type 0} (mgr : Manager M) where
    unfoldable pub apply_scheduled_profile : M → List ℕ → M
    apply_scheduled_profile m profile =
        let fired =
          mgr.log_profile m
            (format "Scheduled profile '%1' fired (daemon schedule)." (txt profile end)) in
        let (applied, failed) = mgr.apply_profile_with_report fired profile in
        if ltb 0 failed
        then mgr.log_profile applied (
            format
              "Scheduled apply skipped or failed %1 zone(s); unconfirmed hardware requires per-session confirmation from the GUI."
              (num failed end))
        else applied

    -- `evaluateNow`, with whether discovery is complete, and the two times that the clock is asked for.
    unfoldable pub evaluate_now : ScheduleService → M → Bool → T → T → ScheduleService × M
    unfolding schedule_next_check parse_schedule_time apply_scheduled_profile
    evaluate_now s m discovery_complete now later =
        let scheduled = parse_schedule_time from_string s.config.time in
        let due =
          leb scheduled (cal.time now) && not (same_date s.last_attempt_date (cal.date now)) in
        let attempted = if due then some (cal.date now) else s.last_attempt_date in
        let m' =
          if due && not s.skip_missed_run
          then apply_scheduled_profile m s.config.profile_name
          else m in
        if not (is_active s.config)
        then (record s { timer = none }, m)
        else if not discovery_complete
        then (schedule_next_check s later, m)
        else (
          schedule_next_check (record s { last_attempt_date = attempted; skip_missed_run = false })
              later,
          m',
        )

    unfoldable pub run_checks : ScheduleService → M → List (Check T) → ScheduleService × M
    unfolding evaluate_now
    run_checks s m [] = (s, m)
    run_checks s m (c ∷ cs) =
        let (s', m') = evaluate_now s m c.discovered c.now c.later in run_checks s' m' cs
