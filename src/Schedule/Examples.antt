-- ===== src/Schedule/Examples.antt =====
-- A service with a clock of milliseconds, and the theorems at it.
use luma_core.Prelude.{
  ℕ, ◌+◌, ◌*◌, ◌/◌, ◌%◌, ◌≤◌, ◌≡◌, refl, ◌⊎◌, pos, true, false, List, [], ◌∷◌, Option, none, some,
  leb, arith, ◌-◌, suc,
}
use luma_core.Text.{codes}
use luma_core.Schedule.{
  Calendar, Manager, Config, ScheduleService, Check, evaluate_now, run_checks,
  apply_scheduled_profile, parse_schedule_time, set_config,
}
use luma_core.Schedule.Laws.{once_a_day, set_config-skips, evaluate_now-IsWaiting}
use luma_core.Schedule.Fires.{run_checks-fires}

abbrev day : ℕ
day = 86400000

-- Milliseconds since the first date, without changes of the time zone.
abbrev plain : Calendar ℕ
plain = record {
  date = λ t. t / day;
  time = λ t. t % day;
  at_time = λ t s. t / day * day + s;
  le = λ a b. leb a b;
  add_day = λ t. t + day;
  msecs_to = λ a b. pos (b - a);
}

-- A device manager that counts the applied profiles.
abbrev counter : Manager ℕ
counter = record { log_profile = λ m _. m; apply_profile_with_report = λ m _. (suc m, 0) }

abbrev at_six : List ℕ → Option ℕ
at_six _ = some 21600000

abbrev same_name : List ℕ → List ℕ
same_name t = t

-- `QTime::toString` at the only time that `at_six` reads.
abbrev six : ℕ → List ℕ
six _ = codes "06:00"

abbrev evening : Config
evening = record { enabled = true; profile_name = codes "Evening"; time = codes "06:00" }

abbrev running : ScheduleService
running = record {
  config = evening;
  last_attempt_date = none;
  skip_missed_run = false;
  timer = none;
}

abbrev check : ℕ → Check ℕ
check t = record { discovered = true; now = t; later = t }

-- A check before the daemon has found its devices.
abbrev early : Check ℕ
early = record { discovered = false; now = 21600000; later = 21600000 }

abbrev checks : List (Check ℕ)
checks = check 21600000 ∷ check 21660000 ∷ []

once_a_day_example :
    ((run_checks plain at_six counter running 0 checks).1 ≡ 0)
    ⊎ ((run_checks plain at_six counter running 0 checks).1
        ≡ apply_scheduled_profile plain at_six counter 0 (codes "Evening"))
once_a_day_example = once_a_day plain at_six counter 0 running 0 checks (refl, (refl, tt))

run_checks-fires_example :
    (run_checks plain at_six counter running 0 (early ∷ checks)).1
    ≡ apply_scheduled_profile plain at_six counter 0 (codes "Evening")
unfolding parse_schedule_time
run_checks-fires_example =
    run_checks-fires plain at_six counter 0 running 0 (early ∷ []) (check 21600000)
      (check 21660000 ∷ []) (refl, (refl, (refl, tt))) refl refl refl refl (omega arith)

set_config-skips_example :
    (run_checks plain at_six counter (set_config same_name at_six six running evening) 0 checks).1
    ≡ 0
unfolding parse_schedule_time
set_config-skips_example =
    set_config-skips plain at_six counter same_name six 0 running evening 0 checks
      ((refl, omega arith), ((refl, omega arith), tt))

evaluate_now-IsWaiting_example :
    (t : ℕ) × ((evaluate_now plain at_six counter running 0 true 5 5).0.timer ≡ some t)
    × (1000 ≤ t)
    × (t ≤ 60000)
evaluate_now-IsWaiting_example = evaluate_now-IsWaiting plain at_six counter running 0 true 5 5 refl
