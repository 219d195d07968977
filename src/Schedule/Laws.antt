-- ===== src/Schedule/Laws.antt =====
-- When the scheduled profile is applied, and that the service goes on checking.
use luma_core.Prelude.{
  ℕ, ◌≤◌, ◌≡◌, refl, ap, ◌∙◌, sym, ◌⊎◌, inl, inr, Bool, true, false, not, ◌&&◌, List, [], ◌∷◌,
  Option, none, some, All, if◌then◌else◌, leb, arith, min, max, pos_part, Bool-cases,
}
use luma_core.Asus.Zones.{All-map}
use luma_core.Schedule.{
  Calendar, Manager, Config, ScheduleService, is_active, same_date, parse_schedule_time, set_config,
  schedule_next_check, apply_scheduled_profile, evaluate_now, Check, run_checks,
  milliseconds_until_next_run, sanitized_config, normalize_schedule_time,
}

-- By the test of an `if`.
either {ℓ κ} :
    {X : Type ℓ} (P : X → Type κ) (b : Bool) (x y : X)
    → (b ≡ true → P x)
    → (b ≡ false → P y)
    → P (if b then x else y)
either P true x y p q = p refl
either P false x y p q = q refl

not-true : (b : Bool) → not b ≡ true → b ≡ false
not-true b h = ground arith

not-false : (b : Bool) → not b ≡ false → b ≡ true
not-false b h = ground arith

-- What a check leaves of the service.
record Same (s t : ScheduleService) : Type 0 where
  config : t.config ≡ s.config
  last : t.last_attempt_date ≡ s.last_attempt_date
  skip : t.skip_missed_run ≡ s.skip_missed_run

module _ {T : Type 0} (cal : Calendar T) (from_string : List ℕ → Option ℕ) where
  next_check-Same :
      (s : ScheduleService) (now : T) → Same s (schedule_next_check cal from_string s now)
  unfolding schedule_next_check
  next_check-Same s now =
      either (Same s) (not (is_active s.config)) _ _
        (λ _. record { config = refl; last = refl; skip = refl })
        (λ _. record { config = refl; last = refl; skip = refl })

  -- The timer of an active service.
  abbrev IsWaiting : ScheduleService → Type 0
  IsWaiting s = (t : ℕ) × (s.timer ≡ some t) × (1000 ≤ t) × (t ≤ 60000)

  next_check-IsWaiting :
      (s : ScheduleService) (now : T)
      → is_active s.config ≡ true
      → IsWaiting (schedule_next_check cal from_string s now)
  unfolding schedule_next_check
  next_check-IsWaiting s now active =
      let scheduled = parse_schedule_time from_string s.config.time in
      let until = milliseconds_until_next_run cal from_string now scheduled in
      either IsWaiting (not (is_active s.config)) _ _
        (λ idle. let bad : true ≡ false = sym active ∙ not-true _ idle in cc)
        (λ _. (max 1000 (min (pos_part until) 60000), refl, omega arith, omega arith))

module _ {T M : Type 0} (cal : Calendar T) (from_string : List ℕ → Option ℕ) (mgr : Manager M) where
  abbrev pub due : ScheduleService → T → Bool
  due s now =
      leb (parse_schedule_time from_string s.config.time) (cal.time now)
      && not (same_date s.last_attempt_date (cal.date now))

  abbrev pub applied : ScheduleService → M → M
  applied s m = apply_scheduled_profile cal from_string mgr m s.config.profile_name

  -- The outcomes of a check: nothing is attempted, or the attempt of the date is made, and the profile is
  -- applied unless a missed run is skipped.
  pub data Outcome (s : ScheduleService) (m : M) (now : T) (discovered : Bool)
      (out : ScheduleService × M) : Type 0 where
    waits :
        (is_active s.config ≡ false) ⊎ (discovered ≡ false)
        → out.0.config ≡ s.config
        → out.0.last_attempt_date ≡ s.last_attempt_date
        → out.0.skip_missed_run ≡ s.skip_missed_run
        → out.1 ≡ m
        → Outcome s m now discovered out
    passes :
        due s now ≡ false
        → out.0.config ≡ s.config
        → out.0.last_attempt_date ≡ s.last_attempt_date
        → out.0.skip_missed_run ≡ false
        → out.1 ≡ m
        → Outcome s m now discovered out
    attempts :
        due s now ≡ true
        → out.0.config ≡ s.config
        → out.0.last_attempt_date ≡ some (cal.date now)
        → out.1 ≡ (if not s.skip_missed_run then applied s m else m)
        → Outcome s m now discovered out

  and-true : (a b : Bool) → a ≡ true → (a && b) ≡ b
  and-true true b h = refl
  and-true false b h = cc

  and-false : (a b : Bool) → a ≡ false → (a && b) ≡ false
  and-false false b h = refl
  and-false true b h = cc

  pub evaluate_now-Outcome :
      (s : ScheduleService) (m : M) (discovered : Bool) (now later : T)
      → Outcome s m now discovered (evaluate_now cal from_string mgr s m discovered now later)
  unfolding evaluate_now
  evaluate_now-Outcome s m discovered now later =
      let attempted = if due s now then some (cal.date now) else s.last_attempt_date in
      let tried = record s { last_attempt_date = attempted; skip_missed_run = false } in
      let next = next_check-Same cal from_string s later in
      let after = next_check-Same cal from_string tried later in
      either (Outcome s m now discovered) (not (is_active s.config)) _ _
        (λ idle. waits (inl (not-true _ idle)) refl refl refl refl)
        (λ _.
          either (Outcome s m now discovered) (not discovered) _ _
            (λ undiscovered.
              waits (inr (not-true _ undiscovered)) next.config next.last next.skip refl)
            (λ _. elim (Bool-cases (due s now)) [
              | inl is_due ↦
                  attempts is_due after.config
                    (after.last
                      ∙ ap (λ b. if b then some (cal.date now) else s.last_attempt_date) is_due)
                    (ap (λ b. if b then applied s m else m)
                      (and-true (due s now) (not s.skip_missed_run) is_due))
              | inr not_due ↦
                  passes not_due after.config
                    (after.last
                      ∙ ap (λ b. if b then some (cal.date now) else s.last_attempt_date) not_due)
                    after.skip
                    (ap (λ b. if b then applied s m else m)
                      (and-false (due s now) (not s.skip_missed_run) not_due))
            ]))

  idle : (a b : Bool) → b ≡ true → (a && not b) ≡ false
  idle a b h = ground arith

  same_date_self : (d : ℕ) → same_date (some d) d ≡ true
  same_date_self d = ground arith

  attempted-not_due :
      (s : ScheduleService) (now : T)
      → s.last_attempt_date ≡ some (cal.date now)
      → due s now ≡ false
  attempted-not_due s now last =
      idle _ _ (ap (λ o. same_date o (cal.date now)) last ∙ same_date_self (cal.date now))

  -- A check after the attempt of its date changes neither the attempt nor the devices.
  attempted-quiet :
      (s : ScheduleService) (m : M) (discovered : Bool) (now later : T)
      → s.last_attempt_date ≡ some (cal.date now)
      → ((evaluate_now cal from_string mgr s m discovered now later).0.last_attempt_date
          ≡ some (cal.date now))
        × ((evaluate_now cal from_string mgr s m discovered now later).1 ≡ m)
  attempted-quiet s m discovered now later last =
      elim (evaluate_now-Outcome s m discovered now later) [
        | waits _ _ kept _ same ↦ (kept ∙ last, same)
        | passes _ _ kept _ same ↦ (kept ∙ last, same)
        | attempts is_due _ _ _ ↦
            let bad : true ≡ false = sym is_due ∙ attempted-not_due s now last in cc
      ]

  pub quiet_day :
      (d : ℕ) (s : ScheduleService) (m : M) (cs : List (Check T))
      → s.last_attempt_date ≡ some d
      → All (λ (c : Check T). cal.date c.now ≡ d) cs
      → (run_checks cal from_string mgr s m cs).1 ≡ m
  unfolding run_checks
  quiet_day d s m [] last all = refl
  quiet_day d s m (c ∷ cs) last (today, all) =
      let (kept, same) =
        attempted-quiet s m c.discovered c.now c.later (last ∙ ap some (sym today)) in
      let (s', m') = evaluate_now cal from_string mgr s m c.discovered c.now c.later in
      quiet_day d s' m' cs (kept ∙ ap some today) all ∙ same

  -- However often the service checks on one date, it applies the scheduled profile at most once.
  pub once_a_day :
      (d : ℕ) (s : ScheduleService) (m : M) (cs : List (Check T))
      → All (λ (c : Check T). cal.date c.now ≡ d) cs
      → ((run_checks cal from_string mgr s m cs).1 ≡ m)
        ⊎ ((run_checks cal from_string mgr s m cs).1
            ≡ apply_scheduled_profile cal from_string mgr m s.config.profile_name)
  unfolding run_checks
  once_a_day d s m [] all = inl refl
  once_a_day d s m (c ∷ cs) (today, all) =
      let (s', m') = evaluate_now cal from_string mgr s m c.discovered c.now c.later in
      let go_on = λ (config : s'.config ≡ s.config) (same : m' ≡ m).
        let out : ((run_checks cal from_string mgr s' m' cs).1 ≡ m)
            ⊎ ((run_checks cal from_string mgr s' m' cs).1 ≡ applied s m) =
          elim (once_a_day d s' m' cs all) [
            | inl quiet ↦ inl (quiet ∙ same)
            | inr fired ↦ inr (
                fired
                ∙ ap
                    (λ (x : M × Config).
                      apply_scheduled_profile cal from_string mgr x.0 x.1.profile_name)
                    (λ i. (same i, config i)))
          ] in
        out in
      elim (evaluate_now-Outcome s m c.discovered c.now c.later) [
        | waits _ config _ _ same ↦ go_on config same
        | passes _ config _ _ same ↦ go_on config same
        | attempts _ config last result ↦
            let rest = quiet_day d s' m' cs (last ∙ ap some today) all in
            elim (Bool-cases (not s.skip_missed_run)) [
              | inl fires ↦ inr (rest ∙ result ∙ ap (λ b. if b then applied s m else m) fires)
              | inr skips ↦ inl (rest ∙ result ∙ ap (λ b. if b then applied s m else m) skips)
            ]
      ]

  skipped_day :
      (d at : ℕ) (s : ScheduleService) (m : M) (cs : List (Check T))
      → s.skip_missed_run ≡ true
      → parse_schedule_time from_string s.config.time ≡ at
      → All (λ (c : Check T). (cal.date c.now ≡ d) × (at ≤ cal.time c.now)) cs
      → (s.last_attempt_date ≡ none)
      → (run_checks cal from_string mgr s m cs).1 ≡ m
  unfolding run_checks
  skipped_day d at s m [] skip scheduled all last = refl
  skipped_day d at s m (c ∷ cs) skip scheduled ((today, late), all) last =
      let (s', m') = evaluate_now cal from_string mgr s m c.discovered c.now c.later in
      elim (evaluate_now-Outcome s m c.discovered c.now c.later) [
        | waits _ config kept skips same ↦
            skipped_day d at s' m' cs (skips ∙ skip)
              (ap (λ x. parse_schedule_time from_string x.time) config ∙ scheduled) all
              (kept ∙ last)
            ∙ same
        | passes not_due _ _ _ _ ↦
            let new : same_date s.last_attempt_date (cal.date c.now) ≡ false =
              ap (λ o. same_date o (cal.date c.now)) last in
            let is_due : due s c.now ≡ true = ground (arith, scheduled, late, new) in
            let bad : true ≡ false = sym is_due ∙ not_due in cc
        | attempts _ _ attempt result ↦
            quiet_day d s' m' cs (attempt ∙ ap some today) (
              All-map (λ (x : Check T) (h : (cal.date x.now ≡ d) × (at ≤ cal.time x.now)). h.0) cs
                all)
            ∙ result
            ∙ ap (λ b. if not b then applied s m else m) skip
      ]

  -- A schedule that is set when its time of day has already come is not applied on that date any more,
  -- however often the service checks.
  pub set_config-skips :
      (trimmed : List ℕ → List ℕ) (to_string : ℕ → List ℕ) (d : ℕ) (s : ScheduleService)
      (config : Config) (m : M) (cs : List (Check T))
      → All
          (λ (c : Check T).
            (cal.date c.now ≡ d)
            × (parse_schedule_time from_string
                  (normalize_schedule_time from_string to_string config.time)
                ≤ cal.time c.now))
          cs
      → (run_checks cal from_string mgr (set_config trimmed from_string to_string s config) m cs).1
        ≡ m
  unfolding set_config sanitized_config
  set_config-skips trimmed to_string d s config m cs all =
      skipped_day d
        (parse_schedule_time from_string
          (normalize_schedule_time from_string to_string config.time))
        (set_config trimmed from_string to_string s config) m cs refl refl all refl

  -- Every check of an active service, whatever it finds, starts the timer of the next one, which comes
  -- within a minute and not before a second.
  pub evaluate_now-IsWaiting :
      (s : ScheduleService) (m : M) (discovered : Bool) (now later : T)
      → is_active s.config ≡ true
      → (t : ℕ) × ((evaluate_now cal from_string mgr s m discovered now later).0.timer ≡ some t)
        × (1000 ≤ t)
        × (t ≤ 60000)
  unfolding evaluate_now
  evaluate_now-IsWaiting s m discovered now later active =
      let attempted = if due s now then some (cal.date now) else s.last_attempt_date in
      let tried = record s { last_attempt_date = attempted; skip_missed_run = false } in
      let P = λ (x : ScheduleService × M).
        let waiting : Type 0 = (t : ℕ) × (x.0.timer ≡ some t) × (1000 ≤ t) × (t ≤ 60000) in
        waiting in
      either P (not (is_active s.config)) _ _
        (λ inactive. let bad : true ≡ false = sym active ∙ not-true _ inactive in cc)
        (λ _.
          either P (not discovered) _ _ (λ _. next_check-IsWaiting cal from_string s later active)
            (λ _. next_check-IsWaiting cal from_string tried later active))
