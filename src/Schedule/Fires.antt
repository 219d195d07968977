-- ===== src/Schedule/Fires.antt =====
-- core/ScheduleService.cpp, `evaluateNow`: that the scheduled profile is applied.
use luma_core.Prelude.{
  ℕ, ◌≤◌, ◌≡◌, ap, ◌∙◌, sym, inl, inr, true, false, not, List, [], ◌∷◌, ◌++◌, subst, Option, some,
  All, if◌then◌else◌, arith,
}
use luma_core.Schedule.{
  Calendar, Manager, Config, ScheduleService, is_active, same_date, parse_schedule_time,
  apply_scheduled_profile, evaluate_now, Check, run_checks,
}
use luma_core.Schedule.Laws.{waits, passes, attempts, due, applied, evaluate_now-Outcome, quiet_day}

module _ {T M : Type 0} (cal : Calendar T) (from_string : List ℕ → Option ℕ) (mgr : Manager M) where
  reached-due :
      (s : ScheduleService) (now : T)
      → parse_schedule_time from_string s.config.time ≤ cal.time now
      → same_date s.last_attempt_date (cal.date now) ≡ false
      → due cal from_string mgr s now ≡ true
  reached-due s now reached new = ground arith

  -- Where the checks of one date have one that finds discovery complete at or behind the scheduled time of
  -- day, an active service that has not made the attempt of that date, and does not skip a missed run, has
  -- applied its profile once when they are over, whatever the other checks before and behind it find.
  pub run_checks-fires :
      (d : ℕ) (s : ScheduleService) (m : M) (before : List (Check T)) (c : Check T)
      (after : List (Check T))
      → All (λ (x : Check T). cal.date x.now ≡ d) (before ++ (c ∷ after))
      → is_active s.config ≡ true
      → same_date s.last_attempt_date d ≡ false
      → s.skip_missed_run ≡ false
      → c.discovered ≡ true
      → parse_schedule_time from_string s.config.time ≤ cal.time c.now
      → (run_checks cal from_string mgr s m (before ++ (c ∷ after))).1
        ≡ apply_scheduled_profile cal from_string mgr m s.config.profile_name
  unfolding run_checks
  run_checks-fires d s m [] c after (today, all) active new skip discovered reached =
      let (s', m') = evaluate_now cal from_string mgr s m c.discovered c.now c.later in
      elim (evaluate_now-Outcome cal from_string mgr s m c.discovered c.now c.later) [
        | waits (inl inactive) _ _ _ _ ↦ let bad : true ≡ false = sym active ∙ inactive in cc
        | waits (inr missing) _ _ _ _ ↦ let bad : true ≡ false = sym discovered ∙ missing in cc
        | passes not_due _ _ _ _ ↦
            let fresh = ap (same_date s.last_attempt_date) today ∙ new in
            let bad : true ≡ false = sym (reached-due s c.now reached fresh) ∙ not_due in cc
        | attempts _ _ last result ↦
            quiet_day cal from_string mgr d s' m' after (last ∙ ap some today) all
            ∙ result
            ∙ ap (λ b. if not b then applied cal from_string mgr s m else m) skip
      ]
  run_checks-fires d s m (b ∷ before) c after (today, all) active new skip discovered reached =
      let (s', m') = evaluate_now cal from_string mgr s m b.discovered b.now b.later in
      let go_on =
        λ (config : s'.config ≡ s.config) (last : s'.last_attempt_date ≡ s.last_attempt_date)
            (runs : s'.skip_missed_run ≡ false) (same : m' ≡ m).
          let out : (run_checks cal from_string mgr s' m' (before ++ (c ∷ after))).1
              ≡ applied cal from_string mgr s m =
            run_checks-fires d s' m' before c after all (ap is_active config ∙ active)
              (ap (λ o. same_date o d) last ∙ new) runs discovered
              (subst (λ x. parse_schedule_time from_string x.time ≤ cal.time c.now) (sym config)
                reached)
            ∙ ap
                (λ (x : M × Config).
                  apply_scheduled_profile cal from_string mgr x.0 x.1.profile_name)
                (λ i. (same i, config i)) in
          out in
      elim (evaluate_now-Outcome cal from_string mgr s m b.discovered b.now b.later) [
        | waits _ config last skips same ↦ go_on config last (skips ∙ skip) same
        | passes _ config last runs same ↦ go_on config last runs same
        | attempts _ _ last result ↦
            quiet_day cal from_string mgr d s' m' (before ++ (c ∷ after)) (last ∙ ap some today) all
            ∙ result
            ∙ ap (λ b. if not b then applied cal from_string mgr s m else m) skip
      ]
