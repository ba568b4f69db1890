-- ===== src/Checks/Scheduler/Hysteresis.antt =====
-- The scheduler against a specification over the whole history of results, newest first.
use pathosd.Common.{ℕ, suc, min, ◌≡◌, Bool, true, false, List, [], ◌∷◌, ◌&&◌, ◌||◌, arith, ltb, leb}
use pathosd.Common.Int.{pos}
use pathosd.Checks.Result.{Result}
use pathosd.Checks.Scheduler.{
  Scheduler, SchedulerConfig, new_scheduler, record_result, run_check, run_checks,
}

-- how many of the newest results are successes
abbrev pub ok_run : List Bool → ℕ
ok_run [] = 0
ok_run (true ∷ h) = suc (ok_run h)
ok_run (false ∷ h) = 0

-- how many of the newest results are failures
abbrev pub fail_run : List Bool → ℕ
fail_run [] = 0
fail_run (true ∷ h) = 0
fail_run (false ∷ h) = suc (fail_run h)

-- The health that a history calls for: the last streak that reached its threshold decides.
abbrev pub health_of : ℕ → ℕ → List Bool → Bool
health_of rise fall [] = false
health_of rise fall (true ∷ h) = health_of rise fall h || leb rise (ok_run (true ∷ h))
health_of rise fall (false ∷ h) = health_of rise fall h && ltb (fail_run (false ∷ h)) fall

-- The history after more results, the oldest of them first.
abbrev pub extend : List Bool → List Result → List Bool
extend h [] = h
extend h (r ∷ rs) = extend (r.success ∷ h) rs

-- The scheduler stands where the history puts it.
pub record Tracks {C : Type 0} (rise fall : ℕ) (h : List Bool) (s : Scheduler C) : Type 0 where
  pub rise_is : s.rise ≡ pos rise
  pub fall_is : s.fall ≡ pos fall
  pub health : s.healthy ≡ health_of rise fall h
  pub ok_capped : s.consecutive_ok ≡ min rise (ok_run h)
  pub fail_capped : s.consecutive_fail ≡ min fall (fail_run h)

module _ {C : Type 0} (rise fall : ℕ) where
  new_scheduler-Tracks :
      (cfg : SchedulerConfig C)
      → cfg.rise ≡ pos rise
      → cfg.fall ≡ pos fall
      → Tracks rise fall [] (new_scheduler cfg)
  unfolding new_scheduler
  new_scheduler-Tracks cfg a b = ground arith

  record_result-Tracks :
      (h : List Bool) (s : Scheduler C) (r : Result)
      → Tracks rise fall h s
      → Tracks rise fall (r.success ∷ h) (record_result s r).0
  unfolding record_result
  record_result-Tracks h s r t = ground arith

  run_checks-Tracks :
      (h : List Bool) (s : Scheduler C) (rs : List Result)
      → Tracks rise fall h s
      → Tracks rise fall (extend h rs) (run_checks s rs).0
  unfolding run_checks
  run_checks-Tracks h s [] t = t
  run_checks-Tracks h s (r ∷ rs) t =
      run_checks-Tracks (r.success ∷ h) (run_check s r).0 rs (record_result-Tracks h s r t)

  -- A new scheduler whose thresholds are not negative is, after any results, healthy exactly when the
  -- history of the results calls for it, and its counters are the two streaks, capped at their thresholds.
  pub run_checks_history :
      (cfg : SchedulerConfig C) (rs : List Result)
      → cfg.rise ≡ pos rise
      → cfg.fall ≡ pos fall
      → let s = (run_checks (new_scheduler cfg) rs).0 in
        let h = extend [] rs in
        (s.healthy ≡ health_of rise fall h)
        × (s.consecutive_ok ≡ min rise (ok_run h))
        × (s.consecutive_fail ≡ min fall (fail_run h))
  run_checks_history cfg rs a b =
      let t = run_checks-Tracks [] (new_scheduler cfg) rs (new_scheduler-Tracks cfg a b) in
      (t.health, t.ok_capped, t.fail_capped)
