-- ===== src/Checks/Scheduler/Streaks.antt =====
-- How long a streak of equal results must be to change the health.
use pathosd.Common.{ℕ, ◌+◌, ◌≤◌, ◌<◌, ◌≡◌, ◌⊎◌, true, false, List, [], ◌∷◌, arith, All, length, suc}
use pathosd.Common.Int.{pos}
use pathosd.Checks.Result.{Result}
use pathosd.Checks.Scheduler.{Scheduler, record_result, run_check, run_checks}

abbrev pub Passes : Result → Type 0
Passes r = r.success ≡ true

abbrev pub Fails : Result → Type 0
Fails r = r.success ≡ false

module _ {C : Type 0} where
  step_up :
      (s : Scheduler C) (r : Result) (rise k : ℕ)
      → s.rise ≡ pos rise
      → Passes r
      → (s.healthy ≡ true) ⊎ (rise ≤ s.consecutive_ok + suc k)
      → ((record_result s r).0.rise ≡ pos rise)
        × (((record_result s r).0.healthy ≡ true)
            ⊎ ((0 < k) × (rise ≤ (record_result s r).0.consecutive_ok + k)))
  unfolding record_result
  step_up s r rise k a p d = ground arith

  step_down :
      (s : Scheduler C) (r : Result) (fall k : ℕ)
      → s.fall ≡ pos fall
      → Fails r
      → (s.healthy ≡ false) ⊎ (fall ≤ s.consecutive_fail + suc k)
      → ((record_result s r).0.fall ≡ pos fall)
        × (((record_result s r).0.healthy ≡ false)
            ⊎ ((0 < k) × (fall ≤ (record_result s r).0.consecutive_fail + k)))
  unfolding record_result
  step_down s r fall k a p d = ground arith

  -- From any state, a streak of successes that makes up the rest of `rise` ends in a healthy check.
  pub rise_reached :
      (s : Scheduler C) (rs : List Result) (rise : ℕ)
      → s.rise ≡ pos rise
      → All Passes rs
      → (s.healthy ≡ true) ⊎ ((0 < length rs) × (rise ≤ s.consecutive_ok + length rs))
      → (run_checks s rs).0.healthy ≡ true
  unfolding run_checks
  rise_reached s [] rise a p d = ground arith
  rise_reached s (r ∷ rs) rise a p d =
      let next = step_up s r rise (length rs) a p.0 (ground arith) in
      rise_reached (run_check s r).0 rs rise next.0 p.1 next.1

  -- From any state, a streak of failures that makes up the rest of `fall` ends in an unhealthy check.
  pub fall_reached :
      (s : Scheduler C) (rs : List Result) (fall : ℕ)
      → s.fall ≡ pos fall
      → All Fails rs
      → (s.healthy ≡ false) ⊎ ((0 < length rs) × (fall ≤ s.consecutive_fail + length rs))
      → (run_checks s rs).0.healthy ≡ false
  unfolding run_checks
  fall_reached s [] fall a p d = ground arith
  fall_reached s (r ∷ rs) fall a p d =
      let next = step_down s r fall (length rs) a p.0 (ground arith) in
      fall_reached (run_check s r).0 rs fall next.0 p.1 next.1

  step_keeps :
      (s : Scheduler C) (r : Result) (fall k : ℕ)
      → s.fall ≡ pos fall
      → s.healthy ≡ true
      → s.consecutive_fail + suc k < fall
      → ((record_result s r).0.fall ≡ pos fall)
        × ((record_result s r).0.healthy ≡ true)
        × ((record_result s r).0.consecutive_fail + k < fall)
  unfolding record_result
  step_keeps s r fall k a h d = ground arith

  -- A healthy check stays healthy through any results too few to make up the rest of `fall`.
  pub fall_not_reached :
      (s : Scheduler C) (rs : List Result) (fall : ℕ)
      → s.fall ≡ pos fall
      → s.healthy ≡ true
      → s.consecutive_fail + length rs < fall
      → (run_checks s rs).0.healthy ≡ true
  unfolding run_checks
  fall_not_reached s [] fall a h d = h
  fall_not_reached s (r ∷ rs) fall a h d =
      let next = step_keeps s r fall (length rs) a h d in
      fall_not_reached (run_check s r).0 rs fall next.0 next.1 next.2
