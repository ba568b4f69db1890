-- ===== src/Checks/Scheduler.antt =====
-- internal/checks/scheduler.go: the rise and fall hysteresis of one check.
-- A callback is a function into a type `C` of actions, and a run returns the actions that it fires.
-- The result of the checker is an argument of each run. Runs are serialized by `runMu`, so each is one step.
pub mod Hysteresis
pub mod Callbacks
pub mod Streaks
use pathosd.Common.{
  ℕ, suc, ◌+◌, String, Bool, true, false, not, Option, none, some, List, [], ◌∷◌, ◌++◌, ◌&&◌, ◌==◌,
  get_or, if◌then◌else◌,
}
use pathosd.Common.Int.{ℤ, pos, ltb_ℤ, leb_ℤ}
use pathosd.Checks.Result.{Result, zero_result, HealthTransition}

-- type SchedulerConfig; of the checker, its type, and whether it implements io.Closer
pub record SchedulerConfig (C : Type 0) : Type 0 where
  pub vip_name : String
  pub check_name : String
  pub checker_type : Option String
  pub interval : ℤ  -- nanoseconds
  pub timeout : ℤ  -- nanoseconds
  pub rise : ℤ
  pub fall : ℤ
  pub on_transition : Option (HealthTransition → C)
  pub on_check_result : Option (String → String → Result → C)

-- type Scheduler; the two counters start at 0 and only count up or return to 0
pub record Scheduler (C : Type 0) : Type 0 where
  pub vip_name : String
  pub check_name : String
  pub interval : ℤ
  pub timeout : ℤ
  pub rise : ℤ
  pub fall : ℤ
  pub on_transition : Option (HealthTransition → C)
  pub on_check_result : Option (String → String → Result → C)
  pub healthy : Bool
  pub consecutive_ok : ℕ
  pub consecutive_fail : ℕ
  pub last_result : Result

scheduler_name : String → Option String → String
scheduler_name name checker_type = if name == "" then get_or checker_type name else name

module _ {C : Type 0} where
  -- func NewScheduler
  unfoldable pub new_scheduler : SchedulerConfig C → Scheduler C
  unfolding scheduler_name
  new_scheduler cfg = record {
    vip_name = cfg.vip_name;
    check_name = scheduler_name cfg.check_name cfg.checker_type;
    interval = cfg.interval;
    timeout = cfg.timeout;
    rise = cfg.rise;
    fall = cfg.fall;
    on_transition = cfg.on_transition;
    on_check_result = cfg.on_check_result;
    healthy = false;
    consecutive_ok = 0;
    consecutive_fail = 0;
    last_result = zero_result;
  }

  -- func (s *Scheduler) SetCallbacks
  unfoldable pub set_callbacks :
      Scheduler C
      → Option (HealthTransition → C)
      → Option (String → String → Result → C)
      → Scheduler C
  set_callbacks s on_transition on_check_result = record s {
    on_transition = on_transition;
    on_check_result = on_check_result;
  }

  transition_of : Scheduler C → Bool → String → Result → HealthTransition
  transition_of s healthy reason result = record {
    vip_name = s.vip_name;
    check_name = s.check_name;
    healthy = healthy;
    reason = reason;
    check_result = result;
  }

  -- the branch `result.Success` of runCheck
  on_success : Scheduler C → Result → Scheduler C × Option HealthTransition
  unfolding transition_of
  on_success s result =
      let ok =
        if ltb_ℤ (pos s.consecutive_ok) s.rise then s.consecutive_ok + 1 else s.consecutive_ok in
      let t = record s { consecutive_fail = 0; consecutive_ok = ok; last_result = result } in
      if not s.healthy && leb_ℤ s.rise (pos ok)
      then (
        record t { healthy = true },
        some (transition_of s true "rise threshold reached" result),
      )
      else (t, none)

  -- the other branch
  on_failure : Scheduler C → Result → Scheduler C × Option HealthTransition
  unfolding transition_of
  on_failure s result =
      let fail =
        if ltb_ℤ (pos s.consecutive_fail) s.fall
        then s.consecutive_fail + 1
        else s.consecutive_fail in
      let t = record s { consecutive_ok = 0; consecutive_fail = fail; last_result = result } in
      if s.healthy && leb_ℤ s.fall (pos fail)
      then (
        record t { healthy = false },
        some (transition_of s false "fall threshold reached" result),
      )
      else (t, none)

  -- the part of runCheck under the lock
  unfoldable pub record_result : Scheduler C → Result → Scheduler C × Option HealthTransition
  unfolding on_success on_failure
  record_result s result = if result.success then on_success s result else on_failure s result

  fire_result : Scheduler C → Result → List C
  fire_result s result = elim s.on_check_result [
    | none ↦ []
    | some f ↦ f s.vip_name s.check_name result ∷ []
  ]

  fire_transition : Option (HealthTransition → C) → Option HealthTransition → List C
  fire_transition (some f) (some t) = f t ∷ []
  fire_transition _ _ = []

  -- func (s *Scheduler) runCheck: the new state, and the callbacks in the order of their calls
  unfoldable pub run_check : Scheduler C → Result → Scheduler C × List C
  unfolding record_result fire_result fire_transition
  run_check s result =
      let (t, transition) = record_result s result in
      (t, fire_result s result ++ fire_transition s.on_transition transition)

  -- func (s *Scheduler) TriggerCheck; `none` is the error of a cancelled context
  unfoldable pub trigger_check : Bool → Scheduler C → Result → Scheduler C × List C × Option Result
  unfolding run_check
  trigger_check cancelled s result =
      if cancelled
      then (s, [], none)
      else let (t, fired) = run_check s result in (t, fired, some result)

  -- Run, or any mix of Run and TriggerCheck: one check after another.
  unfoldable pub run_checks : Scheduler C → List Result → Scheduler C × List C
  unfolding run_check
  run_checks s [] = (s, [])
  run_checks s (r ∷ rs) =
      let (t, fired) = run_check s r in let (u, later) = run_checks t rs in (u, fired ++ later)
