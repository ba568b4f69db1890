-- ===== src/Reload/Build.antt =====
-- NewSchedulers (internal/reload/reload.go): the schedulers of the checks of a VIP. What NewChecker makes
-- of a check, the type of the checker or an error, is an argument.
use pathosd.Common.{String, Bool, Option, none, some, List, [], ◌∷◌, if◌then◌else◌, get_or}
use pathosd.Common.Int.{pos}
use pathosd.Config.Stdlib.{Stdlib}
use pathosd.Config.Checks.{CheckConfig, effective_name}
use pathosd.Config.Vip.{VipConfig}
use pathosd.Config.Defaults.Checks.{milliseconds}
use pathosd.Checks.Guard.{new_local_address_guard}
use pathosd.Checks.Scheduler.{Scheduler, SchedulerConfig, new_scheduler}

-- `err != nil`, after NewLocalAddressGuard of a VIP that asks for it
unfoldable pub guard_fails : Stdlib → VipConfig → Bool
guard_fails std v = elim (new_local_address_guard std v.name v.prefix v.local_interface) [
  | none ↦ v.require_local_address
  | some g ↦ Bool.false
]

module _ {C : Type 0} where
  -- the argument of checks.NewScheduler
  unfoldable pub scheduler_config : VipConfig → CheckConfig → String → SchedulerConfig C
  scheduler_config v c checker_type = record {
    vip_name = v.name;
    check_name = effective_name c;
    checker_type = some checker_type;
    interval = get_or c.interval (milliseconds 1000);
    timeout = get_or c.timeout (milliseconds 100);
    rise = get_or c.rise (pos 1);
    fall = get_or c.fall (pos 3);
    on_transition = none;
    on_check_result = none;
  }

  unfoldable pub cons_scheduler :
      Scheduler C → Option (List (Scheduler C)) → Option (List (Scheduler C))
  cons_scheduler s none = none
  cons_scheduler s (some rest) = some (s ∷ rest)

  -- the loop over the checks; `none` is an error
  unfoldable pub build_checks :
      (CheckConfig → Option String) → VipConfig → List CheckConfig → Option (List (Scheduler C))
  unfolding scheduler_config cons_scheduler
  build_checks new_checker v [] = some []
  build_checks new_checker v (c ∷ list) =
      let rest = build_checks new_checker v list in
      elim (new_checker c) [
        | none ↦ none
        | some type ↦ cons_scheduler (new_scheduler (scheduler_config v c type)) rest
      ]

  -- func NewSchedulers
  unfoldable pub new_schedulers :
      Stdlib
      → (CheckConfig → Option String)
      → VipConfig
      → List CheckConfig
      → Option (List (Scheduler C))
  unfolding guard_fails build_checks
  new_schedulers std new_checker v list =
      if guard_fails std v then none else build_checks new_checker v list
