-- ===== src/Tests/Checks.antt =====
-- The scheduler and the checks policies at concrete inputs.
use pathosd.Common.{
  Option, String, ◌≡◌, refl, Bool, true, false, none, some, List, [], ◌∷◌, inr, arith, eq_iff,
}
use pathosd.Common.Int.{pos}
use pathosd.Checks.Result.{Result, zero_result}
use pathosd.Checks.Scheduler.{Scheduler, SchedulerConfig, new_scheduler, run_check, run_checks}
use pathosd.Checks.Guard.{
  LocalAddressGuard, Round, listed, list_failed, guarded_check, guarded_results, check_address,
  observe, is_assigned,
}
use pathosd.Checks.Guard.Missing.{missing_falls, IsElsewhere}
use pathosd.Checks.Scheduler.Hysteresis.{run_checks_history}
use pathosd.Checks.Scheduler.Streaks.{rise_reached, fall_reached, fall_not_reached}
use pathosd.Checks.Scheduler.Callbacks.{follow, reported, run_check_fires, run_checks_alternate}
use pathosd.Config.ChecksPolicy.Combine.{outcome, eval_all_any, eval_expression}
use pathosd.Common.Dict.{lookup}
use pathosd.Tests.Fixtures.{passed, constants}

-- rise 2, fall 3
abbrev config : SchedulerConfig Bool
config = record {
  vip_name = "web";
  check_name = "";
  checker_type = some "tcp";
  interval = pos 1_000_000_000;
  timeout = pos 100_000_000;
  rise = pos 2;
  fall = pos 3;
  on_transition = some (λ t. t.healthy);
  on_check_result = none;
}

abbrev failed : Result
failed = zero_result

abbrev some_results : List Result
some_results = passed ∷ failed ∷ passed ∷ passed ∷ failed ∷ failed ∷ passed ∷ []

abbrev risen : Scheduler Bool
risen = record (new_scheduler config) { healthy = true; consecutive_ok = 2 }

-- the health, the two counters and the reports after a mixed history
runs :
    ◌≡◌ {A = Bool} (run_checks (new_scheduler config) some_results).0.healthy true
    × ((run_checks (new_scheduler config) some_results).0.consecutive_ok ≡ 1)
    × ((run_checks (new_scheduler config) some_results).1 ≡ true ∷ [])
unfolding run_checks new_scheduler
runs = (refl, refl, refl)

run_checks_history_example : (run_checks (new_scheduler config) some_results).0.healthy ≡ true
run_checks_history_example = (run_checks_history 2 3 config some_results refl refl).0

rise_reached_example : (run_checks (new_scheduler config) (passed ∷ passed ∷ [])).0.healthy ≡ true
unfolding new_scheduler
rise_reached_example =
    rise_reached (new_scheduler config) (passed ∷ passed ∷ []) 2 refl (refl, (refl, tt))
      (inr (omega arith, omega arith))

fall_reached_example : (run_checks risen (failed ∷ failed ∷ failed ∷ [])).0.healthy ≡ false
unfolding new_scheduler
fall_reached_example =
    fall_reached risen (failed ∷ failed ∷ failed ∷ []) 3 refl (refl, (refl, (refl, tt)))
      (inr (omega arith, omega arith))

fall_not_reached_example : (run_checks risen (failed ∷ failed ∷ [])).0.healthy ≡ true
unfolding new_scheduler
fall_not_reached_example = fall_not_reached risen (failed ∷ failed ∷ []) 3 refl refl (omega arith)

abbrev both : Scheduler Bool
both = record (new_scheduler config) { on_check_result = some (λ v c r. r.success); rise = pos 1 }

run_check_fires_example : (run_check both passed).1 ≡ true ∷ true ∷ []
unfolding run_check new_scheduler
run_check_fires_example =
    run_check_fires both passed (λ v c r. r.success) (λ t. t.healthy) refl refl

-- the calls of both callbacks: `none` for a result, the health for a transition
abbrev told : Scheduler (Option Bool)
told = record {
  vip_name = "web";
  check_name = "";
  interval = pos 1_000_000_000;
  timeout = pos 100_000_000;
  rise = pos 2;
  fall = pos 1;
  on_transition = some (λ t. some t.healthy);
  on_check_result = some (λ v c r. none);
  healthy = false;
  consecutive_ok = 0;
  consecutive_fail = 0;
  last_result = zero_result;
}

run_checks_alternate_example :
    follow false (reported (λ c. c) (run_checks told some_results).1)
    ≡ some (run_checks told some_results).0.healthy
run_checks_alternate_example =
    run_checks_alternate (λ v c r. none) (λ t. some t.healthy) (λ c. c) (λ v c r. refl) (λ t. refl)
      told some_results refl refl

eval_all_any_example : outcome constants "any" ("a" ∷ "b" ∷ []) (("b", true) ∷ []) ≡ some true
unfolding lookup
eval_all_any_example = (eval_all_any constants ("a" ∷ "b" ∷ []) (("b", true) ∷ [])).2

eval_expression_example : outcome constants "true" ("a" ∷ []) [] ≡ some true
eval_expression_example =
    (eval_expression constants "true" ("a" ∷ []) [] true (ground (arith, eq_iff "true" ""))
      (ground (arith, eq_iff "true" "all")) (ground (arith, eq_iff "true" "any")) refl).0

-- a guard of an address that one interface has
abbrev guard : LocalAddressGuard
guard = record {
  vip_name = "web";
  prefix = "10.0.0.1/32";
  addr = "10.0.0.1";
  iface = "lo";
  known = false;
  assigned = false;
}

abbrev on : String → Round
on name = record {
  listing = listed (record { iface = name; addr = "10.0.0.1" } ∷ []);
  duration = pos 1;
  inner = passed;
}

-- the address is there, it moves to another interface, and it stays there: two calls of onState
guard_calls :
    ((guarded_check guard (on "lo")).1 ≡ true ∷ [])
    × ((guarded_check (guarded_check guard (on "lo")).0 (on "eth0")).1 ≡ false ∷ [])
unfolding guarded_check check_address observe is_assigned
guard_calls = (refl, refl)

abbrev failing_listing : Round
failing_listing = record { listing = list_failed "netlink"; duration = pos 1; inner = passed }

elsewhere : IsElsewhere "10.0.0.1" "lo" (record { iface = "eth0"; addr = "10.0.0.1" })
elsewhere = inr (λ e. cc, λ e. cc ((eq_iff "eth0" "lo").1 e))

missing_falls_example :
    (run_checks risen
      (guarded_results guard (on "eth0" ∷ failing_listing ∷ on "eth0" ∷ []))).0.healthy
    ≡ false
unfolding new_scheduler
missing_falls_example =
    missing_falls guard risen (on "eth0" ∷ failing_listing ∷ on "eth0" ∷ []) 3 refl
      ((elsewhere, tt), (refl, ((elsewhere, tt), tt))) (inr (omega arith, omega arith))
