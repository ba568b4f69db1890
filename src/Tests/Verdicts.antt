-- ===== src/Tests/Verdicts.antt =====
-- Verdicts of the policy engine on the VIPs of a small manager.
use pathosd.Common.{
  ◌≡◌, refl, Bool, none, some, [], ◌==◌, map, get_or, Bool-cases, inl, inr, subst, arith,
}
use pathosd.Common.Dict.{Dict, lookup, lookup-insert}
use pathosd.Config.Checks.{effective_name}
use pathosd.Config.Vip.{check_list, effective_checks_policy}
use pathosd.Config.ChecksPolicy.{ChecksEvaluator, compile_checks_policy}
use pathosd.Model.State.{unknown}
use pathosd.Policy.State.{CheckState}
use pathosd.Policy.Handlers.{on_check_result}
use pathosd.Policy.Commit.{commit_vip, next_checks}
use pathosd.Policy.Sync.Managers.{IsSynced}
use pathosd.Policy.Sync.Events.{on_health_transition-IsSynced}
use pathosd.Policy.Sync.Switch.{commit_vip-IsSynced}
use pathosd.Policy.Verdict.{IsEvaluated, AllVips}
use pathosd.Policy.Verdict.Events.{on_health_transition-IsEvaluated, on_check_result-IsEvaluated}
use pathosd.Policy.Verdict.Committed.{Commits}
use pathosd.Policy.Verdict.Commits.{commit_vip-IsEvaluated, commit_vip_stuck}
use pathosd.Tests.Fixtures.{table, constants, host, web, web_b, passed, up}
use pathosd.Tests.Routes.{added, added-IsSynced, serving, entry_in}

added-entry : IsEvaluated constants (entry_in added)
unfolding added
added-entry = record { combined = refl; decided = λ known. cc }

added-AllVips : AllVips constants (IsEvaluated constants) added
unfolding added
added-AllVips k x h = elim (Bool-cases ("web" == k)) [
  | inl hit ↦
      let e : entry_in added ≡ x = ground (arith, lookup-insert "web" k (entry_in added) []) in
      subst (IsEvaluated constants) e added-entry
  | inr miss ↦ ground (arith, lookup-insert "web" k (entry_in added) [])
]

serving-AllVips : AllVips constants (IsEvaluated constants) serving
serving-AllVips = on_health_transition-IsEvaluated constants table host added (up "a") added-AllVips

on_health_transition-IsEvaluated_example : AllVips constants (IsEvaluated constants) serving
on_health_transition-IsEvaluated_example =
    on_health_transition-IsEvaluated constants table host added (up "a") added-AllVips

on_check_result-IsEvaluated_example :
    AllVips constants
      (IsEvaluated constants)
      (on_check_result constants table host serving "web" "a" passed)
on_check_result-IsEvaluated_example =
    on_check_result-IsEvaluated constants table host serving "web" "a" passed serving-AllVips

commit_vip-IsEvaluated_example :
    AllVips constants (IsEvaluated constants) (commit_vip constants table host serving web_b []).0
    × Commits constants serving web_b (commit_vip constants table host serving web_b [])
commit_vip-IsEvaluated_example =
    commit_vip-IsEvaluated constants table host serving web_b [] serving-AllVips

serving-IsSynced : IsSynced table serving
serving-IsSynced = on_health_transition-IsSynced constants table host added (up "a") added-IsSynced

commit_vip-IsSynced_example : IsSynced table (commit_vip constants table host serving web []).0
unfolding added
commit_vip-IsSynced_example =
    commit_vip-IsSynced constants table host serving web [] serving-IsSynced
      (λ ok e found none_yet. cc)

-- the checks and the evaluator of the new definition
abbrev next_b : Dict CheckState
next_b = get_or (next_checks (check_list web_b) [] (entry_in serving).state.checks []).1 []

abbrev eval_b : ChecksEvaluator Bool
eval_b =
    get_or
      (compile_checks_policy constants (effective_checks_policy web_b)
        (map effective_name (check_list web_b)))
      (entry_in serving).eval

commit_vip_stuck_example :
    let m' = (commit_vip constants table host serving web_b []).0 in
    ((commit_vip constants table host serving web_b []).1 ≡ none)
    × (m'.world.notifier ≡ serving.world.notifier)
    × (lookup "web" m'.vips
        ≡ some (record {
          cfg = web_b;
          eval = eval_b;
          state = record (entry_in serving).state { checks = next_b; health = unknown };
        }))
unfolding added
commit_vip_stuck_example =
    commit_vip_stuck constants table host serving (entry_in serving) web_b [] next_b eval_b refl
      refl refl refl refl
