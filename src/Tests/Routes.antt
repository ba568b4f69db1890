-- ===== src/Tests/Routes.antt =====
-- Routes and VIPs of a small manager.
use pathosd.Common.{
  not, ◌&&◌, ◌==◌, if◌then◌else◌, ◌≡◌, ◌≢◌, refl, Bool, true, none, some, [], ◌∷◌, String, contains,
  delete_first, get_or,
}
use pathosd.Common.Int.{◌+ℤ◌}
use pathosd.Common.Dict.{lookup, insert, delete, member}
use pathosd.Model.State.{announced}
use pathosd.Policy.State.{Manager, VipEntry}
use pathosd.Config.Checks.{effective_name}
use pathosd.Config.Vip.{check_list, effective_checks_policy}
use pathosd.Config.ChecksPolicy.{eval, compile_checks_policy}
use pathosd.Policy.Engine.{
  evaluate, base_route_attrs, lower_prepend, merge_communities, priority_for, route_attrs_for,
}
use pathosd.Policy.Manager.{
  new_vip_entry, transition_state, apply_bgp, resolve_check, combine_health, push_state, retry_bgp,
  lower_priority_file_present, emit_registered, any_known, call_listener, emit_transition,
  entry_evaluator, healthy_map, initial_checks,
}
use pathosd.Policy.Handlers.{
  on_health_transition, on_check_result, entry_transition, health_changed, entry_result,
  result_arrived, reevaluate, emit_result, file_reason,
}
use pathosd.Policy.Commit.{
  add_vip, remove_vip, commit_vip, remove_entry, forget_vip, commit_entry, commit_checked,
  with_running, switch_entry, settle, reoriginate, next_checks, emit_dropped, same_attrs,
  same_texts,
}
use pathosd.Policy.Sync.{route_of, wanted}
use pathosd.Policy.Sync.Managers.{IsSynced}
use pathosd.Policy.Sync.Events.{on_health_transition-IsSynced, on_check_result-IsSynced}
use pathosd.Policy.Sync.Removal.{
  Leaves, remove_vip-IsSynced, remove_vip_withdraws, remove_vip_leaks,
}
use pathosd.Policy.Sync.Addition.{add_vip-IsSynced}
use pathosd.Tests.Fixtures.{Table, table, constants, host, web, passed, up, down, start, put, drop}

-- "web" is registered. The line opens all that the runs of a manager call.
unfoldable pub added : Manager Table Bool
unfolding add_vip remove_vip commit_vip remove_entry forget_vip commit_entry commit_checked
    with_running switch_entry settle reoriginate next_checks emit_dropped same_attrs same_texts
    on_health_transition on_check_result entry_transition health_changed entry_result result_arrived
    reevaluate emit_result file_reason new_vip_entry transition_state apply_bgp resolve_check
    combine_health push_state retry_bgp lower_priority_file_present emit_registered any_known
    call_listener emit_transition entry_evaluator healthy_map initial_checks evaluate
    base_route_attrs lower_prepend merge_communities priority_for route_attrs_for eval
    compile_checks_policy check_list effective_checks_policy effective_name lookup insert delete
    member put drop ◌+ℤ◌ contains delete_first
added = add_vip constants host start web

-- and announced by its check "a"
abbrev pub serving : Manager Table Bool
serving = on_health_transition constants table host added (up "a")

-- what stands under "web"
abbrev pub entry_in : Manager Table Bool → VipEntry Bool
entry_in m = get_or (lookup "web" m.vips) (new_vip_entry constants host web)

serving_route : route_of table serving.world "10.0.0.1/32" ≡ wanted table web announced
unfolding added
serving_route = refl

start-IsSynced : IsSynced table start
unfolding lookup
start-IsSynced = record { in_step = λ k x h. cc; apart = λ a b ea eb h. cc }

pub added-IsSynced : IsSynced table added
unfolding added
added-IsSynced =
    (add_vip-IsSynced table constants host start web start-IsSynced refl (λ k x h. cc)).0

add_vip-IsSynced_example :
    IsSynced table added
    × ((k : String)
        → lookup k added.vips ≡ (
            if not (member web.name start.vips) && web.name == k
            then some (new_vip_entry constants host web)
            else lookup k start.vips))
unfolding added
add_vip-IsSynced_example =
    add_vip-IsSynced table constants host start web start-IsSynced refl (λ k x h. cc)

serving-IsSynced : IsSynced table serving
serving-IsSynced = on_health_transition-IsSynced constants table host added (up "a") added-IsSynced

on_health_transition-IsSynced_example : IsSynced table serving
on_health_transition-IsSynced_example =
    on_health_transition-IsSynced constants table host added (up "a") added-IsSynced

on_check_result-IsSynced_example :
    IsSynced table (on_check_result constants table host serving "web" "a" passed)
on_check_result-IsSynced_example =
    on_check_result-IsSynced constants table host serving "web" "a" passed serving-IsSynced

remove_vip-IsSynced_example :
    IsSynced table (remove_vip constants table serving "web").0
    × Leaves table serving "web" (remove_vip constants table serving "web")
remove_vip-IsSynced_example = remove_vip-IsSynced table constants serving "web" serving-IsSynced

remove_vip_withdraws_example :
    (route_of table (remove_vip constants table serving "web").0.world "10.0.0.1/32" ≡ none)
    × (lookup "web" (remove_vip constants table serving "web").0.vips ≡ none)
unfolding added
remove_vip_withdraws_example =
    remove_vip_withdraws table constants serving "web" (entry_in serving) serving-IsSynced refl refl
      refl refl

-- The notifier refuses to work from now on, and the VIP fails.
abbrev broken : Manager Table Bool
broken =
    on_health_transition constants table host
      (record serving {
        world = record serving.world {
          notifier = some (record {
            routes = ("10.0.0.1/32", route_attrs_for web.policy announced) ∷ [];
            failing = true;
          });
        };
      })
      (down "a")

-- The route of a failed VIP outlives the removal of the VIP.
leaked : route_of table (remove_vip constants table broken "web").0.world "10.0.0.1/32" ≢ none
unfolding added
leaked e = cc

remove_vip_leaks_example :
    ((remove_vip constants table broken "web").1 ≡ none)
    × (lookup "web" (remove_vip constants table broken "web").0.vips ≡ none)
    × ((q : String)
        → route_of table (remove_vip constants table broken "web").0.world q
          ≡ route_of table broken.world q)
unfolding added
remove_vip_leaks_example =
    remove_vip_leaks table constants broken "web" (entry_in broken) refl refl refl
