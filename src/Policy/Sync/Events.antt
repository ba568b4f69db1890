-- ===== src/Policy/Sync/Events.antt =====
-- The handlers of the checks' events keep every VIP in step with its route.
use pathosd.Common.{
  String, ◌≡◌, refl, Bool, not, arith, ◌&&◌, if◌then◌else◌, Bool-cases, Option-cases, inl, inr,
}
use pathosd.Common.Dict.{lookup}
use pathosd.Config.Checks.{effective_name}
use pathosd.Config.Vip.{VipConfig}
use pathosd.Config.ChecksPolicy.{ExprLang}
use pathosd.Model.State.{healthy, unknown}
use pathosd.Checks.Result.{Result, HealthTransition}
use pathosd.Policy.Engine.{evaluate}
use pathosd.Policy.Notifier.{Notifier}
use pathosd.Policy.State.{
  Env, CheckState, VipStatus, VipEntry, World, Manager, same_state, same_health,
}
use pathosd.Policy.Manager.{lower_priority_file_present, combine_health, resolve_check, retry_bgp}
use pathosd.Policy.Handlers.{
  with_check, health_changed, entry_transition, on_health_transition, reevaluate, emit_result,
  result_arrived, entry_result, on_check_result,
}
use pathosd.Policy.Sync.{
  IsInStep, Moves, Moves-rest, Moves-trans, Moves-effects, transition_state-Moves, retry_bgp-Moves,
}
use pathosd.Policy.Sync.Managers.{IsSynced, entry-IsInStep, store-IsSynced}

module _ {N R P : Type 0} (lang : ExprLang P) (bgp : Notifier N R) where
  health_changed-Moves :
      (env : Env) (w : World N) (entry : VipEntry P) (vs : VipStatus) (t : HealthTransition)
      → IsInStep bgp w entry.cfg vs
      → Moves bgp w
          (health_changed lang bgp env w entry vs t).0
          entry.cfg
          (health_changed lang bgp env w entry vs t).1
  unfolding health_changed
  health_changed-Moves env w entry vs t h =
      elim (Bool-cases (same_health (combine_health lang entry.eval vs.checks) vs.health)) [
        | inl same ↦ rw same (Moves-rest bgp w entry.cfg vs h)
        | inr new ↦
            rw new
              (transition_state-Moves bgp env w entry.cfg _ _ _ (record { in_step = h.in_step }))
      ]

  entry_transition-Moves :
      (env : Env) (w : World N) (entry : VipEntry P) (t : HealthTransition)
      → IsInStep bgp w entry.cfg entry.state
      → Moves bgp w
          (entry_transition lang bgp env w entry t).0
          entry.cfg
          (entry_transition lang bgp env w entry t).1
  unfolding entry_transition
  entry_transition-Moves env w entry t h =
      elim (Option-cases (resolve_check t.check_name entry.state.checks)) [
        | inl missing ↦ rw (missing, entry_transition) (Moves-rest bgp w entry.cfg entry.state h)
        | inr ((key, c), found) ↦
            rw (found, entry_transition)
              (health_changed-Moves env w entry _ t (record { in_step = h.in_step }))
      ]

  -- OnHealthTransition, for any VIP and check, known or not, keeps the manager in step with its
  -- routes: each VIP without a pending retry has exactly the route that its state and policy call for,
  -- and none if it is withdrawn.
  pub on_health_transition-IsSynced :
      (env : Env) (m : Manager N P) (t : HealthTransition)
      → IsSynced bgp m
      → IsSynced bgp (on_health_transition lang bgp env m t)
  unfolding on_health_transition
  on_health_transition-IsSynced env m t s = elim (Option-cases (lookup t.vip_name m.vips)) [
    | inl missing ↦ rw (missing, on_health_transition) s
    | inr (entry, found) ↦
        rw (found, on_health_transition)
          (store-IsSynced bgp m t.vip_name entry entry _ _ s found refl (
            entry_transition-Moves env m.world entry t
              (entry-IsInStep bgp m t.vip_name entry s found)))
  ]

  reevaluate-Moves :
      (env : Env) (w : World N) (cfg : VipConfig) (vs : VipStatus) (changed : Bool)
      → IsInStep bgp w cfg vs
      → Moves bgp w
          (reevaluate lang bgp env w cfg vs changed).0
          cfg
          (reevaluate lang bgp env w cfg vs changed).1
  unfolding reevaluate
  reevaluate-Moves env w cfg vs changed h =
      elim (Bool-cases (
        not (same_health vs.health unknown)
        && not (
            same_state
              (evaluate (same_health vs.health healthy) vs.lower_priority_file_on cfg.policy)
              vs.state))) [
                | inl due ↦ rw due (transition_state-Moves bgp env w cfg vs _ _ h)
                | inr idle ↦ rw idle (Moves-rest bgp w cfg vs h)
              ]

  notifier-emit_result :
      (cfg : VipConfig) (v k : String) (c : CheckState) (r : Result) (w : World N)
      → (emit_result lang bgp cfg v c k r w).notifier ≡ w.notifier
  unfolding emit_result
  notifier-emit_result cfg v k c r w = ground arith

  result_arrived-Moves :
      (env : Env) (w : World N) (entry : VipEntry P) (v key : String) (c : CheckState) (r : Result)
      → IsInStep bgp w entry.cfg entry.state
      → Moves bgp w
          (result_arrived lang bgp env w entry v key c r).0
          entry.cfg
          (result_arrived lang bgp env w entry v key c r).1
  unfolding result_arrived
  result_arrived-Moves env w entry v key c r h =
      let cfg = entry.cfg in
      let present = lower_priority_file_present env cfg.policy.lower_priority_file in
      let vs =
        record (with_check entry.state key (record c { last_result = r; last_time = env.now })) {
          lower_priority_file_on = present;
        } in
      let changed =
        (if present
          then not entry.state.lower_priority_file_on
          else entry.state.lower_priority_file_on) in
      let first = reevaluate-Moves env w cfg vs changed (record { in_step = h.in_step }) in
      let (w1, vs1) = reevaluate lang bgp env w cfg vs changed in
      let (w2, vs2) = retry_bgp bgp w1 cfg vs1 in
      let second = retry_bgp-Moves bgp w1 cfg vs1 (record { in_step = first.in_step }) in
      Moves-effects bgp w w w2 _ cfg vs2 refl
        (notifier-emit_result cfg v (effective_name c.cfg) c r w2) (Moves-trans bgp first second)

  entry_result-Moves :
      (env : Env) (w : World N) (entry : VipEntry P) (v name : String) (r : Result)
      → IsInStep bgp w entry.cfg entry.state
      → Moves bgp w
          (entry_result lang bgp env w entry v name r).0
          entry.cfg
          (entry_result lang bgp env w entry v name r).1
  unfolding entry_result
  entry_result-Moves env w entry v name r h =
      elim (Option-cases (resolve_check name entry.state.checks)) [
        | inl missing ↦ rw (missing, entry_result) (Moves-rest bgp w entry.cfg entry.state h)
        | inr ((key, c), found) ↦
            rw (found, entry_result) (result_arrived-Moves env w entry v key c r h)
      ]

  -- OnCheckResult, for any VIP and check, known or not, keeps the manager in step with its routes,
  -- whether the policy is evaluated again, an operation that failed is retried, or neither.
  pub on_check_result-IsSynced :
      (env : Env) (m : Manager N P) (v name : String) (r : Result)
      → IsSynced bgp m
      → IsSynced bgp (on_check_result lang bgp env m v name r)
  unfolding on_check_result
  on_check_result-IsSynced env m v name r s = elim (Option-cases (lookup v m.vips)) [
    | inl missing ↦ rw (missing, on_check_result) s
    | inr (entry, found) ↦
        rw (found, on_check_result)
          (store-IsSynced bgp m v entry entry _ _ s found refl
            (entry_result-Moves env m.world entry v name r (entry-IsInStep bgp m v entry s found)))
  ]
