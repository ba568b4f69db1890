-- ===== src/Policy/Verdict/Events.antt =====
-- The handlers of the checks' events leave every VIP in the state that its checks call for.
use pathosd.Common.{
  String, ◌≡◌, refl, sym, ℕ, ◌∙◌, Bool, not, some, arith, Bool-cases, Option-cases, inl, inr, ◌&&◌,
}
use pathosd.Common.Dict.{lookup, insert}
use pathosd.Config.Vip.{VipConfig}
use pathosd.Config.ChecksPolicy.{ExprLang}
use pathosd.Model.State.{VipState, unknown, healthy}
use pathosd.Checks.Result.{Result, HealthTransition}
use pathosd.Policy.Engine.{evaluate}
use pathosd.Policy.Notifier.{Notifier}
use pathosd.Policy.State.{
  Env, CheckState, VipStatus, VipEntry, World, Manager, same_state, same_state-eq, same_health,
  same_health-eq,
}
use pathosd.Policy.Manager.{
  push_state, transition_state, retry_bgp, combine_health, resolve_check,
  lower_priority_file_present,
}
use pathosd.Policy.Handlers.{
  health_changed, entry_transition, on_health_transition, reevaluate, result_arrived, entry_result,
  on_check_result,
}
use pathosd.Policy.Verdict.{IsEvaluated, AllVips, store-AllVips}
use pathosd.Policy.Verdict.Checks.{combine_health-insert, resolve_check-lookup}

-- The parts of the status that the invariant reads.
pub record Agrees (a b : VipStatus) : Type 0 where
  pub state : a.state ≡ b.state
  pub health : a.health ≡ b.health
  pub checks : a.checks ≡ b.checks
  pub file : a.lower_priority_file_on ≡ b.lower_priority_file_on

module _ {N R : Type 0} (bgp : Notifier N R) where
  pub push_state-Agrees :
      (w : World N) (cfg : VipConfig) (vs : VipStatus) → Agrees (push_state bgp w cfg vs).1 vs
  unfolding push_state
  push_state-Agrees w cfg vs = ground arith

  -- A transition ends in the state that it is asked for, and changes nothing else that matters.
  pub transition_state-Agrees :
      (env : Env) (w : World N) (cfg : VipConfig) (vs : VipStatus) (st : VipState) (reason : String)
      → Agrees (transition_state bgp env w cfg vs st reason).1 (record vs { state = st })
  unfolding transition_state push_state
  transition_state-Agrees env w cfg vs st reason = ground (arith, same_state-eq st vs.state)

  retry_bgp-Agrees :
      (w : World N) (cfg : VipConfig) (vs : VipStatus) → Agrees (retry_bgp bgp w cfg vs).1 vs
  unfolding retry_bgp
  retry_bgp-Agrees w cfg vs = ground arith

module _ {P : Type 0} (lang : ExprLang P) where
  pub IsEvaluated-Agrees :
      (e : VipEntry P) (vs : VipStatus)
      → IsEvaluated lang e
      → Agrees vs e.state
      → IsEvaluated lang (record e { state = vs })
  IsEvaluated-Agrees e vs i a = record {
    combined = rw (a.health, a.checks) i.combined;
    decided = rw (a.health, a.state, a.file) i.decided;
  }

  IsEvaluated-result :
      (e : VipEntry P) (key name : String) (c : CheckState) (r : Result) (now : ℕ)
      → IsEvaluated lang e
      → resolve_check name e.state.checks ≡ some (key, c)
      → e.state.health
        ≡ combine_health lang e.eval
            (insert key (record c { last_result = r; last_time = now }) e.state.checks)
  IsEvaluated-result e key name c r now i h =
      i.combined
      ∙ sym (
          combine_health-insert lang e.eval key c (record c { last_result = r; last_time = now })
            e.state.checks (resolve_check-lookup name key c e.state.checks h) refl)

  module _ {N R : Type 0} (bgp : Notifier N R) where
    -- A transition into the state that the policy gives leaves the VIP evaluated.
    pub transition-IsEvaluated :
        (env : Env) (w : World N) (e : VipEntry P) (vs : VipStatus) (reason : String)
        → vs.health ≡ combine_health lang e.eval vs.checks
        → IsEvaluated lang (record e {
          state =
              (transition_state bgp env w e.cfg vs
                (evaluate (same_health vs.health healthy) vs.lower_priority_file_on e.cfg.policy)
                reason).1;
        })
    transition-IsEvaluated env w e vs reason h =
        let st = evaluate (same_health vs.health healthy) vs.lower_priority_file_on e.cfg.policy in
        let a = transition_state-Agrees bgp env w e.cfg vs st reason in
        record {
          combined = rw (a.health, a.checks) h;
          decided = λ known. rw (a.health, a.state, a.file) refl;
        }

    health_changed-IsEvaluated :
        (env : Env) (w : World N) (e : VipEntry P) (vs : VipStatus) (t : HealthTransition)
        → IsEvaluated lang e
        → vs.health ≡ e.state.health
        → vs.state ≡ e.state.state
        → vs.lower_priority_file_on ≡ e.state.lower_priority_file_on
        → IsEvaluated lang (record e { state = (health_changed lang bgp env w e vs t).1 })
    unfolding health_changed
    health_changed-IsEvaluated env w e vs t i a b c =
        let new = combine_health lang e.eval vs.checks in
        elim (Bool-cases (same_health new vs.health)) [
          | inl same ↦ rw same (record {
            combined = sym (same_health-eq new vs.health same);
            decided = rw (a, b, c) i.decided;
          })
          | inr change ↦
              let present = lower_priority_file_present env e.cfg.policy.lower_priority_file in
              rw change (
                transition-IsEvaluated env w e
                  (record vs { health = new; lower_priority_file_on = present }) _ refl)
        ]

    entry_transition-IsEvaluated :
        (env : Env) (w : World N) (e : VipEntry P) (t : HealthTransition)
        → IsEvaluated lang e
        → IsEvaluated lang (record e { state = (entry_transition lang bgp env w e t).1 })
    unfolding entry_transition
    entry_transition-IsEvaluated env w e t i =
        elim (Option-cases (resolve_check t.check_name e.state.checks)) [
          | inl missing ↦ rw (missing, entry_transition) i
          | inr ((key, c), found) ↦
              rw (found, entry_transition) (health_changed-IsEvaluated env w e _ t i refl refl refl)
        ]

    -- OnHealthTransition keeps every VIP evaluated: its health is the combination of its checks' health
    -- by its checks policy, and its state, once that is known, is what the policy gives for it and for
    -- the lower_priority file as last found.
    pub on_health_transition-IsEvaluated :
        (env : Env) (m : Manager N P) (t : HealthTransition)
        → AllVips lang (IsEvaluated lang) m
        → AllVips lang (IsEvaluated lang) (on_health_transition lang bgp env m t)
    unfolding on_health_transition
    on_health_transition-IsEvaluated env m t all = elim (Option-cases (lookup t.vip_name m.vips)) [
      | inl missing ↦ rw (missing, on_health_transition) all
      | inr (e, found) ↦
          rw (found, on_health_transition)
            (store-AllVips lang (IsEvaluated lang) m t.vip_name e
              (entry_transition lang bgp env m.world e t).0 _ all
              (entry_transition-IsEvaluated env m.world e t (all t.vip_name e found)))
    ]

    reevaluate-IsEvaluated :
        (env : Env) (w : World N) (e : VipEntry P) (vs : VipStatus) (changed : Bool)
        → vs.health ≡ combine_health lang e.eval vs.checks
        → IsEvaluated lang (record e { state = (reevaluate lang bgp env w e.cfg vs changed).1 })
    unfolding reevaluate
    reevaluate-IsEvaluated env w e vs changed h =
        let new = evaluate (same_health vs.health healthy) vs.lower_priority_file_on e.cfg.policy in
        elim (Bool-cases (not (same_health vs.health unknown) && not (same_state new vs.state))) [
          | inl due ↦ rw due (transition-IsEvaluated env w e vs _ h)
          | inr idle ↦ rw idle (record {
            combined = h;
            decided = λ known. ground (arith, same_state-eq new vs.state);
          })
        ]

    result_arrived-IsEvaluated :
        (env : Env) (w : World N) (e : VipEntry P) (v key name : String) (c : CheckState)
        (r : Result)
        → IsEvaluated lang e
        → resolve_check name e.state.checks ≡ some (key, c)
        → IsEvaluated lang (record e { state = (result_arrived lang bgp env w e v key c r).1 })
    unfolding result_arrived
    result_arrived-IsEvaluated env w e v key name c r i found =
        let first =
          reevaluate-IsEvaluated env w e _ _ (IsEvaluated-result e key name c r env.now i found) in
        IsEvaluated-Agrees _ _ first (retry_bgp-Agrees bgp _ e.cfg _)

    entry_result-IsEvaluated :
        (env : Env) (w : World N) (e : VipEntry P) (v name : String) (r : Result)
        → IsEvaluated lang e
        → IsEvaluated lang (record e { state = (entry_result lang bgp env w e v name r).1 })
    unfolding entry_result
    entry_result-IsEvaluated env w e v name r i =
        elim (Option-cases (resolve_check name e.state.checks)) [
          | inl missing ↦ rw (missing, entry_result) i
          | inr ((key, c), found) ↦
              rw (found, entry_result) (result_arrived-IsEvaluated env w e v key name c r i found)
        ]

    -- OnCheckResult keeps every VIP evaluated: its health is the combination of its checks' health by
    -- its checks policy, and its state, once that is known, is what the policy gives for it and for the
    -- lower_priority file as last found.
    pub on_check_result-IsEvaluated :
        (env : Env) (m : Manager N P) (v name : String) (r : Result)
        → AllVips lang (IsEvaluated lang) m
        → AllVips lang (IsEvaluated lang) (on_check_result lang bgp env m v name r)
    unfolding on_check_result
    on_check_result-IsEvaluated env m v name r all = elim (Option-cases (lookup v m.vips)) [
      | inl missing ↦ rw (missing, on_check_result) all
      | inr (e, found) ↦
          rw (found, on_check_result)
            (store-AllVips lang (IsEvaluated lang) m v e
              (entry_result lang bgp env m.world e v name r).0 _ all
              (entry_result-IsEvaluated env m.world e v name r (all v e found)))
    ]
