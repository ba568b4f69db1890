-- ===== src/Policy/Manager.antt =====
-- internal/policy/manager.go: the methods of policy.Manager. Each holds the lock while it changes the
-- state, so each is one step.
use pathosd.Common.{
  String, Bool, false, not, Option, none, some, List, [], ◌∷◌, ◌||◌, ◌==◌, map, get_or,
  if◌then◌else◌,
}
use pathosd.Common.Dict.{Dict, lookup, insert}
use pathosd.Config.Checks.{CheckConfig, effective_name}
use pathosd.Config.Vip.{VipConfig, check_list, checks_policy_all}
use pathosd.Config.ChecksPolicy.{ExprLang, ChecksEvaluator, compile_checks_policy, eval}
use pathosd.Model.State.{
  VipState, withdrawn, announced, pessimized, HealthStatus, unknown, healthy, unhealthy,
}
use pathosd.Checks.Result.{zero_result}
use pathosd.Policy.Engine.{route_attrs_for, priority_for}
use pathosd.Policy.Notifier.{Notifier}
use pathosd.Policy.State.{
  vip_state, vip_priority, vip_transition, vip_last_transition, listener, Env, CheckState,
  VipStatus, VipEntry, World, emit, same_state, same_health,
}

-- func lowerPriorityFilePresent
unfoldable pub lower_priority_file_present : Env → String → Bool
lower_priority_file_present env path = if path == "" then false else env.stat path

abbrev pub is_health : HealthStatus → CheckState → Bool
is_health h c = same_health c.health h

unfoldable pub any_known : Dict CheckState → Bool
any_known [] = false
any_known ((name, c) ∷ cs) = not (is_health unknown c) || any_known cs

unfoldable pub healthy_map : Dict CheckState → Dict Bool
healthy_map [] = []
healthy_map ((name, c) ∷ cs) = (name, is_health healthy c) ∷ healthy_map cs

unfoldable pub initial_checks : List CheckConfig → Dict CheckState → Dict CheckState
initial_checks [] cs = cs
initial_checks (c ∷ list) cs = initial_checks list (
    insert (effective_name c)
      (record { cfg = c; health = unknown; last_result = zero_result; last_time = 0 }) cs)

-- `checks[name]`, or the only check of a VIP with one: the key under which it stands
unfoldable pub resolve_check : String → Dict CheckState → Option (String × CheckState)
resolve_check name cs = elim (lookup name cs) [
  | some c ↦ some (name, c)
  | none ↦ elim cs [ [] ↦ none | only ∷ rest ↦ elim rest [ [] ↦ some only | _ ∷ _ ↦ none ] ]
]

module _ {P : Type 0} (lang : ExprLang P) where
  -- func combineHealth
  unfoldable pub combine_health : ChecksEvaluator P → Dict CheckState → HealthStatus
  unfolding any_known healthy_map
  combine_health ev cs =
      if not (any_known cs)
      then unknown
      else if eval lang ev (healthy_map cs)
      then healthy
      else unhealthy

  -- The second compilation, of "all", cannot fail: it gives the evaluator that is written out here.
  unfoldable pub entry_evaluator : VipConfig → ChecksEvaluator P
  entry_evaluator v =
      let names = map effective_name (check_list v) in
      get_or (compile_checks_policy lang v.checks_policy names)
        (record { policy = checks_policy_all; names = names; program = none })

  -- func newVIPEntry
  unfoldable pub new_vip_entry : Env → VipConfig → VipEntry P
  unfolding entry_evaluator initial_checks
  new_vip_entry env v = record {
    cfg = v;
    eval = entry_evaluator v;
    state = record {
      state = withdrawn;
      health = unknown;
      checks = initial_checks (check_list v) [];
      lower_priority_file_on = lower_priority_file_present env v.policy.lower_priority_file;
      last_transition_at = env.now;
      last_transition_reason = "initial";
      bgp_pending = false;
    };
  }

-- the gauges of a VIP that has just been registered
unfoldable pub emit_registered : {N : Type 0} → VipConfig → World N → World N
emit_registered v w =
    emit (vip_priority v.name v.prefix (priority_for v.policy withdrawn))
      (emit (vip_state v.name v.prefix withdrawn) w)

unfoldable pub emit_transition : {N : Type 0} → Env → VipConfig → VipState → World N → World N
emit_transition env cfg st w =
    emit (vip_priority cfg.name cfg.prefix (priority_for cfg.policy st)) (
      emit (vip_last_transition cfg.name cfg.prefix env.now)
        (emit (vip_transition cfg.name cfg.prefix st) (emit (vip_state cfg.name cfg.prefix st) w)))

-- `if m.onTransition != nil { go m.onTransition() }`
unfoldable pub call_listener : {N : Type 0} → World N → World N
call_listener w = record w { effects = if w.has_listener then listener ∷ w.effects else w.effects }

module _ {N R : Type 0} (bgp : Notifier N R) where
  -- func (m *Manager) applyBGP; the Boolean is whether the error is nil
  unfoldable pub apply_bgp : N → VipConfig → VipState → N × Bool
  apply_bgp n cfg announced = bgp.announce_vip n cfg.prefix (route_attrs_for cfg.policy announced)
  apply_bgp n cfg withdrawn = bgp.withdraw_vip n cfg.prefix
  apply_bgp n cfg pessimized =
      bgp.pessimize_vip n cfg.prefix (route_attrs_for cfg.policy pessimized)

  -- `if m.notifier != nil { vs.bgpPending = m.applyBGP(…) != nil }`
  unfoldable pub push_state : World N → VipConfig → VipStatus → World N × VipStatus
  push_state w cfg vs = elim w.notifier [
    | none ↦ (w, vs)
    | some n ↦
        let (n', ok) = apply_bgp n cfg vs.state in
        (record w { notifier = some n' }, record vs { bgp_pending = not ok })
  ]

  -- func (m *Manager) transitionStateLocked
  unfoldable pub transition_state :
      Env → World N → VipConfig → VipStatus → VipState → String → World N × VipStatus
  unfolding emit_transition call_listener
  transition_state env w cfg vs new_state reason =
      if same_state new_state vs.state
      then (w, vs)
      else let vs1 = record vs {
        state = new_state;
        last_transition_at = env.now;
        last_transition_reason = reason;
      } in
        let (w1, vs2) = push_state (emit_transition env cfg new_state w) cfg vs1 in
        (call_listener w1, vs2)

  -- `if vs.bgpPending && m.notifier != nil { … }`: the retry at the end of OnCheckResult
  unfoldable pub retry_bgp : World N → VipConfig → VipStatus → World N × VipStatus
  retry_bgp w cfg vs = elim w.notifier [
    | none ↦ (w, vs)
    | some n ↦
        if vs.bgp_pending
        then (let (n', ok) = apply_bgp n cfg vs.state in
            (record w { notifier = some n' }, record vs { bgp_pending = not ok }))
        else (w, vs)
  ]
