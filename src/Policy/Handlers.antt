-- ===== src/Policy/Handlers.antt =====
-- internal/policy/manager.go: NewManager and the handlers of the checks' events.
use pathosd.Common.{
  String, Bool, false, not, Option, none, some, List, [], ◌∷◌, ◌++◌, ◌&&◌, ◌==◌, length, ltb,
  append, if◌then◌else◌,
}
use pathosd.Common.Dict.{Dict, lookup, insert}
use pathosd.Config.Checks.{effective_name}
use pathosd.Config.Vip.{VipConfig}
use pathosd.Config.ChecksPolicy.{ExprLang, eval}
use pathosd.Model.State.{unknown, healthy, unhealthy}
use pathosd.Checks.Result.{Result, HealthTransition}
use pathosd.Policy.Engine.{evaluate}
use pathosd.Policy.Notifier.{Notifier}
use pathosd.Policy.State.{
  check_last_result, check_total, check_duration, check_timeout, check_details, Env, CheckState,
  VipStatus, VipEntry, World, Manager, emit, same_state, same_health,
}
use pathosd.Policy.Manager.{
  lower_priority_file_present, resolve_check, combine_health, new_vip_entry, emit_registered,
  transition_state, retry_bgp,
}

-- Puts back what a handler made of one entry.
abbrev pub store :
    {N P : Type 0} → Manager N P → String → VipEntry P → World N × VipStatus → Manager N P
store m name entry (w, vs) = record m {
  vips = insert name (record entry { state = vs }) m.vips;
  world = w;
}

abbrev pub with_check : VipStatus → String → CheckState → VipStatus
with_check vs key c = record vs { checks = insert key c vs.checks }

module _ {P : Type 0} (lang : ExprLang P) where
  unfoldable pub register_all : {N : Type 0} → Env → List VipConfig → Manager N P → Manager N P
  register_all env [] m = m
  register_all env (v ∷ vs) m = register_all env vs (record {
    vips = insert v.name (new_vip_entry lang env v) m.vips;
    order = m.order ++ v.name ∷ [];
    world = emit_registered v m.world;
  })

  -- func NewManager
  unfoldable pub new_manager : {N : Type 0} → Env → List VipConfig → Option N → Manager N P
  unfolding register_all
  new_manager env vip_configs notifier = register_all env vip_configs (record {
    vips = [];
    order = [];
    world = record { notifier = notifier; has_listener = false; effects = [] };
  })

  -- func (m *Manager) CombineChecks; `none` for an unknown VIP
  unfoldable pub combine_checks : {N : Type 0} → Manager N P → String → Dict Bool → Option Bool
  combine_checks m vip_name health = elim (lookup vip_name m.vips) [
    | none ↦ none
    | some entry ↦ some (eval lang entry.eval health)
  ]

  module _ {N R : Type 0} (bgp : Notifier N R) where
    -- OnHealthTransition once the VIP and the check are found
    unfoldable pub health_changed :
        Env → World N → VipEntry P → VipStatus → HealthTransition → World N × VipStatus
    health_changed env w entry vs t =
        let combined = combine_health lang entry.eval vs.checks in
        let reason =
          if ltb 1 (length vs.checks)
          then append t.check_name (append ": " t.reason)
          else t.reason in
        if same_health combined vs.health
        then (w, vs)
        else let present = lower_priority_file_present env entry.cfg.policy.lower_priority_file in
          transition_state bgp env w entry.cfg
            (record vs { health = combined; lower_priority_file_on = present })
            (evaluate (same_health combined healthy) present entry.cfg.policy) reason

    unfoldable pub entry_transition :
        Env → World N → VipEntry P → HealthTransition → World N × VipStatus
    entry_transition env w entry t = elim (resolve_check t.check_name entry.state.checks) [
      | none ↦ (w, entry.state)
      | some (key, c) ↦
          health_changed env w entry
            (with_check entry.state key
              (record c { health = if t.healthy then healthy else unhealthy }))
            t
    ]

    -- func (m *Manager) OnHealthTransition
    unfoldable pub on_health_transition : Env → Manager N P → HealthTransition → Manager N P
    on_health_transition env m t = elim (lookup t.vip_name m.vips) [
      | none ↦ m
      | some entry ↦ store m t.vip_name entry (entry_transition env m.world entry t)
    ]

    unfoldable pub file_reason : Bool → Bool → String → String
    file_reason file_changed present path =
        if file_changed && not (path == "")
        then (if present then "lower_priority_file created" else "lower_priority_file removed")
        else "policy reevaluation"

    -- the reevaluation of the policy in OnCheckResult
    unfoldable pub reevaluate : Env → World N → VipConfig → VipStatus → Bool → World N × VipStatus
    reevaluate env w cfg vs file_changed =
        let present = vs.lower_priority_file_on in
        let new_state = evaluate (same_health vs.health healthy) present cfg.policy in
        if not (same_health vs.health unknown) && not (same_state new_state vs.state)
        then transition_state bgp env w cfg vs new_state
            (file_reason file_changed present cfg.policy.lower_priority_file)
        else (w, vs)

    unfoldable pub emit_result :
        VipConfig → String → CheckState → String → Result → World N → World N
    emit_result cfg vip_name c check_name r w =
        let w1 = emit (check_last_result vip_name cfg.prefix check_name r.success) w in
        let w2 = emit (check_total vip_name cfg.prefix check_name c.cfg.type r.success) w1 in
        let w3 = emit (check_duration vip_name cfg.prefix check_name c.cfg.type r.duration) w2 in
        let w4 =
          if r.timed_out then emit (check_timeout vip_name cfg.prefix check_name) w3 else w3 in
        if c.cfg.detailed_metrics
        then emit (check_details vip_name cfg.prefix check_name r.details) w4
        else w4

    -- OnCheckResult once the VIP and the check are found
    unfoldable pub result_arrived :
        Env → World N → VipEntry P → String → String → CheckState → Result → World N × VipStatus
    result_arrived env w entry vip_name key c r =
        let cfg = entry.cfg in
        let present = lower_priority_file_present env cfg.policy.lower_priority_file in
        let vs =
          record (with_check entry.state key (record c { last_result = r; last_time = env.now })) {
            lower_priority_file_on = present;
          } in
        let (w1, vs1) = reevaluate env w cfg vs (
          if present
          then not entry.state.lower_priority_file_on
          else entry.state.lower_priority_file_on) in
        let (w2, vs2) = retry_bgp bgp w1 cfg vs1 in
        (emit_result cfg vip_name c (effective_name c.cfg) r w2, vs2)

    unfoldable pub entry_result :
        Env → World N → VipEntry P → String → String → Result → World N × VipStatus
    entry_result env w entry vip_name check_name r =
        elim (resolve_check check_name entry.state.checks) [
          | none ↦ (w, entry.state)
          | some (key, c) ↦ result_arrived env w entry vip_name key c r
        ]

    -- func (m *Manager) OnCheckResult
    unfoldable pub on_check_result : Env → Manager N P → String → String → Result → Manager N P
    on_check_result env m vip_name check_name r = elim (lookup vip_name m.vips) [
      | none ↦ m
      | some entry ↦ store m vip_name entry (entry_result env m.world entry vip_name check_name r)
    ]
