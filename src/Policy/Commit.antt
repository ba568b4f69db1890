-- ===== src/Policy/Commit.antt =====
-- internal/policy/reload.go: how a config reload changes the VIPs of the manager.
use pathosd.Common.{
  ℕ, String, Bool, true, false, not, Option, none, some, List, [], ◌∷◌, ◌++◌, ◌&&◌, ◌||◌, ◌==◌, map,
  delete_first, if◌then◌else◌, nat_eq,
}
use pathosd.Common.Int.{pos_part, neg_part}
use pathosd.Common.Dict.{Dict, lookup, insert, delete, member}
use pathosd.Config.Checks.{CheckConfig, effective_name}
use pathosd.Config.Vip.{VipConfig, check_list, effective_checks_policy}
use pathosd.Config.ChecksPolicy.{ExprLang, ChecksEvaluator, compile_checks_policy}
use pathosd.Model.State.{withdrawn, HealthStatus, unknown, healthy, RouteAttrs}
use pathosd.Checks.Result.{Result}
use pathosd.Policy.Engine.{evaluate, route_attrs_for, priority_for}
use pathosd.Policy.Notifier.{Notifier}
use pathosd.Policy.State.{
  vip_priority, delete_vip_series, delete_check_series, Env, CheckState, VipStatus, VipEntry, World,
  Manager, emit, same_state, same_health,
}
use pathosd.Policy.Manager.{
  lower_priority_file_present, combine_health, new_vip_entry, emit_registered, transition_state,
  push_state,
}
use pathosd.Policy.Handlers.{store}

-- type CheckSeed
pub record CheckSeed : Type 0 where
  pub health : HealthStatus
  pub last_result : Result
  pub last_time : ℕ

-- The errors of RemoveVIP and CommitVIP.
pub data CommitError : Type 0 where
  withdraw_failed unknown_vip prefix_changed no_state_nor_seed bad_policy : CommitError

-- func (m *Manager) AddVIP
unfoldable pub add_vip : {N P : Type 0} → ExprLang P → Env → Manager N P → VipConfig → Manager N P
add_vip lang env m cfg = if member cfg.name m.vips then m else record {
  vips = insert cfg.name (new_vip_entry lang env cfg) m.vips;
  order = m.order ++ cfg.name ∷ [];
  world = emit_registered cfg m.world;
}

-- func (m *Manager) VIPNames
unfoldable pub vip_names : {N P : Type 0} → Manager N P → List String
vip_names m = m.order

unfoldable pub same_texts : List String → List String → Bool
same_texts [] [] = true
same_texts (s ∷ ss) (t ∷ ts) = s == t && same_texts ss ts
same_texts _ _ = false

-- reflect.DeepEqual on two results of RouteAttrsFor, whose empty lists of communities are nil
unfoldable pub same_attrs : RouteAttrs → RouteAttrs → Bool
unfolding same_texts
same_attrs a b =
    nat_eq (pos_part a.as_path_prepend) (pos_part b.as_path_prepend)
    && nat_eq (neg_part a.as_path_prepend) (neg_part b.as_path_prepend)
    && same_texts a.communities b.communities

-- The loop of CommitVIP over the new checks. The running checks are changed in place (`old.cfg = c`),
-- also when the loop fails later on, so they are a result too.
unfoldable pub next_checks :
    List CheckConfig
    → Dict CheckSeed
    → Dict CheckState
    → Dict CheckState
    → Dict CheckState × Option (Dict CheckState)
next_checks [] seeds running next = (running, some next)
next_checks (c ∷ list) seeds running next =
    let name = effective_name c in
    elim (lookup name seeds) [
      | some seed ↦ next_checks list seeds running (
          insert name
            (record {
              cfg = c;
              health = seed.health;
              last_result = seed.last_result;
              last_time = seed.last_time;
            })
            next)
      | none ↦ elim (lookup name running) [
        | some old ↦
            next_checks list seeds (insert name (record old { cfg = c }) running)
              (insert name (record old { cfg = c }) next)
        | none ↦ (running, none)
      ]
    ]

-- the series of the checks that are dropped
unfoldable pub emit_dropped :
    {N : Type 0} → String → Dict CheckState → Dict CheckState → World N → World N
emit_dropped vip_name [] next w = w
emit_dropped vip_name ((name, c) ∷ running) next w =
    emit_dropped vip_name running next
      (if member name next then w else emit (delete_check_series vip_name name) w)

module _ {N R P : Type 0} (lang : ExprLang P) (bgp : Notifier N R) where
  unfoldable pub forget_vip : Manager N P → String → World N → Manager N P
  forget_vip m name w = record {
    vips = delete name m.vips;
    order = delete_first name m.order;
    world = emit (delete_vip_series name) w;
  }

  unfoldable pub remove_entry : Manager N P → String → VipEntry P → Manager N P × Option CommitError
  unfolding forget_vip
  remove_entry m name entry =
      if same_state entry.state.state withdrawn
      then (forget_vip m name m.world, none)
      else elim m.world.notifier [
        | none ↦ (forget_vip m name m.world, none)
        | some n ↦
            let (n', ok) = bgp.withdraw_vip n entry.cfg.prefix in
            let w = record m.world { notifier = some n' } in
            if ok
            then (forget_vip m name w, none)
            else (record m { world = w }, some withdraw_failed)
      ]

  -- func (m *Manager) RemoveVIP
  unfoldable pub remove_vip : Manager N P → String → Manager N P × Option CommitError
  remove_vip m name = elim (lookup name m.vips) [
    | none ↦ (m, none)
    | some entry ↦ remove_entry m name entry
  ]

  -- The end of CommitVIP: the same state, maybe new attributes.
  unfoldable pub reoriginate : World N → RouteAttrs → VipConfig → VipStatus → World N × VipStatus
  reoriginate w old_attrs cfg vs =
      if not (same_state vs.state withdrawn)
        && (vs.bgp_pending || not (same_attrs old_attrs (route_attrs_for cfg.policy vs.state)))
      then push_state bgp w cfg vs
      else (w, vs)

  -- CommitVIP from the new health on
  unfoldable pub settle : Env → World N → RouteAttrs → VipConfig → VipStatus → World N × VipStatus
  settle env w old_attrs cfg vs =
      if same_health vs.health unknown
      then (w, vs)
      else let present = lower_priority_file_present env cfg.policy.lower_priority_file in
        let vs1 = record vs { lower_priority_file_on = present } in
        let new_state = evaluate (same_health vs.health healthy) present cfg.policy in
        if same_state new_state vs.state
        then reoriginate w old_attrs cfg vs1
        else transition_state bgp env w cfg vs1 new_state "config reload"

  -- CommitVIP once the checks and the policy are known to be good
  unfoldable pub switch_entry :
      Env
      → Manager N P
      → VipEntry P
      → VipConfig
      → Dict CheckState
      → ChecksEvaluator P
      → World N
      → Manager N P
  switch_entry env m entry cfg next ev w =
      let old_attrs = route_attrs_for entry.cfg.policy entry.state.state in
      let vs = record entry.state { checks = next; health = combine_health lang ev next } in
      let w1 = emit (vip_priority cfg.name cfg.prefix (priority_for cfg.policy vs.state)) w in
      store m cfg.name (record entry { cfg = cfg; eval = ev }) (settle env w1 old_attrs cfg vs)

  unfoldable pub with_running :
      Manager N P → VipEntry P → VipConfig → Dict CheckState → World N → Manager N P
  with_running m entry cfg running w =
      store m cfg.name entry (w, record entry.state { checks = running })

  unfoldable pub commit_checked :
      Env
      → Manager N P
      → VipEntry P
      → VipConfig
      → Dict CheckState
      → Dict CheckState
      → Manager N P × Option CommitError
  commit_checked env m entry cfg running next =
      let w = emit_dropped cfg.name running next m.world in
      elim (compile_checks_policy lang (effective_checks_policy cfg)
        (map effective_name (check_list cfg))) [
          | none ↦ (with_running m entry cfg running w, some bad_policy)
          | some ev ↦ (switch_entry env m entry cfg next ev w, none)
        ]

  unfoldable pub commit_entry :
      Env → Manager N P → VipEntry P → VipConfig → Dict CheckSeed → Manager N P × Option CommitError
  commit_entry env m entry cfg seeds =
      if not (entry.cfg.prefix == cfg.prefix)
      then (m, some prefix_changed)
      else let (running, result) = next_checks (check_list cfg) seeds entry.state.checks [] in
        elim result [
          | none ↦ (with_running m entry cfg running m.world, some no_state_nor_seed)
          | some next ↦ commit_checked env m entry cfg running next
        ]

  -- func (m *Manager) CommitVIP
  unfoldable pub commit_vip :
      Env → Manager N P → VipConfig → Dict CheckSeed → Manager N P × Option CommitError
  commit_vip env m cfg seeds = elim (lookup cfg.name m.vips) [
    | none ↦ (m, some unknown_vip)
    | some entry ↦ commit_entry env m entry cfg seeds
  ]
