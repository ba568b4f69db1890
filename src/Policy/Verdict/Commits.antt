-- ===== src/Policy/Verdict/Commits.antt =====
-- CommitVIP and the state that the checks call for.
use pathosd.Common.{
  ◌≡◌, refl, sym, ◌∙◌, true, none, some, List, [], ◌∷◌, map, arith, ◌==◌, Bool-cases, Option-cases,
  inl, inr,
}
use pathosd.Common.Dict.{Dict, lookup, lookup-insert_self}
use pathosd.Config.Checks.{CheckConfig, effective_name}
use pathosd.Config.Vip.{VipConfig, check_list, effective_checks_policy}
use pathosd.Config.ChecksPolicy.{ExprLang, ChecksEvaluator, compile_checks_policy}
use pathosd.Model.State.{unknown, healthy, RouteAttrs}
use pathosd.Policy.Engine.{evaluate, route_attrs_for, priority_for}
use pathosd.Policy.Notifier.{Notifier}
use pathosd.Policy.State.{
  Env, CheckState, VipStatus, VipEntry, World, Manager, same_state, same_state-eq, same_health,
  emit, vip_priority,
}
use pathosd.Policy.Manager.{combine_health, lower_priority_file_present}
use pathosd.Policy.Commit.{
  CheckSeed, commit_vip, commit_entry, commit_checked, with_running, switch_entry, settle,
  reoriginate, next_checks,
}
use pathosd.Policy.Sync.Switch.{notifier-emit_dropped}
use pathosd.Policy.Verdict.{IsEvaluated, AllVips, store-AllVips}
use pathosd.Policy.Verdict.Committed.{Commits, commit_vip-Commits}
use pathosd.Policy.Verdict.Checks.{combine_health-insert}
use pathosd.Policy.Verdict.Events.{
  Agrees, push_state-Agrees, transition-IsEvaluated, IsEvaluated-Agrees,
}

module _ {P : Type 0} (lang : ExprLang P) where
  -- The running checks keep their health while the next ones are collected.
  next_checks-running :
      (ev : ChecksEvaluator P) (list : List CheckConfig) (seeds : Dict CheckSeed)
      (running next : Dict CheckState)
      → combine_health lang ev (next_checks list seeds running next).0
        ≡ combine_health lang ev running
  unfolding next_checks
  next_checks-running ev [] seeds running next = refl
  next_checks-running ev (c ∷ list) seeds running next =
      elim (Option-cases (lookup (effective_name c) seeds)) [
        | inr (seed, seeded) ↦
            rw (seeded, next_checks) (next_checks-running ev list seeds running _)
        | inl unseeded ↦ elim (Option-cases (lookup (effective_name c) running)) [
          | inl missing ↦ rw (unseeded, missing, next_checks) refl
          | inr (old, found) ↦
              rw (unseeded, found, next_checks)
                (next_checks-running ev list seeds _ _
                  ∙ combine_health-insert lang ev (effective_name c) old (record old { cfg = c })
                      running found refl)
        ]
      ]

  with_running-IsEvaluated :
      {N R : Type 0} (bgp : Notifier N R) (m : Manager N P) (e : VipEntry P) (cfg : VipConfig)
      (seeds : Dict CheckSeed) (w : World N)
      → AllVips lang (IsEvaluated lang) m
      → IsEvaluated lang e
      → AllVips lang
          (IsEvaluated lang)
          (with_running lang bgp m e cfg (next_checks (check_list cfg) seeds e.state.checks []).0 w)
  unfolding with_running
  with_running-IsEvaluated bgp m e cfg seeds w all i =
      store-AllVips lang (IsEvaluated lang) m cfg.name e w _ all (record {
        combined =
            i.combined ∙ sym (next_checks-running e.eval (check_list cfg) seeds e.state.checks []);
        decided = i.decided;
      })

  module _ {N R : Type 0} (bgp : Notifier N R) where
    reoriginate-Agrees :
        (w : World N) (a : RouteAttrs) (cfg : VipConfig) (vs : VipStatus)
        → Agrees (reoriginate lang bgp w a cfg vs).1 vs
    unfolding reoriginate
    reoriginate-Agrees w a cfg vs = ground (arith, push_state-Agrees bgp w cfg vs)

    settle-IsEvaluated :
        (env : Env) (w : World N) (a : RouteAttrs) (e : VipEntry P) (vs : VipStatus)
        → vs.health ≡ combine_health lang e.eval vs.checks
        → IsEvaluated lang (record e { state = (settle lang bgp env w a e.cfg vs).1 })
    unfolding settle
    settle-IsEvaluated env w a e vs h =
        let present = lower_priority_file_present env e.cfg.policy.lower_priority_file in
        let new = evaluate (same_health vs.health healthy) present e.cfg.policy in
        elim (Bool-cases (same_health vs.health unknown)) [
          | inl none_yet ↦ rw none_yet (record { combined = h; decided = λ known. cc })
          | inr known ↦ rw known (elim (Bool-cases (same_state new vs.state)) [
            | inl same ↦ rw same (
                IsEvaluated-Agrees lang
                  (record e { state = record vs { lower_priority_file_on = present } }) _
                  (record { combined = h; decided = λ _. sym (same_state-eq new vs.state same) })
                  (reoriginate-Agrees w a e.cfg (record vs { lower_priority_file_on = present })))
            | inr change ↦ rw change (
                transition-IsEvaluated lang bgp env w e
                  (record vs { lower_priority_file_on = present }) _ h)
          ])
        ]

    switch_entry-IsEvaluated :
        (env : Env) (m : Manager N P) (e : VipEntry P) (cfg : VipConfig) (next : Dict CheckState)
        (ev : ChecksEvaluator P) (w : World N)
        → AllVips lang (IsEvaluated lang) m
        → AllVips lang (IsEvaluated lang) (switch_entry lang bgp env m e cfg next ev w)
    unfolding switch_entry
    switch_entry-IsEvaluated env m e cfg next ev w all =
        let vs = record e.state { checks = next; health = combine_health lang ev next } in
        let w1 = emit (vip_priority cfg.name cfg.prefix (priority_for cfg.policy vs.state)) w in
        let a = route_attrs_for e.cfg.policy e.state.state in
        store-AllVips lang (IsEvaluated lang) m cfg.name (record e { cfg = cfg; eval = ev })
          (settle lang bgp env w1 a cfg vs).0 (settle lang bgp env w1 a cfg vs).1 all
          (settle-IsEvaluated env w1 a (record e { cfg = cfg; eval = ev }) vs refl)

    commit_entry-IsEvaluated :
        (env : Env) (m : Manager N P) (e : VipEntry P) (cfg : VipConfig) (seeds : Dict CheckSeed)
        → AllVips lang (IsEvaluated lang) m
        → IsEvaluated lang e
        → AllVips lang (IsEvaluated lang) (commit_entry lang bgp env m e cfg seeds).0
    unfolding commit_entry commit_checked
    commit_entry-IsEvaluated env m e cfg seeds all i =
        elim (Bool-cases (e.cfg.prefix == cfg.prefix)) [
          | inr other ↦ rw other all
          | inl same ↦
              rw same
                (elim (Option-cases (next_checks (check_list cfg) seeds e.state.checks []).1) [
                  | inl missing ↦
                      rw (missing, commit_entry)
                        (with_running-IsEvaluated bgp m e cfg seeds m.world all i)
                  | inr (next, ready) ↦
                      rw (ready, commit_entry)
                        (elim (Option-cases (
                          compile_checks_policy lang (effective_checks_policy cfg)
                            (map effective_name (check_list cfg)))) [
                              | inl bad ↦
                                  rw (bad, commit_checked)
                                    (with_running-IsEvaluated bgp m e cfg seeds _ all i)
                              | inr (ev, good) ↦
                                  rw (good, commit_checked)
                                    (switch_entry-IsEvaluated env m e cfg next ev _ all)
                            ])
                ])
        ]

    -- CommitVIP keeps every VIP evaluated. If it succeeds, the VIP of its name, of the same prefix, has
    -- the new config and the evaluator that its checks policy compiles to, and every other VIP is as
    -- before. If it returns an error, every VIP has what it had besides its checks, and the notifier is
    -- as before.
    pub commit_vip-IsEvaluated :
        (env : Env) (m : Manager N P) (cfg : VipConfig) (seeds : Dict CheckSeed)
        → AllVips lang (IsEvaluated lang) m
        → AllVips lang (IsEvaluated lang) (commit_vip lang bgp env m cfg seeds).0
          × Commits lang m cfg (commit_vip lang bgp env m cfg seeds)
    unfolding commit_vip
    commit_vip-IsEvaluated env m cfg seeds all = (
      elim (Option-cases (lookup cfg.name m.vips)) [
        | inl missing ↦ rw (missing, commit_vip) all
        | inr (e, found) ↦
            rw (found, commit_vip)
              (commit_entry-IsEvaluated env m e cfg seeds all (all cfg.name e found))
      ],
      commit_vip-Commits lang bgp env m cfg seeds,
    )

    -- A commit whose every next check has yet to report succeeds and makes the health of the VIP
    -- unknown, but keeps its state, and every route: a VIP that was announced stays announced.
    pub commit_vip_stuck :
        (env : Env) (m : Manager N P) (e : VipEntry P) (cfg : VipConfig) (seeds : Dict CheckSeed)
        (next : Dict CheckState) (ev : ChecksEvaluator P)
        → lookup cfg.name m.vips ≡ some e
        → (e.cfg.prefix == cfg.prefix) ≡ true
        → (next_checks (check_list cfg) seeds e.state.checks []).1 ≡ some next
        → compile_checks_policy lang
            (effective_checks_policy cfg)
            (map effective_name (check_list cfg))
          ≡ some ev
        → combine_health lang ev next ≡ unknown
        → let m' = (commit_vip lang bgp env m cfg seeds).0 in
          ((commit_vip lang bgp env m cfg seeds).1 ≡ none)
          × (m'.world.notifier ≡ m.world.notifier)
          × (lookup cfg.name m'.vips
              ≡ some (record {
                cfg = cfg;
                eval = ev;
                state = record e.state { checks = next; health = unknown };
              }))
    unfolding commit_vip commit_entry commit_checked switch_entry settle
    commit_vip_stuck env m e cfg seeds next ev found same ready good none_yet =
        rw (found, commit_vip)
          (rw same (
            rw (ready, commit_entry)
              (rw (good, commit_checked)
                (rw none_yet (
                  refl,
                  notifier-emit_dropped lang bgp cfg.name
                      (next_checks (check_list cfg) seeds e.state.checks []).0 next m.world,
                  lookup-insert_self cfg.name _ m.vips,
                )))))
