-- ===== src/Policy/Sync/Switch.antt =====
-- What CommitVIP does to the invariant and to the routes.
use pathosd.Common.{
  String, ◌≡◌, refl, sym, subst, ◌∙◌, ap, true, not, none, some, arith, ◌==◌, eq_iff, if◌then◌else◌,
  Bool-cases, Option-cases, inl, inr, ◌⊎◌, ◌&&◌, ◌||◌, map, [], ◌∷◌,
}
use pathosd.Common.Dict.{Dict, lookup, lookup-insert_self, member}
use pathosd.Config.Checks.{effective_name}
use pathosd.Config.Vip.{VipConfig, check_list, effective_checks_policy}
use pathosd.Config.ChecksPolicy.{ExprLang, ChecksEvaluator, compile_checks_policy}
use pathosd.Model.State.{VipState, withdrawn, announced, pessimized, unknown, healthy, RouteAttrs}
use pathosd.Policy.Engine.{route_attrs_for, evaluate, priority_for}
use pathosd.Policy.Notifier.{Notifier}
use pathosd.Policy.State.{
  Env, CheckState, VipStatus, VipEntry, World, Manager, same_state, same_state-eq, same_health,
  emit, vip_priority, delete_check_series,
}
use pathosd.Policy.Manager.{combine_health, lower_priority_file_present}
use pathosd.Policy.Commit.{
  CheckSeed, commit_vip, commit_entry, commit_checked, with_running, switch_entry, settle,
  reoriginate, same_attrs, next_checks, emit_dropped,
}
use pathosd.Policy.Sync.{
  wanted, IsInStep, Moves, Moves-rest, push_state-Moves, transition_state-Moves_new, Moves-effects,
}
use pathosd.Policy.Sync.Managers.{IsSynced, entry-IsInStep, store-IsSynced}
use pathosd.Policy.Sync.Attrs.{same_attrs-eq}

module _ {N R P : Type 0} (lang : ExprLang P) (bgp : Notifier N R) where
  -- A state calls for one route under two definitions that give it the same attributes.
  wanted-same :
      (a b : VipConfig) (st : VipState)
      → a.prefix ≡ b.prefix
      → (st ≡ withdrawn) ⊎ (route_attrs_for a.policy st ≡ route_attrs_for b.policy st)
      → wanted bgp a st ≡ wanted bgp b st
  wanted-same a b withdrawn p d = refl
  wanted-same a b announced p (inl e) = cc
  wanted-same a b announced p (inr e) = cc
  wanted-same a b pessimized p (inl e) = cc
  wanted-same a b pessimized p (inr e) = cc

  reoriginate-Moves :
      (w : World N) (old cfg : VipConfig) (vs : VipStatus)
      → old.prefix ≡ cfg.prefix
      → IsInStep bgp w old vs
      → Moves bgp w
          (reoriginate lang bgp w (route_attrs_for old.policy vs.state) cfg vs).0
          cfg
          (reoriginate lang bgp w (route_attrs_for old.policy vs.state) cfg vs).1
  unfolding reoriginate
  reoriginate-Moves w old cfg vs p h =
      let new = route_attrs_for cfg.policy vs.state in
      elim (Bool-cases (
        not (same_state vs.state withdrawn)
        && (vs.bgp_pending || not (same_attrs (route_attrs_for old.policy vs.state) new)))) [
          | inl due ↦ rw due (push_state-Moves bgp w cfg vs)
          | inr idle ↦ rw idle (
              Moves-rest bgp w cfg vs (record {
                in_step = λ wired quiet.
                    rw (← p) (h.in_step wired quiet)
                    ∙ wanted-same old cfg vs.state p (
                        ground (
                          arith,
                          same_attrs-eq (route_attrs_for old.policy vs.state) new,
                          same_state-eq vs.state withdrawn,
                        ));
              }))
        ]

  settle-Moves :
      (env : Env) (w : World N) (old cfg : VipConfig) (vs : VipStatus)
      → old.prefix ≡ cfg.prefix
      → IsInStep bgp w old vs
      → (same_health vs.health unknown ≡ true → vs.state ≡ withdrawn)
      → Moves bgp w
          (settle lang bgp env w (route_attrs_for old.policy vs.state) cfg vs).0
          cfg
          (settle lang bgp env w (route_attrs_for old.policy vs.state) cfg vs).1
  unfolding settle
  settle-Moves env w old cfg vs p h known =
      let present = lower_priority_file_present env cfg.policy.lower_priority_file in
      let new = evaluate (same_health vs.health healthy) present cfg.policy in
      elim (Bool-cases (same_health vs.health unknown)) [
        | inl none_yet ↦ rw none_yet (
            Moves-rest bgp w cfg vs (record {
              in_step = λ wired quiet.
                  rw (← p) (h.in_step wired quiet)
                  ∙ wanted-same old cfg vs.state p (inl (known none_yet));
            }))
        | inr reported ↦ rw reported (elim (Bool-cases (same_state new vs.state)) [
          | inl same ↦ rw same (
              reoriginate-Moves w old cfg (record vs { lower_priority_file_on = present }) p
                (record { in_step = h.in_step }))
          | inr change ↦ rw change (transition_state-Moves_new bgp env w cfg _ new _ change)
        ])
      ]

  -- While no check has reported, the state of the VIP stays.
  settle-unknown :
      (env : Env) (w : World N) (a : RouteAttrs) (cfg : VipConfig) (vs : VipStatus)
      → same_health vs.health unknown ≡ true
      → settle lang bgp env w a cfg vs ≡ (w, vs)
  unfolding settle
  settle-unknown env w a cfg vs e = rw e refl

  -- The VIP of this name is withdrawn, or some check of it has reported.
  abbrev pub IsSettled : Manager N P → String → Type 0
  IsSettled m name =
      (e : VipEntry P)
      → lookup name m.vips ≡ some e
      → same_health e.state.health unknown ≡ true
      → e.state.state ≡ withdrawn

  switch_entry-IsSynced :
      (env : Env) (m : Manager N P) (e : VipEntry P) (cfg : VipConfig) (next : Dict CheckState)
      (ev : ChecksEvaluator P) (w : World N)
      → IsSynced bgp m
      → lookup cfg.name m.vips ≡ some e
      → e.cfg.prefix ≡ cfg.prefix
      → w.notifier ≡ m.world.notifier
      → IsSettled (switch_entry lang bgp env m e cfg next ev w) cfg.name
      → IsSynced bgp (switch_entry lang bgp env m e cfg next ev w)
  unfolding switch_entry
  switch_entry-IsSynced env m e cfg next ev w s found p same settled =
      let vs = record e.state { checks = next; health = combine_health lang ev next } in
      let w1 = emit (vip_priority cfg.name cfg.prefix (priority_for cfg.policy vs.state)) w in
      let entry = record e { cfg = cfg; eval = ev } in
      let (w2, vs2) = settle lang bgp env w1 (route_attrs_for e.cfg.policy e.state.state) cfg vs in
      store-IsSynced bgp m cfg.name e entry w2 vs2 s found (sym p) (
        Moves-effects bgp m.world w1 w2 w2 cfg vs2 same refl (
          settle-Moves env w1 e.cfg cfg vs p
            (record { in_step = rw same (entry-IsInStep bgp m cfg.name e s found).in_step })
            (λ none_yet.
              subst (λ (z : VipStatus). same_health z.health unknown ≡ true → z.state ≡ withdrawn)
                (ap (λ (r : World N × VipStatus). r.1)
                  (settle-unknown env w1 (route_attrs_for e.cfg.policy e.state.state) cfg vs
                    none_yet))
                (settled (record entry { state = vs2 })
                  (lookup-insert_self cfg.name (record entry { state = vs2 }) m.vips))
                none_yet)))

  with_running-IsSynced :
      (m : Manager N P) (e : VipEntry P) (cfg : VipConfig) (running : Dict CheckState) (w : World N)
      → IsSynced bgp m
      → lookup cfg.name m.vips ≡ some e
      → w.notifier ≡ m.world.notifier
      → IsSynced bgp (with_running lang bgp m e cfg running w)
  unfolding with_running
  with_running-IsSynced m e cfg running w s found same =
      store-IsSynced bgp m cfg.name e e w (record e.state { checks = running }) s found refl
        (Moves-effects bgp m.world m.world m.world w e.cfg (record e.state { checks = running })
          refl same
          (Moves-rest bgp m.world e.cfg (record e.state { checks = running })
            (record { in_step = (entry-IsInStep bgp m cfg.name e s found).in_step })))

  pub notifier-emit_dropped :
      (name : String) (running next : Dict CheckState) (w : World N)
      → (emit_dropped name running next w).notifier ≡ w.notifier
  unfolding emit_dropped
  notifier-emit_dropped name [] next w = refl
  notifier-emit_dropped name ((k, c) ∷ running) next w = ground (
    arith,
    notifier-emit_dropped name running next
        (if member k next then w else emit (delete_check_series name k) w),
  )

  commit_checked-IsSynced :
      (env : Env) (m : Manager N P) (e : VipEntry P) (cfg : VipConfig)
      (running next : Dict CheckState)
      → IsSynced bgp m
      → lookup cfg.name m.vips ≡ some e
      → e.cfg.prefix ≡ cfg.prefix
      → ((commit_checked lang bgp env m e cfg running next).1 ≡ none
          → IsSettled (commit_checked lang bgp env m e cfg running next).0 cfg.name)
      → IsSynced bgp (commit_checked lang bgp env m e cfg running next).0
  unfolding commit_checked
  commit_checked-IsSynced env m e cfg running next s found p =
      let w = emit_dropped cfg.name running next m.world in
      let kept = notifier-emit_dropped cfg.name running next m.world in
      elim (Option-cases (
        compile_checks_policy lang (effective_checks_policy cfg)
          (map effective_name (check_list cfg)))) [
            | inl bad ↦
                rw (bad, commit_checked)
                  (λ settled. with_running-IsSynced m e cfg running w s found kept)
            | inr (ev, good) ↦
                rw (good, commit_checked)
                  (λ settled.
                    switch_entry-IsSynced env m e cfg next ev w s found p kept (settled refl))
          ]

  commit_entry-IsSynced :
      (env : Env) (m : Manager N P) (e : VipEntry P) (cfg : VipConfig) (seeds : Dict CheckSeed)
      → IsSynced bgp m
      → lookup cfg.name m.vips ≡ some e
      → ((commit_entry lang bgp env m e cfg seeds).1 ≡ none
          → IsSettled (commit_entry lang bgp env m e cfg seeds).0 cfg.name)
      → IsSynced bgp (commit_entry lang bgp env m e cfg seeds).0
  unfolding commit_entry
  commit_entry-IsSynced env m e cfg seeds s found = elim (Bool-cases (e.cfg.prefix == cfg.prefix)) [
    | inr other ↦ rw other (λ settled. s)
    | inl same ↦
        rw same (elim (Option-cases (next_checks (check_list cfg) seeds e.state.checks []).1) [
          | inl missing ↦
              rw (missing, commit_entry)
                (λ settled. with_running-IsSynced m e cfg _ m.world s found refl)
          | inr (next, ready) ↦
              rw (ready, commit_entry)
                (commit_checked-IsSynced env m e cfg _ next s found
                  ((eq_iff e.cfg.prefix cfg.prefix).0 same))
        ])
  ]

  -- CommitVIP keeps every VIP in step with its route, whether it returns an error or succeeds, provided
  -- that after a success the VIP is withdrawn or its health is known.
  pub commit_vip-IsSynced :
      (env : Env) (m : Manager N P) (cfg : VipConfig) (seeds : Dict CheckSeed)
      → IsSynced bgp m
      → ((commit_vip lang bgp env m cfg seeds).1 ≡ none
          → IsSettled (commit_vip lang bgp env m cfg seeds).0 cfg.name)
      → IsSynced bgp (commit_vip lang bgp env m cfg seeds).0
  unfolding commit_vip
  commit_vip-IsSynced env m cfg seeds s = elim (Option-cases (lookup cfg.name m.vips)) [
    | inl missing ↦ rw (missing, commit_vip) (λ settled. s)
    | inr (e, found) ↦ rw (found, commit_vip) (commit_entry-IsSynced env m e cfg seeds s found)
  ]
