-- ===== src/Policy/Verdict/Committed.antt =====
-- CommitVIP and the definitions of the VIPs: which one is new, and what an error leaves.
use pathosd.Common.{
  String, ◌≡◌, refl, sym, ◌∙◌, ap, Option, none, some, [], map, ◌==◌, eq_iff, Bool-cases,
  Option-cases, inl, inr, if◌then◌else◌,
}
use pathosd.Common.Dict.{Dict, lookup, lookup-insert}
use pathosd.Config.Checks.{effective_name}
use pathosd.Config.Vip.{VipConfig, check_list, effective_checks_policy}
use pathosd.Config.ChecksPolicy.{ExprLang, ChecksEvaluator, compile_checks_policy}
use pathosd.Policy.Notifier.{Notifier}
use pathosd.Policy.State.{Env, CheckState, VipEntry, World, Manager}
use pathosd.Policy.Commit.{
  CheckSeed, CommitError, no_state_nor_seed, bad_policy, commit_vip, commit_entry, commit_checked,
  with_running, switch_entry, next_checks,
}
use pathosd.Policy.Sync.Switch.{notifier-emit_dropped}

-- what a VIP has besides its checks
abbrev pub but_checks : {P : Type 0} → Option (VipEntry P) → Option (VipEntry P)
but_checks none = none
but_checks (some e) = some (record e { state = record e.state { checks = [] } })

-- What a commit does to the definitions. If it succeeds, the VIP of its name, of the same prefix, has
-- the new config and the evaluator that its checks policy compiles to, and every other VIP is as
-- before; if it returns an error, every VIP has what it had besides its checks, and so has the notifier.
abbrev pub Commits :
    {N P : Type 0}
    → ExprLang P
    → Manager N P
    → VipConfig
    → Manager N P × Option CommitError
    → Type 0
Commits {N} {P} lang m cfg (m', none) =
    (e : VipEntry P) × (e' : VipEntry P) × (lookup cfg.name m.vips ≡ some e)
    × (e.cfg.prefix ≡ cfg.prefix)
    × (e'.cfg ≡ cfg)
    × (compile_checks_policy lang (effective_checks_policy cfg)
          (map effective_name (check_list cfg))
        ≡ some e'.eval)
    × ((k : String) → lookup k m'.vips ≡ (if cfg.name == k then some e' else lookup k m.vips))
Commits lang m cfg (m', some err) =
    (m'.world.notifier ≡ m.world.notifier)
    × ((k : String) → but_checks (lookup k m'.vips) ≡ but_checks (lookup k m.vips))

module _ {N R P : Type 0} (lang : ExprLang P) (bgp : Notifier N R) (env : Env) (m : Manager N P)
    (e : VipEntry P) (cfg : VipConfig) (found : lookup cfg.name m.vips ≡ some e) where
  with_running-Commits :
      (running : Dict CheckState) (w : World N) (err : CommitError)
      → w.notifier ≡ m.world.notifier
      → Commits lang m cfg (with_running lang bgp m e cfg running w, some err)
  unfolding with_running
  with_running-Commits running w err same = (
    same,
    λ k. elim (Bool-cases (cfg.name == k)) [
      | inl hit ↦
          rw
            (
              lookup-insert cfg.name k (record e { state = record e.state { checks = running } })
                  m.vips,
              hit,
            )
            (sym (ap but_checks found)
              ∙ ap (λ n. but_checks (lookup n m.vips)) ((eq_iff cfg.name k).0 hit))
      | inr miss ↦
          rw
            (
              lookup-insert cfg.name k (record e { state = record e.state { checks = running } })
                  m.vips,
              miss,
            )
            refl
    ],
  )

  switch_entry-Commits :
      (next : Dict CheckState) (ev : ChecksEvaluator P) (w : World N)
      → e.cfg.prefix ≡ cfg.prefix
      → compile_checks_policy lang
          (effective_checks_policy cfg)
          (map effective_name (check_list cfg))
        ≡ some ev
      → Commits lang m cfg (switch_entry lang bgp env m e cfg next ev w, none)
  unfolding switch_entry
  switch_entry-Commits next ev w same good =
      (e, _, found, same, refl, good, λ k. lookup-insert cfg.name k _ m.vips)

  commit_entry-Commits :
      (seeds : Dict CheckSeed) → Commits lang m cfg (commit_entry lang bgp env m e cfg seeds)
  unfolding commit_entry commit_checked
  commit_entry-Commits seeds = elim (Bool-cases (e.cfg.prefix == cfg.prefix)) [
    | inr other ↦ rw other (refl, λ k. refl)
    | inl same ↦
        rw same (elim (Option-cases (next_checks (check_list cfg) seeds e.state.checks []).1) [
          | inl missing ↦
              rw (missing, commit_entry) (with_running-Commits _ m.world no_state_nor_seed refl)
          | inr (next, ready) ↦
              let running = (next_checks (check_list cfg) seeds e.state.checks []).0 in
              let kept = notifier-emit_dropped lang bgp cfg.name running next m.world in
              rw (ready, commit_entry)
                (elim (Option-cases (
                  compile_checks_policy lang (effective_checks_policy cfg)
                    (map effective_name (check_list cfg)))) [
                      | inl bad ↦
                          rw (bad, commit_checked) (with_running-Commits running _ bad_policy kept)
                      | inr (ev, good) ↦
                          rw (good, commit_checked)
                            (switch_entry-Commits next ev _
                              ((eq_iff e.cfg.prefix cfg.prefix).0 same) good)
                    ])
        ])
  ]

pub commit_vip-Commits :
    {N R P : Type 0} (lang : ExprLang P) (bgp : Notifier N R) (env : Env) (m : Manager N P)
    (cfg : VipConfig) (seeds : Dict CheckSeed)
    → Commits lang m cfg (commit_vip lang bgp env m cfg seeds)
unfolding commit_vip
commit_vip-Commits lang bgp env m cfg seeds = elim (Option-cases (lookup cfg.name m.vips)) [
  | inl missing ↦ rw (missing, commit_vip) (refl, λ k. refl)
  | inr (e, found) ↦ rw (found, commit_vip) (commit_entry-Commits lang bgp env m e cfg found seeds)
]
