-- ===== src/Policy/Status/Commits.antt =====
-- CommitVIP keeps the names in order.
use pathosd.Common.{◌≡◌, some, [], ◌==◌, map, Bool-cases, Option-cases, inl, inr}
use pathosd.Common.Dict.{Dict, lookup}
use pathosd.Config.Checks.{effective_name}
use pathosd.Config.Vip.{VipConfig, check_list, effective_checks_policy}
use pathosd.Config.ChecksPolicy.{ExprLang, compile_checks_policy}
use pathosd.Policy.Notifier.{Notifier}
use pathosd.Policy.State.{Env, CheckState, VipEntry, Manager}
use pathosd.Policy.Commit.{
  CheckSeed, commit_vip, commit_entry, commit_checked, with_running, switch_entry, next_checks,
}
use pathosd.Policy.Status.Order.{IsOrdered, store-IsOrdered}

module _ {N R P : Type 0} (lang : ExprLang P) (bgp : Notifier N R) where
  commit_checked-IsOrdered :
      (env : Env) (m : Manager N P) (e : VipEntry P) (cfg : VipConfig)
      (running next : Dict CheckState)
      → IsOrdered m
      → lookup cfg.name m.vips ≡ some e
      → IsOrdered (commit_checked lang bgp env m e cfg running next).0
  unfolding commit_checked with_running switch_entry
  commit_checked-IsOrdered env m e cfg running next o found =
      elim (Option-cases (
        compile_checks_policy lang (effective_checks_policy cfg)
          (map effective_name (check_list cfg)))) [
            | inl bad ↦ rw (bad, commit_checked) (store-IsOrdered m cfg.name e e _ _ o found)
            | inr (ev, good) ↦
                rw (good, commit_checked)
                  (store-IsOrdered m cfg.name e (record e { cfg = cfg; eval = ev }) _ _ o found)
          ]

  commit_entry-IsOrdered :
      (env : Env) (m : Manager N P) (e : VipEntry P) (cfg : VipConfig) (seeds : Dict CheckSeed)
      → IsOrdered m
      → lookup cfg.name m.vips ≡ some e
      → IsOrdered (commit_entry lang bgp env m e cfg seeds).0
  unfolding commit_entry with_running
  commit_entry-IsOrdered env m e cfg seeds o found =
      elim (Bool-cases (e.cfg.prefix == cfg.prefix)) [
        | inr other ↦ rw other o
        | inl same ↦
            rw same (elim (Option-cases (next_checks (check_list cfg) seeds e.state.checks []).1) [
              | inl missing ↦
                  rw (missing, commit_entry) (store-IsOrdered m cfg.name e e _ _ o found)
              | inr (next, ready) ↦
                  rw (ready, commit_entry) (commit_checked-IsOrdered env m e cfg _ next o found)
            ])
      ]

  pub commit_vip-IsOrdered :
      (m : Manager N P) (env : Env) (cfg : VipConfig) (seeds : Dict CheckSeed)
      → IsOrdered m
      → IsOrdered (commit_vip lang bgp env m cfg seeds).0
  unfolding commit_vip
  commit_vip-IsOrdered m env cfg seeds o = elim (Option-cases (lookup cfg.name m.vips)) [
    | inl missing ↦ rw (missing, commit_vip) o
    | inr (e, found) ↦ rw (found, commit_vip) (commit_entry-IsOrdered env m e cfg seeds o found)
  ]
