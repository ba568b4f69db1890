-- ===== src/Policy/Runs.antt =====
-- The runs of the policy manager, and what holds throughout each of them.
use pathosd.Common.{String, ◌≡◌, true, false, Option, none, some, []}
use pathosd.Common.Dict.{Dict, lookup}
use pathosd.Config.Vip.{VipConfig}
use pathosd.Config.ChecksPolicy.{ExprLang}
use pathosd.Checks.Result.{Result, HealthTransition}
use pathosd.Policy.Notifier.{Notifier}
use pathosd.Policy.State.{Env, VipEntry, Manager, set_transition_listener}
use pathosd.Policy.Handlers.{new_manager, register_all, on_health_transition, on_check_result}
use pathosd.Policy.Commit.{CheckSeed, add_vip, remove_vip, commit_vip}
use pathosd.Policy.Sync.{route_of}
use pathosd.Policy.Sync.Managers.{IsSynced}
use pathosd.Policy.Sync.Addition.{add_vip-IsSynced}
use pathosd.Policy.Sync.Removal.{remove_vip-IsSynced}
use pathosd.Policy.Sync.Events.{on_health_transition-IsSynced, on_check_result-IsSynced}
use pathosd.Policy.Sync.Switch.{IsSettled, commit_vip-IsSynced}
use pathosd.Policy.Verdict.{IsEvaluated, AllVips}
use pathosd.Policy.Verdict.Events.{on_health_transition-IsEvaluated, on_check_result-IsEvaluated}
use pathosd.Policy.Verdict.Commits.{commit_vip-IsEvaluated}
use pathosd.Policy.Verdict.Membership.{add_vip-IsEvaluated, remove_vip-IsEvaluated}

module _ {N R P : Type 0} (lang : ExprLang P) (bgp : Notifier N R) where
  -- The managers of a run: it starts without a VIP; a VIP is added when no route of its prefix is there
  -- and no VIP has an overlapping one; a commit does not leave a routed VIP with unknown health.
  pub data IsRun : Manager N P → Type 0 where
    booted : (env : Env) (n : Option N) → IsRun (new_manager lang env [] n)
    listening : (m : Manager N P) → IsRun m → IsRun (set_transition_listener m true)
    joined :
        (m : Manager N P) (env : Env) (cfg : VipConfig)
        → IsRun m
        → route_of bgp m.world cfg.prefix ≡ none
        → ((k : String) (x : VipEntry P)
            → lookup k m.vips ≡ some x
            → (bgp.overlaps cfg.prefix x.cfg.prefix ≡ false)
              × (bgp.overlaps x.cfg.prefix cfg.prefix ≡ false))
        → IsRun (add_vip lang env m cfg)
    left : (m : Manager N P) (name : String) → IsRun m → IsRun (remove_vip lang bgp m name).0
    switched :
        (m : Manager N P) (env : Env) (cfg : VipConfig) (seeds : Dict CheckSeed)
        → IsRun m
        → ((commit_vip lang bgp env m cfg seeds).1 ≡ none
            → IsSettled lang bgp (commit_vip lang bgp env m cfg seeds).0 cfg.name)
        → IsRun (commit_vip lang bgp env m cfg seeds).0
    reported :
        (m : Manager N P) (env : Env) (t : HealthTransition)
        → IsRun m
        → IsRun (on_health_transition lang bgp env m t)
    checked :
        (m : Manager N P) (env : Env) (vip check : String) (r : Result)
        → IsRun m
        → IsRun (on_check_result lang bgp env m vip check r)

  boot-IsSynced : (env : Env) (n : Option N) → IsSynced bgp (new_manager lang env [] n)
  unfolding new_manager register_all lookup
  boot-IsSynced env n = record { in_step = λ k x h. cc; apart = λ a b ea eb h. cc }

  boot-AllVips :
      (env : Env) (n : Option N) → AllVips lang (IsEvaluated lang) (new_manager lang env [] n)
  unfolding new_manager register_all lookup
  boot-AllVips env n k x h = cc

  listening-IsSynced :
      (m : Manager N P) → IsSynced bgp m → IsSynced bgp (set_transition_listener m true)
  unfolding set_transition_listener
  listening-IsSynced m s = record { in_step = s.in_step; apart = s.apart }

  listening-AllVips :
      (m : Manager N P)
      → AllVips lang (IsEvaluated lang) m
      → AllVips lang (IsEvaluated lang) (set_transition_listener m true)
  unfolding set_transition_listener
  listening-AllVips m all = all

  -- At every point of a run of the manager, in which a VIP is added only when no route of its prefix is
  -- there and no VIP has an overlapping one, and no commit leaves a routed VIP with unknown health: each
  -- VIP without a pending retry has exactly the route that its state and policy call for, its health is
  -- the combination of its checks' health by its checks policy, and its state, once that is known, is
  -- what the policy gives.
  pub runs_in_step :
      {m : Manager N P} → IsRun m → IsSynced bgp m × AllVips lang (IsEvaluated lang) m
  runs_in_step (booted env n) = (boot-IsSynced env n, boot-AllVips env n)
  runs_in_step (listening m r) =
      let (s, e) = runs_in_step r in (listening-IsSynced m s, listening-AllVips m e)
  runs_in_step (joined m env cfg r free apart) =
      let (s, e) = runs_in_step r in
      ((add_vip-IsSynced bgp lang env m cfg s free apart).0, add_vip-IsEvaluated lang env m cfg e)
  runs_in_step (left m name r) =
      let (s, e) = runs_in_step r in
      ((remove_vip-IsSynced bgp lang m name s).0, remove_vip-IsEvaluated lang bgp m name e)
  runs_in_step (switched m env cfg seeds r settled) =
      let (s, e) = runs_in_step r in
      (
        commit_vip-IsSynced lang bgp env m cfg seeds s settled,
        (commit_vip-IsEvaluated lang bgp env m cfg seeds e).0,
      )
  runs_in_step (reported m env t r) =
      let (s, e) = runs_in_step r in
      (
        on_health_transition-IsSynced lang bgp env m t s,
        on_health_transition-IsEvaluated lang bgp env m t e,
      )
  runs_in_step (checked m env vip check res r) =
      let (s, e) = runs_in_step r in
      (
        on_check_result-IsSynced lang bgp env m vip check res s,
        on_check_result-IsEvaluated lang bgp env m vip check res e,
      )
