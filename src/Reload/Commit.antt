-- ===== src/Reload/Commit.antt =====
-- internal/reload/reload.go: the commit of staged VIPs, when their shadows have a verdict or time is up.
use pathosd.Common.{
  ℕ, suc, String, Bool, true, false, not, none, some, List, [], ◌∷◌, ◌++◌, ◌&&◌, ◌||◌, nat_eq,
  length, if◌then◌else◌, contains, ltb,
}
use pathosd.Common.Int.{pos, ltb_ℤ}
use pathosd.Common.Dict.{Dict, lookup, insert, delete}
use pathosd.Config.ChecksPolicy.{ExprLang}
use pathosd.Model.State.{healthy}
use pathosd.Checks.Registry.{SchedulerRef}
use pathosd.Policy.Notifier.{Notifier}
use pathosd.Policy.State.{Env, Manager, same_health}
use pathosd.Policy.Handlers.{on_health_transition}
use pathosd.Policy.Commit.{CheckSeed, commit_vip}
use pathosd.Reload.State.{Pool, scheduler_at, StagedVip, Reloader}
use pathosd.Reload.Staging.{attach, stop_checks, promote_shadows, seed_of, seeds_of, note_commit}

-- `slices.Contains(r.verdicts, s)`
unfoldable pub contains_ref : ℕ → List SchedulerRef → Bool
contains_ref a [] = false
contains_ref a (x ∷ xs) = nat_eq x.address a || contains_ref a xs

module _ {N R P : Type 0} (lang : ExprLang P) (bgp : Notifier N R) (meanwhile : Pool → Pool) where
  -- the compare at the end of commitLocked: a shadow that flipped since its seed was taken
  unfoldable pub report_flip :
      Env → String → CheckSeed → CheckSeed → String → Manager N P → Manager N P
  report_flip env vip seed now name pol =
      if same_health now.health seed.health
      then pol
      else on_health_transition lang bgp env pol (record {
        vip_name = vip;
        check_name = name;
        healthy = same_health now.health healthy;
        reason = "verdict changed while the reload committed";
        check_result = now.last_result;
      })

  -- the loop of commitLocked that attaches the callbacks; `before` is the pool of the seeds
  unfoldable pub attach_each :
      Env → String → Bool → Pool → Dict SchedulerRef → Pool × Manager N P → Pool × Manager N P
  unfolding attach report_flip seed_of
  attach_each env vip good before [] x = x
  attach_each env vip good before ((name, s) ∷ shadows) (pool, pol) =
      let pol' = report_flip env vip (seed_of env.now before s) (seed_of env.now pool s) name pol in
      attach_each env vip good before shadows (attach s pool, if good then pol' else pol)

  -- func (r *Reloader) commitLocked; `meanwhile` is what the schedulers do while it runs
  unfoldable pub commit_staged : Env → Reloader N P → StagedVip → Reloader N P
  unfolding stop_checks promote_shadows seeds_of attach_each note_commit
  commit_staged env r st =
      let (reg, before) =
        promote_shadows st.shadows (stop_checks st.cfg.name st.removed (r.reg, r.pool)) in
      let (committed, e) =
        commit_vip lang bgp env r.pol st.cfg (seeds_of env.now before st.shadows) in
      let good : Bool = elim e [ none ↦ true | some x ↦ false ] in
      let (pool, pol) =
        attach_each env st.cfg.name good before st.shadows (meanwhile before, committed) in
      record r {
        staging = delete st.cfg.name r.staging;
        reg = reg;
        pool = pool;
        pol = pol;
        last = note_commit st.cfg.name e r.last;
      }

  -- one round of the loop of commitReady
  unfoldable pub commit_one : Env → Reloader N P → SchedulerRef → Reloader N P × Bool
  commit_one env r s = elim (lookup s.vip_name r.staging) [
    | none ↦ (r, false)
    | some st ↦ elim (lookup s.check_name st.shadows) [
      | none ↦ (r, false)
      | some sh ↦
          if not (nat_eq sh.address s.address)
          then (r, false)
          else let verdicts =
              if contains s.check_name st.verdicts
              then st.verdicts
              else s.check_name ∷ st.verdicts in
            let st' = record st { verdicts = verdicts } in
            let r' = record r { staging = insert s.vip_name st' r.staging } in
            if ltb (length verdicts) (length st.shadows)
            then (r', false)
            else (commit_staged env r' st', true)
    ]
  ]

  unfoldable pub commit_each : Env → Reloader N P → List SchedulerRef → Reloader N P × Bool
  unfolding commit_one
  commit_each env r [] = (r, false)
  commit_each env r (s ∷ ready) =
      let (r', changed) = commit_one env r s in
      let (r'', later) = commit_each env r' ready in (r'', changed || later)

  -- func (r *Reloader) commitReady
  unfoldable pub commit_ready : Env → Reloader N P → Reloader N P
  unfolding commit_each
  commit_ready env r =
      let (r', changed) = commit_each env (record r { verdicts = [] }) r.verdicts in
      if changed then record r' { notices = suc r'.notices } else r'

  -- the loop of expireStaged
  unfoldable pub expire_each : Env → Reloader N P → Dict StagedVip → Reloader N P × Bool
  expire_each env r [] = (r, false)
  expire_each env r ((name, st) ∷ staging) =
      let due = not (ltb_ℤ (pos env.now) st.deadline) in
      let (r', later) = expire_each env (if due then commit_staged env r st else r) staging in
      (r', due || later)

  -- func (r *Reloader) expireStaged
  unfoldable pub expire_staged : Env → Reloader N P → Reloader N P
  unfolding expire_each
  expire_staged env r =
      let (r', changed) = expire_each env r r.staging in
      if changed then record r' { notices = suc r'.notices } else r'

  -- the closure of watchShadow: a shadow has had a result
  unfoldable pub on_shadow_result : Reloader N P → SchedulerRef → Reloader N P
  on_shadow_result r s = elim (scheduler_at s.address r.pool.heap) [
    | none ↦ r
    | some x ↦
        if ltb_ℤ (pos x.consecutive_ok) x.rise && ltb_ℤ (pos x.consecutive_fail) x.fall
        then r
        else record r {
          verdicts = if contains_ref s.address r.verdicts then r.verdicts else r.verdicts ++ s ∷ [];
        }
  ]
