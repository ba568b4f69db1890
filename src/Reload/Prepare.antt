-- ===== src/Reload/Prepare.antt =====
-- internal/reload/reload.go: what a reload builds before it touches the running state.
use pathosd.Common.{ℕ, Bool, true, false, Option, none, some, List, [], ◌∷◌, map}
use pathosd.Common.Dict.{Dict, insert}
use pathosd.Config.Stdlib.{Stdlib}
use pathosd.Config.Checks.{CheckConfig, effective_name}
use pathosd.Config.Vip.{VipConfig, check_list}
use pathosd.Config.Diff.{VipChange}
use pathosd.Checks.Scheduler.{Scheduler}
use pathosd.Checks.Registry.{SchedulerRef}
use pathosd.Reload.Build.{new_schedulers}
use pathosd.Reload.State.{
  Pool, allocate, close_schedulers, Action, StagedVip, Outcome, ReloadStatus, Host,
}
use pathosd.Reload.Staging.{staging_deadline}

-- `model.ReloadStatus{At: time.Now()}`, with an outcome
abbrev pub status_at : ℕ → Outcome → ReloadStatus
status_at now outcome = record {
  at = now;
  outcome = outcome;
  error = none;
  errors = [];
  added = [];
  removed = [];
  changed = [];
  pending = [];
}

-- `shadows[s.CheckName()] = s`, for each scheduler
unfoldable pub by_check : List SchedulerRef → Dict SchedulerRef → Dict SchedulerRef
by_check [] d = d
by_check (s ∷ scheds) d = by_check scheds (insert s.check_name s d)

unfoldable pub close_lists : Dict (List SchedulerRef) → Pool → Pool
close_lists [] pool = pool
close_lists ((name, scheds) ∷ d) pool = close_lists d (close_schedulers scheds pool)

unfoldable pub refs_of : Dict SchedulerRef → List SchedulerRef
refs_of [] = []
refs_of ((name, s) ∷ d) = s ∷ refs_of d

unfoldable pub close_staged : Dict StagedVip → Pool → Pool
unfolding refs_of
close_staged [] pool = pool
close_staged ((name, st) ∷ d) pool = close_staged d (close_schedulers (refs_of st.shadows) pool)

module _ (std : Stdlib) (host : Host) where
  -- func (r *Reloader) buildSchedulers, of which a failure leaves nothing behind in the maps
  unfoldable pub build_schedulers :
      Pool
      → VipConfig
      → List CheckConfig
      → Option (Pool × List SchedulerRef × List (Scheduler Action))
  build_schedulers pool v list = elim (new_schedulers std host.new_checker v list) [
    | none ↦ none
    | some scheds ↦ let (pool', refs) = allocate pool scheds in some (pool', refs, scheds)
  ]

  -- the loop that builds the schedulers of the added VIPs; the Boolean is whether all were built
  unfoldable pub build_added :
      Pool → Dict (List SchedulerRef) → List VipConfig → Pool × Dict (List SchedulerRef) × Bool
  unfolding build_schedulers
  build_added pool out [] = (pool, out, true)
  build_added pool out (v ∷ vips) = elim (build_schedulers pool v (check_list v)) [
    | none ↦ (pool, out, false)
    | some (pool', refs, scheds) ↦ build_added pool' (insert v.name refs out) vips
  ]

  -- the loop that builds the shadows of the changed VIPs
  unfoldable pub build_staged :
      ℕ → Pool → Dict StagedVip → List VipChange → Pool × Dict StagedVip × Bool
  unfolding build_schedulers by_check
  build_staged now pool out [] = (pool, out, true)
  build_staged now pool out (ch ∷ changes) = elim ch.checks_changed [
    | [] ↦ build_staged now pool out changes
    | c ∷ list ↦ elim (build_schedulers pool ch.new (c ∷ list)) [
      | none ↦ (pool, out, false)
      | some (pool', refs, scheds) ↦
          build_staged now pool'
            (insert ch.new.name
              (record {
                cfg = ch.new;
                old = ch.old;
                shadows = by_check refs [];
                verdicts = [];
                removed = map effective_name ch.checks_removed;
                deadline = staging_deadline now scheds;
              })
              out)
            changes
    ]
  ]
