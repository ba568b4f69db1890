-- ===== src/Reload/Staging.antt =====
-- internal/reload/reload.go: VIPs that wait for the verdict of their new checks.
use pathosd.Common.{ℕ, String, Option, none, some, List, [], ◌∷◌, ◌++◌, ◌==◌, if◌then◌else◌}
use pathosd.Common.Int.{ℤ, pos, ◌+ℤ◌, ◌*ℤ◌, max_ℤ}
use pathosd.Common.Dict.{Dict, lookup}
use pathosd.Config.Vip.{VipConfig}
use pathosd.Model.State.{HealthStatus, healthy, unhealthy}
use pathosd.Checks.Result.{zero_result}
use pathosd.Checks.Scheduler.{Scheduler, set_callbacks}
use pathosd.Checks.Registry.{SchedulerRef, Registry, listed, find_check, remove, promote}
use pathosd.Policy.Commit.{CheckSeed, CommitError}
use pathosd.Reload.State.{
  Action, transition, result, shadow_result, Pool, scheduler_at, update_at, close_schedulers,
  StagedVip, failed, ReloadStatus, commit_error, Reloader,
}

-- the window of stagingDeadline: the longest time that a scheduler needs for a verdict
unfoldable pub longest_window : ℤ → List (Scheduler Action) → ℤ
longest_window window [] = window
longest_window window (s ∷ scheds) =
    longest_window (max_ℤ window (max_ℤ s.rise s.fall *ℤ s.interval)) scheds

-- func stagingDeadline
unfoldable pub staging_deadline : ℕ → List (Scheduler Action) → ℤ
unfolding longest_window ◌*ℤ◌ max_ℤ ◌+ℤ◌
staging_deadline now scheds = pos now +ℤ (pos 4 *ℤ longest_window (pos 0) scheds)

-- the names of a map, in the order of this model
abbrev pub names_of {ℓ} : {A : Type ℓ} → Dict A → List String
names_of [] = []
names_of ((k, v) ∷ d) = k ∷ names_of d

-- `s.SetCallbacks(r.pol.OnHealthTransition, r.pol.OnCheckResult)`
unfoldable pub attach : SchedulerRef → Pool → Pool
attach s pool = record pool {
  heap = update_at s.address (λ x. set_callbacks x (some transition) (some result)) pool.heap;
}

-- func (r *Reloader) watchShadow, but for the closure
unfoldable pub watch_shadow : SchedulerRef → Pool → Pool
watch_shadow s pool = record pool {
  heap =
      update_at s.address
        (λ x. set_callbacks x none (some (λ vip check res. shadow_result s.address))) pool.heap;
}

-- func (r *Reloader) effectiveVIPsLocked
unfoldable pub effective_vips : Dict StagedVip → List VipConfig → List VipConfig
effective_vips staging [] = []
effective_vips staging (v ∷ vips) =
    elim (lookup v.name staging) [ none ↦ v | some st ↦ st.old ] ∷ effective_vips staging vips

-- func (r *Reloader) findVisible
unfoldable pub find_visible : Registry → String → String → Option SchedulerRef
find_visible reg vip check = find_check check (listed reg vip)

-- `if old := r.findVisible(vip, name); old != nil { … }`, for each name
unfoldable pub stop_checks : String → List String → Registry × Pool → Registry × Pool
unfolding find_visible
stop_checks vip [] x = x
stop_checks vip (name ∷ names) (reg, pool) =
    stop_checks vip names (elim (find_visible reg vip name) [
      | none ↦ (reg, pool)
      | some old ↦ (remove reg old, close_schedulers (old ∷ []) pool)
    ])

-- the loop of dropStagingLocked over the shadows of a VIP
unfoldable pub drop_shadows : Dict SchedulerRef → Registry × Pool → Registry × Pool
drop_shadows [] x = x
drop_shadows ((name, s) ∷ shadows) (reg, pool) =
    drop_shadows shadows (remove reg s, close_schedulers (s ∷ []) pool)

unfoldable pub drop_staged : Dict StagedVip → Registry × Pool → Registry × Pool
unfolding drop_shadows
drop_staged [] x = x
drop_staged ((name, st) ∷ staging) x = drop_staged staging (drop_shadows st.shadows x)

-- the loop of commitLocked that promotes the shadows
unfoldable pub promote_shadows : Dict SchedulerRef → Registry × Pool → Registry × Pool
promote_shadows [] x = x
promote_shadows ((name, s) ∷ shadows) (reg, pool) =
    let (reg', old) = promote reg s in
    promote_shadows shadows
      (reg', elim old [ none ↦ pool | some o ↦ close_schedulers (o ∷ []) pool ])

-- func healthOf
unfoldable pub health_of : Scheduler Action → HealthStatus
health_of s = if s.healthy then healthy else unhealthy

-- the health and the last result of a shadow
unfoldable pub seed_of : ℕ → Pool → SchedulerRef → CheckSeed
unfolding health_of
seed_of now pool s = elim (scheduler_at s.address pool.heap) [
  | none ↦ record { health = unhealthy; last_result = zero_result; last_time = now }
  | some x ↦ record { health = health_of x; last_result = x.last_result; last_time = now }
]

-- the seeds of commitLocked
unfoldable pub seeds_of : ℕ → Pool → Dict SchedulerRef → Dict CheckSeed
seeds_of now pool [] = []
seeds_of now pool ((name, s) ∷ shadows) = (name, seed_of now pool s) ∷ seeds_of now pool shadows

-- `slices.DeleteFunc(pending, …)`
unfoldable pub without_name : String → List String → List String
without_name name [] = []
without_name name (n ∷ names) =
    let rest = without_name name names in if n == name then rest else n ∷ rest

-- the end of commitLocked: the last reload learns of the commit
unfoldable pub note_commit : String → Option CommitError → Option ReloadStatus → Option ReloadStatus
unfolding without_name
note_commit name e none = none
note_commit name none (some st) = some (record st { pending = without_name name st.pending })
note_commit name (some e) (some st) = some (record st {
  outcome = failed;
  errors = st.errors ++ commit_error e ∷ [];
  pending = without_name name st.pending;
})

-- func (r *Reloader) dropStagingLocked
unfoldable pub drop_staging : {N P : Type 0} → Reloader N P → Reloader N P
unfolding drop_staged
drop_staging r =
    let (reg, pool) = drop_staged r.staging (r.reg, r.pool) in
    record r { reg = reg; pool = pool; staging = []; verdicts = [] }
