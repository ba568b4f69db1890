-- ===== src/Reload/Outcome.antt =====
-- What the outcome of a reload says of the daemon.
use pathosd.Common.{
  ℕ, suc, String, ◌≡◌, refl, ap, Bool, true, false, not, Option, none, some, List, [], is_empty,
  is_empty-nil, if◌then◌else◌, arith, eq_iff, Bool-cases, inl, inr, ◌⊎◌,
}
use pathosd.Common.Dict.{Dict}
use pathosd.Config.Stdlib.{Stdlib}
use pathosd.Config.Load.{load_bytes}
use pathosd.Config.Vip.{Config}
use pathosd.Config.ChecksPolicy.{ExprLang}
use pathosd.Config.Diff.{restart_required, VipChanges, diff_vips}
use pathosd.Checks.Registry.{SchedulerRef}
use pathosd.Policy.Notifier.{Notifier}
use pathosd.Policy.State.{Env}
use pathosd.Reload.State.{
  Pool, StagedVip, Outcome, applied, unchanged, rejected, failed, RejectError, ReloadError,
  ReloadStatus, Reloader, Host,
}
use pathosd.Reload.Staging.{drop_staging, effective_vips}
use pathosd.Reload.Prepare.{status_at, build_added, build_staged}
use pathosd.Reload.Apply.{Progress, remove_vips, put_vips, finish}
use pathosd.Reload.Progress.{
  Tracks, Ends, Ends-bind, Ends-weaken, Stumbles, remove_vips-Tracks, add_vips-Tracks,
  change_vips-Tracks, set_level-Tracks,
}
use pathosd.Reload.Attempt.{
  same_hash, reject_with, apply_changes, reload_diff, reload_config, reload_locked,
}

-- The VIPs, the schedulers that run, the config and what is staged are as they were.
pub record IsUntouched {N P : Type 0} (r r' : Reloader N P) : Type 0 where
  pub pol : r'.pol ≡ r.pol
  pub reg : r'.reg ≡ r.reg
  pub log_level : r'.log_level ≡ r.log_level
  pub cur : r'.cur ≡ r.cur
  pub cur_hash : r'.cur_hash ≡ r.cur_hash
  pub loaded_at : r'.loaded_at ≡ r.loaded_at
  pub generation : r'.generation ≡ r.generation
  pub staging : r'.staging ≡ r.staging
  pub verdicts : r'.verdicts ≡ r.verdicts

-- The daemon runs the config of the file.
pub record RunsFile {N P : Type 0} (cfg : Config) (hash : String) (r r' : Reloader N P)
    : Type 0 where
  pub cur : r'.cur ≡ cfg
  pub cur_hash : r'.cur_hash ≡ some hash
  pub file_changed : r'.file_changed ≡ false
  pub generation : r'.generation ≡ suc r.generation

-- what the outcome of a reload of a config means
abbrev pub Says :
    {N P : Type 0}
    → Config
    → String
    → Reloader N P
    → Reloader N P
    → List ReloadError
    → Outcome
    → Type 0
Says cfg hash r r' errors rejected = IsUntouched r r' × (r'.file_changed ≡ true)
Says cfg hash r r' errors unchanged =
    IsUntouched r r' × (r.cur_hash ≡ some hash) × (r'.file_changed ≡ false)
Says cfg hash r r' errors applied = RunsFile cfg hash r r'
Says cfg hash r r' errors failed = (r'.generation ≡ suc r.generation) × (is_empty errors ≡ false)

-- a result that keeps to what its outcome means
abbrev pub Keeps :
    {N P : Type 0} → Config → String → Reloader N P → Reloader N P × ReloadStatus → Type 0
Keeps cfg hash r (r', st) = Says cfg hash r r' st.errors st.outcome

-- where the removals start: what was staged is dropped
abbrev start : {N P : Type 0} → Env → Pool → Reloader N P → Progress N P
start env pool r = record {
  daemon = drop_staging (record r { pool = pool });
  status = status_at env.now applied;
  kept = [];
}

same_hash-eq : (hash : String) (h : Option String) → same_hash hash h ≡ true → h ≡ some hash
unfolding same_hash
same_hash-eq hash none e = cc
same_hash-eq hash (some h) e = ground (arith, eq_iff hash h)

-- The registry panics in this reload: the file has changed, no section requires a restart, and the
-- removals of its difference, from the schedulers that run, reach a VIP with more than one.
abbrev pub Panics :
    {N R P : Type 0} → ExprLang P → Notifier N R → Env → Config → String → Reloader N P → Type 0
Panics lang bgp env cfg hash r =
    (same_hash hash r.cur_hash ≡ false)
    × (is_empty (restart_required r.cur cfg) ≡ true)
    × ((pool : Pool) × Stumbles lang bgp r.generation (start env pool r)
          (diff_vips (effective_vips r.staging r.cur.vips) cfg.vips).removed)

module _ {N R P : Type 0} (lang : ExprLang P) (bgp : Notifier N R) where
  none_is_kept :
      {kept errors : Bool} → errors ≡ true → (kept ≡ true) ⊎ (errors ≡ false) → kept ≡ true
  none_is_kept e (inl k) = k
  none_is_kept e (inr x) = cc

  finish-Keeps :
      (cfg : Config) (hash : String) (r : Reloader N P) (p : Progress N P)
      → Tracks r.generation p
      → Keeps cfg hash r (finish lang bgp cfg hash p)
  unfolding finish put_vips
  finish-Keeps cfg hash r p t = elim (Bool-cases (is_empty p.status.errors)) [
    | inr some_error ↦ rw some_error (ap suc t.generation, some_error)
    | inl no_error ↦
        let none_kept : is_empty p.kept ≡ true = none_is_kept no_error t.covered in
        let nothing = is_empty-nil p.kept none_kept in
        rw no_error (record {
          cur = ap (λ k. record cfg { vips = put_vips k cfg.vips }) nothing;
          cur_hash = ap (λ b. if b then some hash else none) none_kept;
          file_changed = ap not none_kept;
          generation = ap suc t.generation;
        })
  ]

  untouched :
      (r : Reloader N P) (changed : Bool) (pool : Pool)
      → IsUntouched r (record r { file_changed = changed; pool = pool })
  untouched r changed pool = record {
    pol = refl;
    reg = refl;
    log_level = refl;
    cur = refl;
    cur_hash = refl;
    loaded_at = refl;
    generation = refl;
    staging = refl;
    verdicts = refl;
  }

  reject_with-Keeps :
      (cfg : Config) (hash : String) (now : ℕ) (e : RejectError) (pool : Pool) (r : Reloader N P)
      → Keeps cfg hash r (reject_with now e pool r)
  unfolding reject_with
  reject_with-Keeps cfg hash now e pool r = (untouched r true pool, refl)

  module _ (std : Stdlib) (host : Host) (env : Env) where
    apply_changes-Keeps :
        (cfg : Config) (hash : String) (diff : VipChanges) (built : Dict (List SchedulerRef))
        (staged : Dict StagedVip) (r : Reloader N P) (pool : Pool)
        → Ends (Stumbles lang bgp r.generation (start env pool r) diff.removed) (Keeps cfg hash r) (
            apply_changes lang bgp std host env cfg hash diff built staged
              (record r { pool = pool }))
    unfolding apply_changes drop_staging
    apply_changes-Keeps cfg hash diff built staged r pool =
        Ends-bind _ _ (Tracks r.generation) (Keeps cfg hash r)
          (remove_vips lang bgp (start env pool r) diff.removed) _
          (remove_vips-Tracks lang bgp r.generation (start env pool r) diff.removed
            (record { covered = inl refl; generation = refl }))
          (λ panic. panic)
          (λ p t. finish-Keeps cfg hash r _ (
            set_level-Tracks lang bgp r.generation host cfg _ (
              change_vips-Tracks lang bgp r.generation env staged diff.changed _
                (add_vips-Tracks lang bgp r.generation env built diff.added p t))))

    reload_diff-Keeps :
        (cfg : Config) (hash : String) (diff : VipChanges) (r : Reloader N P)
        → Ends
            ((pool : Pool) × Stumbles lang bgp r.generation (start env pool r) diff.removed)
            (Keeps cfg hash r)
            (reload_diff lang bgp std host env cfg hash diff r)
    unfolding reload_diff
    reload_diff-Keeps cfg hash diff r =
        let (pool, built, added_ok) = build_added std host r.pool [] diff.added in
        let (pool', staged, staged_ok) = build_staged std host env.now pool [] diff.changed in
        elim (Bool-cases added_ok) [
          | inr bad ↦ rw (bad, reload_diff) (reject_with-Keeps cfg hash env.now _ _ r)
          | inl good ↦ elim (Bool-cases staged_ok) [
            | inr bad ↦
                rw (good, reload_diff)
                  (rw (bad, reload_diff) (reject_with-Keeps cfg hash env.now _ _ r))
            | inl fine ↦
                rw (good, reload_diff)
                  (rw (fine, reload_diff)
                    (Ends-weaken _ _ (Keeps cfg hash r)
                      (apply_changes lang bgp std host env cfg hash diff built staged
                        (record r { pool = pool' }))
                      (λ panic. (pool', panic))
                      (apply_changes-Keeps cfg hash diff built staged r pool')))
          ]
        ]

    reload_config-Keeps :
        (cfg : Config) (hash : String) (r : Reloader N P)
        → Ends
            (Panics lang bgp env cfg hash r)
            (Keeps cfg hash r)
            (reload_config lang bgp std host env cfg hash r)
    unfolding reload_config
    reload_config-Keeps cfg hash r =
        let diff = diff_vips (effective_vips r.staging r.cur.vips) cfg.vips in
        elim (Bool-cases (same_hash hash r.cur_hash)) [
          | inl same ↦
              rw (same, reload_config) (untouched r _ _, same_hash-eq hash r.cur_hash same, refl)
          | inr other ↦ elim (Bool-cases (is_empty (restart_required r.cur cfg))) [
            | inr bad ↦
                rw (other, reload_config)
                  (rw (bad, reload_config) (reject_with-Keeps cfg hash env.now _ _ r))
            | inl good ↦
                rw (other, reload_config)
                  (rw (good, reload_config)
                    (Ends-weaken _ _ (Keeps cfg hash r)
                      (reload_diff lang bgp std host env cfg hash diff r)
                      (λ panic. (refl, refl, panic)) (reload_diff-Keeps cfg hash diff r)))
          ]
        ]

    -- A reload of a file that loads ends as its outcome says, or with a panic of the registry. Rejected:
    -- the VIPs, the routes, the registry, the config and what is staged are untouched, and the file
    -- counts as changed. Unchanged: they are untouched too, and the file is that of the running config.
    -- Applied: the running config is that of the file, its hash is known, and the generation is the next
    -- one. Failed: the generation is the next one, and an error is reported. A panic: the file has
    -- changed, no section requires a restart, and the removals reach a VIP of the difference under which
    -- more than one scheduler is listed then.
    pub reload_locked-Keeps :
        (raw : String) (cfg : Config) (r : Reloader N P)
        → load_bytes std lang host.decoders raw host.path ≡ some cfg
        → Ends
            (Panics lang bgp env cfg (host.sha256 raw) r)
            (Keeps cfg (host.sha256 raw) r)
            (reload_locked lang bgp std host env (some raw) r)
    unfolding reload_locked
    reload_locked-Keeps raw cfg r loads =
        rw (loads, reload_locked) (reload_config-Keeps cfg (host.sha256 raw) r)
