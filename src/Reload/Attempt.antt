-- ===== src/Reload/Attempt.antt =====
-- internal/reload/reload.go: one reload, from the file to the running daemon, and what is kept of it.
use pathosd.Common.{
  sorted, ℕ, suc, String, Bool, true, false, not, Option, none, some, List, [], ◌==◌, is_empty,
  if◌then◌else◌,
}
use pathosd.Common.Dict.{Dict}
use pathosd.Config.Stdlib.{Stdlib}
use pathosd.Config.Load.{load_bytes}
use pathosd.Config.Vip.{Config}
use pathosd.Config.ChecksPolicy.{ExprLang}
use pathosd.Config.Diff.{restart_required, VipChanges, diff_vips}
use pathosd.Checks.Registry.{SchedulerRef}
use pathosd.Policy.Notifier.{Notifier}
use pathosd.Policy.State.{Env}
use pathosd.Reload.State.{
  Pool, StagedVip, applied, unchanged, rejected, RejectError, bad_file, cannot_build,
  restart_needed, ReloadStatus, Reloader, Host,
}
use pathosd.Reload.Staging.{names_of, effective_vips, drop_staging}
use pathosd.Reload.Prepare.{status_at, close_lists, close_staged, build_added, build_staged}
use pathosd.Reload.Apply.{Progress, remove_vips, add_vips, change_vips, set_level, finish}

-- func (r *Reloader) pendingLocked
unfoldable pub pending_names : Dict StagedVip → List String
pending_names staging = sorted (names_of staging)

-- `hash == r.curHash`
unfoldable pub same_hash : String → Option String → Bool
same_hash hash none = false
same_hash hash (some h) = hash == h

-- a rejection that has noticed a change of the file
unfoldable pub reject_with :
    {N P : Type 0} → ℕ → RejectError → Pool → Reloader N P → Reloader N P × ReloadStatus
reject_with now e pool r = (
  record r { file_changed = true; pool = pool },
  record (status_at now rejected) { error = some e },
)

module _ {N R P : Type 0} (lang : ExprLang P) (bgp : Notifier N R) (std : Stdlib) (host : Host)
    (env : Env) where
  -- the apply phase, from what was built
  unfoldable pub apply_changes :
      Config
      → String
      → VipChanges
      → Dict (List SchedulerRef)
      → Dict StagedVip
      → Reloader N P
      → Option (Reloader N P × ReloadStatus)
  apply_changes cfg hash diff built staged r =
      let start : Progress N P = record {
        daemon = drop_staging r;
        status = status_at env.now applied;
        kept = [];
      } in
      elim (remove_vips lang bgp start diff.removed) [
        | none ↦ none
        | some p ↦ some (
            finish lang bgp cfg hash (
              set_level lang bgp host cfg (
                change_vips lang bgp env staged (add_vips lang bgp env built p diff.added)
                  diff.changed)))
      ]

  -- reloadLocked once the VIPs are compared: everything that can fail is built first
  unfoldable pub reload_diff :
      Config → String → VipChanges → Reloader N P → Option (Reloader N P × ReloadStatus)
  reload_diff cfg hash diff r =
      let (pool, built, added_ok) = build_added std host r.pool [] diff.added in
      if not added_ok
      then some (reject_with env.now cannot_build (close_lists built pool) r)
      else let (pool', staged, staged_ok) = build_staged std host env.now pool [] diff.changed in
        if not staged_ok
        then some
            (reject_with env.now cannot_build (close_staged staged (close_lists built pool')) r)
        else apply_changes cfg hash diff built staged (record r { pool = pool' })

  -- reloadLocked of a file that loads
  unfoldable pub reload_config :
      Config → String → Reloader N P → Option (Reloader N P × ReloadStatus)
  reload_config cfg hash r =
      if same_hash hash r.cur_hash
      then some (
        record r { file_changed = false },
        record (status_at env.now unchanged) { pending = pending_names r.staging },
      )
      else let fields = restart_required r.cur cfg in
        if not (is_empty fields)
        then some (reject_with env.now (restart_needed fields) r.pool r)
        else reload_diff cfg hash (diff_vips (effective_vips r.staging r.cur.vips) cfg.vips) r

  -- func (r *Reloader) reloadLocked, of the bytes of the file, if it can be read
  unfoldable pub reload_locked : Option String → Reloader N P → Option (Reloader N P × ReloadStatus)
  reload_locked none r = some (r, record (status_at env.now rejected) { error = some bad_file })
  reload_locked (some raw) r = elim (load_bytes std lang host.decoders raw host.path) [
    | none ↦ some (r, record (status_at env.now rejected) { error = some bad_file })
    | some cfg ↦ reload_config cfg (host.sha256 raw) r
  ]

  -- func (r *Reloader) Reload; recordLocked keeps the status, and its metrics and logs are left out
  unfoldable pub reload : Option String → Reloader N P → Option (Reloader N P × ReloadStatus)
  reload file r = elim (reload_locked file r) [
    | none ↦ none
    | some (r', st) ↦ some (record r' { last = some st; notices = suc r'.notices }, st)
  ]

  -- func (r *Reloader) pollFile
  unfoldable pub poll_file : Option String → Reloader N P → Reloader N P
  poll_file file r =
      let changed : Bool = elim file [
        | none ↦ true
        | some raw ↦ not (same_hash (host.sha256 raw) r.cur_hash)
      ] in
      let flipped = if changed then not r.file_changed else r.file_changed in
      let r' = record r { file_changed = changed } in
      if flipped then record r' { notices = suc r'.notices } else r'

-- type ConfigStatus
pub record ConfigStatus : Type 0 where
  pub path : String
  pub loaded_at : ℕ
  pub generation : ℕ
  pub file_changed : Bool
  pub pending_vips : List String
  pub last_reload : Option ReloadStatus

-- func (r *Reloader) Status
unfoldable pub config_status : {N P : Type 0} → Host → Reloader N P → ConfigStatus
config_status host r = record {
  path = host.path;
  loaded_at = r.loaded_at;
  generation = r.generation;
  file_changed = r.file_changed;
  pending_vips = pending_names r.staging;
  last_reload = r.last;
}
