-- ===== src/Reload/Apply.antt =====
-- internal/reload/reload.go: how a reload applies the difference of two configs.
use pathosd.Common.{
  suc, String, not, Option, none, some, List, [], ◌∷◌, ◌++◌, map, ◌||◌, ◌==◌, is_empty,
  if◌then◌else◌,
}
use pathosd.Common.Dict.{Dict, lookup, insert, member}
use pathosd.Config.Checks.{effective_name}
use pathosd.Config.Vip.{VipConfig, Config}
use pathosd.Config.ChecksPolicy.{ExprLang}
use pathosd.Config.Diff.{VipChange}
use pathosd.Checks.Registry.{SchedulerRef, Registry, listed, add, add_shadow, remove_vip_schedulers}
use pathosd.Policy.Notifier.{Notifier}
use pathosd.Policy.State.{Env}
use pathosd.Policy.Commit.{CommitError, add_vip, remove_vip, commit_vip}
use pathosd.Reload.State.{
  Pool, close_schedulers, StagedVip, applied, failed, ReloadError, remove_error, commit_error,
  level_error, ReloadStatus, Reloader, Host,
}
use pathosd.Reload.Staging.{attach, watch_shadow, stop_checks}
use pathosd.Reload.Prepare.{refs_of}

-- what the loops of the apply phase change: the daemon, the status, and the VIPs that are not removed
pub record Progress (N P : Type 0) : Type 0 where
  pub daemon : Reloader N P
  pub status : ReloadStatus
  pub kept : Dict VipConfig

abbrev pub add_error : ReloadError → ReloadStatus → ReloadStatus
add_error e st = record st { errors = st.errors ++ e ∷ [] }

-- the error of a commit, if there is one
unfoldable pub note_error : Option CommitError → ReloadStatus → ReloadStatus
note_error none st = st
note_error (some e) st = add_error (commit_error e) st

-- `r.reg.Add(s)`, for each scheduler
unfoldable pub add_back : List SchedulerRef → Registry → Registry
add_back [] reg = reg
add_back (s ∷ scheds) reg = add_back scheds (add reg s)

-- the schedulers of an added VIP get their callbacks, and are listed
unfoldable pub add_schedulers : List SchedulerRef → Registry × Pool → Registry × Pool
add_schedulers [] x = x
add_schedulers (s ∷ scheds) (reg, pool) = add_schedulers scheds (add reg s, attach s pool)

unfoldable pub add_shadows : List SchedulerRef → Registry × Pool → Registry × Pool
add_shadows [] x = x
add_shadows (s ∷ scheds) (reg, pool) = add_shadows scheds (add_shadow reg s, watch_shadow s pool)

-- `cfg.VIPs[idx] = *old`, or an append if the name is not there
unfoldable pub put_vip : VipConfig → List VipConfig → List VipConfig
put_vip old [] = old ∷ []
put_vip old (v ∷ vips) = if v.name == old.name then old ∷ vips else v ∷ put_vip old vips

unfoldable pub put_vips : Dict VipConfig → List VipConfig → List VipConfig
unfolding put_vip
put_vips [] vips = vips
put_vips ((name, old) ∷ kept) vips = put_vips kept (put_vip old vips)

module _ {N R P : Type 0} (lang : ExprLang P) (bgp : Notifier N R) where
  -- one round of the loop over the removed VIPs; `none` is a panic of the registry
  unfoldable pub remove_one : Progress N P → VipConfig → Option (Progress N P)
  unfolding add_back
  remove_one p v =
      let r = p.daemon in
      let running = listed r.reg v.name in
      elim (remove_vip_schedulers r.reg v.name) [
        | none ↦ none
        | some reg ↦
            let (pol, e) = remove_vip lang bgp r.pol v.name in
            elim e [
              | some x ↦ some (record {
                daemon = record r { reg = add_back running reg; pol = pol };
                status = add_error (remove_error x) p.status;
                kept = insert v.name v p.kept;
              })
              | none ↦ some (record p {
                daemon = record r { reg = reg; pol = pol; pool = close_schedulers running r.pool };
                status = record p.status { removed = p.status.removed ++ v.name ∷ [] };
              })
            ]
      ]

  unfoldable pub remove_vips : Progress N P → List VipConfig → Option (Progress N P)
  remove_vips p [] = some p
  remove_vips p (v ∷ vips) = elim (remove_one p v) [ none ↦ none | some p' ↦ remove_vips p' vips ]

  -- one round of the loop over the added VIPs, with the schedulers that were built
  unfoldable pub add_one : Env → Progress N P → List SchedulerRef → VipConfig → Progress N P
  unfolding add_schedulers
  add_one env p scheds v =
      let r = p.daemon in
      if member v.name p.kept
      then record p { daemon = record r { pool = close_schedulers scheds r.pool } }
      else let (reg, pool) = add_schedulers scheds (r.reg, r.pool) in
        record p {
          daemon = record r { pol = add_vip lang env r.pol v; reg = reg; pool = pool };
          status = record p.status { added = p.status.added ++ v.name ∷ [] };
        }

  unfoldable pub add_vips :
      Env → Dict (List SchedulerRef) → Progress N P → List VipConfig → Progress N P
  add_vips env built p [] = p
  add_vips env built p (v ∷ vips) =
      let scheds : List SchedulerRef = elim (lookup v.name built) [ none ↦ [] | some s ↦ s ] in
      add_vips env built (add_one env p scheds v) vips

  -- a changed VIP with nothing to prove in shadow
  unfoldable pub change_now : Env → Progress N P → VipChange → Progress N P
  unfolding note_error
  change_now env p ch =
      let r = p.daemon in
      let (reg, pool) =
        stop_checks ch.new.name (map effective_name ch.checks_removed) (r.reg, r.pool) in
      let (pol, e) = commit_vip lang bgp env r.pol ch.new [] in
      record p {
        daemon = record r { reg = reg; pool = pool; pol = pol };
        status = note_error e p.status;
      }

  -- a changed VIP whose new checks start in shadow
  unfoldable pub change_staged : Progress N P → StagedVip → VipChange → Progress N P
  unfolding add_shadows
  change_staged p st ch =
      let r = p.daemon in
      let (reg, pool) = add_shadows (refs_of st.shadows) (r.reg, r.pool) in
      record p {
        daemon = record r { staging = insert ch.new.name st r.staging; reg = reg; pool = pool };
        status = record p.status { pending = p.status.pending ++ ch.new.name ∷ [] };
      }

  unfoldable pub change_one : Env → Dict StagedVip → Progress N P → VipChange → Progress N P
  change_one env staged p ch =
      let p' = record p {
        status = record p.status { changed = p.status.changed ++ ch.new.name ∷ [] };
      } in
      elim (lookup ch.new.name staged) [
        | none ↦ change_now env p' ch
        | some st ↦ change_staged p' st ch
      ]

  unfoldable pub change_vips : Env → Dict StagedVip → Progress N P → List VipChange → Progress N P
  change_vips env staged p [] = p
  change_vips env staged p (ch ∷ changes) =
      change_vips env staged (change_one env staged p ch) changes

  -- the level of the logging
  unfoldable pub set_level : Host → Config → Progress N P → Progress N P
  set_level host cfg p =
      let r = p.daemon in
      if r.lock_log_level || cfg.logging.level == r.cur.logging.level
      then p
      else if host.takes_level cfg.logging.level
      then record p { daemon = record r { log_level = cfg.logging.level } }
      else record p { status = add_error level_error p.status }

  -- the end of reloadLocked
  unfoldable pub finish : Config → String → Progress N P → Reloader N P × ReloadStatus
  finish cfg hash p =
      let clean = is_empty p.kept in
      (
        record p.daemon {
          cur = record cfg { vips = put_vips p.kept cfg.vips };
          cur_hash = if clean then some hash else none;
          file_changed = not clean;
          loaded_at = p.status.at;
          generation = suc p.daemon.generation;
        },
        record p.status { outcome = if is_empty p.status.errors then applied else failed },
      )
