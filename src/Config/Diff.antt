-- ===== src/Config/Diff.antt =====
-- internal/config/diff.go: what a reload has to change, and what it cannot change.
pub mod Restart
pub mod Empty
use pathosd.Common.{
  String, Bool, true, false, not, Option, none, some, List, [], ◌∷◌, ◌++◌, ◌&&◌, ◌||◌, ◌==◌,
  is_empty, if◌then◌else◌, ltb,
}
use pathosd.Common.Dict.{Dict, lookup, insert, member}
use pathosd.Config.Sections.{LoggingConfig, BgpConfig}
use pathosd.Config.Checks.{CheckConfig, effective_name}
use pathosd.Config.Vip.{Config, VipConfig, check_list, effective_checks_policy}
use pathosd.Config.Equality.{
  deep_equal, text_discrete, list_discrete, CheckConfig-Discrete, PolicyConfig-Discrete,
  VipConfig-Discrete, NeighborConfig-Discrete, RouterConfig-Discrete, BgpConfig-Discrete,
  OtelConfig-Discrete, ApiConfig-Discrete, LoggingConfig-Discrete, PathsConfig-Discrete,
}

-- `if !equal { changed = append(changed, section) }`, for each section
unfoldable pub differing : List (Bool × String) → List String
differing [] = []
differing ((equal, name) ∷ list) = let rest = differing list in if equal then rest else name ∷ rest

abbrev pub without_level : LoggingConfig → LoggingConfig
without_level l = record l { level = "" }

abbrev pub without_neighbors : BgpConfig → BgpConfig
without_neighbors b = record b { neighbors = [] }

-- the sections that RestartRequired compares
abbrev pub sections : Config → Config → List (Bool × String)
sections running candidate =
    let rl = without_level running.logging in
    let cl = without_level candidate.logging in
    let rb = without_neighbors running.bgp in
    let cb = without_neighbors candidate.bgp in
    (running.schema == candidate.schema, "schema")
    ∷ (deep_equal RouterConfig-Discrete running.router candidate.router, "router")
    ∷ (deep_equal ApiConfig-Discrete running.api candidate.api, "api")
    ∷ (deep_equal LoggingConfig-Discrete rl cl, "logging (other than level)")
    ∷ (deep_equal OtelConfig-Discrete running.otel candidate.otel, "otel")
    ∷ (deep_equal PathsConfig-Discrete running.paths candidate.paths, "paths")
    ∷ (deep_equal BgpConfig-Discrete rb cb, "bgp")
    ∷ (
      deep_equal (list_discrete NeighborConfig-Discrete) running.bgp.neighbors
          candidate.bgp.neighbors,
      "bgp.neighbors",
    )
    ∷ []

-- func RestartRequired
unfoldable pub restart_required : Config → Config → List String
unfolding differing
restart_required running candidate = differing (sections running candidate)

-- type VIPChange
pub record VipChange : Type 0 where
  pub old : VipConfig
  pub new : VipConfig
  pub checks_changed : List CheckConfig
  pub checks_removed : List CheckConfig
  pub policy_changed : Bool

-- type VIPChanges
pub record VipChanges : Type 0 where
  pub added : List VipConfig
  pub removed : List VipConfig
  pub changed : List VipChange
  pub unchanged : List String

-- func (c VIPChanges) IsEmpty
unfoldable pub changes_is_empty : VipChanges → Bool
changes_is_empty c = is_empty c.added && is_empty c.removed && is_empty c.changed

-- the checks of a list by effective name, the last of each name
unfoldable pub checks_by_name : List CheckConfig → Dict CheckConfig → Dict CheckConfig
checks_by_name [] d = d
checks_by_name (c ∷ list) d = checks_by_name list (insert (effective_name c) c d)

-- the loop of diffVIP over the checks of the new definition
unfoldable pub changed_checks : Dict CheckConfig → Bool → List CheckConfig → List CheckConfig
changed_checks old guard_changed [] = []
changed_checks old guard_changed (c ∷ list) =
    let rest = changed_checks old guard_changed list in
    elim (lookup (effective_name c) old) [
      | none ↦ c ∷ rest
      | some oc ↦
          if guard_changed || not (deep_equal CheckConfig-Discrete oc c) then c ∷ rest else rest
    ]

-- the loop over the checks of the old definition
unfoldable pub removed_checks : Dict CheckConfig → List CheckConfig → List CheckConfig
removed_checks new [] = []
removed_checks new (c ∷ list) =
    let rest = removed_checks new list in if member (effective_name c) new then rest else c ∷ rest

-- func diffVIP
unfoldable pub diff_vip : VipConfig → VipConfig → VipChange
unfolding checks_by_name changed_checks removed_checks
diff_vip ov nv =
    let guard_changed =
      (if ov.require_local_address then not nv.require_local_address else nv.require_local_address)
      || not (ov.local_interface == nv.local_interface) in
    record {
      old = ov;
      new = nv;
      checks_changed =
          changed_checks (checks_by_name (check_list ov) []) guard_changed (check_list nv);
      checks_removed = removed_checks (checks_by_name (check_list nv) []) (check_list ov);
      policy_changed =
          not (deep_equal PolicyConfig-Discrete ov.policy nv.policy)
          || not (effective_checks_policy ov == effective_checks_policy nv);
    }

-- the VIPs of a list by name, the last of each name
unfoldable pub vips_by_name : List VipConfig → Dict VipConfig → Dict VipConfig
vips_by_name [] d = d
vips_by_name (v ∷ list) d = vips_by_name list (insert v.name v d)

-- the loop of DiffVIPs over the candidate's VIPs
unfoldable pub diff_candidates : Dict VipConfig → List VipConfig → VipChanges
diff_candidates old [] = record { added = []; removed = []; changed = []; unchanged = [] }
diff_candidates old (nv ∷ list) =
    let out = diff_candidates old list in
    elim (lookup nv.name old) [
      | none ↦ record out { added = nv ∷ out.added }
      | some ov ↦
          if not (ov.prefix == nv.prefix)
          then record out { added = nv ∷ out.added; removed = ov ∷ out.removed }
          else if deep_equal VipConfig-Discrete ov nv
          then record out { unchanged = nv.name ∷ out.unchanged }
          else record out { changed = diff_vip ov nv ∷ out.changed }
    ]

-- the loop over the running VIPs
unfoldable pub unseen_vips : Dict VipConfig → List VipConfig → List VipConfig
unseen_vips seen [] = []
unseen_vips seen (v ∷ list) =
    let rest = unseen_vips seen list in if member v.name seen then rest else v ∷ rest

-- func DiffVIPs
unfoldable pub diff_vips : List VipConfig → List VipConfig → VipChanges
unfolding vips_by_name diff_candidates unseen_vips
diff_vips running candidate =
    let out = diff_candidates (vips_by_name running []) candidate in
    record out { removed = out.removed ++ unseen_vips (vips_by_name candidate []) running }
