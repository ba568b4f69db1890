-- ===== src/Policy/Status.antt =====
-- internal/policy/manager.go: GetVIPStatuses, which renders the state of the manager for the HTTP API.
pub mod Order
pub mod Commits
pub mod Boot
pub mod Reach
use pathosd.Common.{
  join, ℕ, max, String, Bool, true, false, Option, none, some, List, [], ◌∷◌, ◌==◌, ◌||◌, ◌++◌,
  length, nat_eq, is_empty, append, if◌then◌else◌,
}
use pathosd.Common.Int.{pos}
use pathosd.Common.Dict.{Dict, lookup, insert}
use pathosd.Config.Checks.{CheckConfig, effective_name}
use pathosd.Config.Vip.{
  VipConfig, check_list, effective_checks_policy, checks_policy_all, checks_policy_any,
}
use pathosd.Config.ChecksPolicy.{ExprLang, ChecksEvaluator, eval}
use pathosd.Model.State.{vip_state_string, health_string}
use pathosd.Model.Status.{CheckStatus, VipStatusReport}
use pathosd.Policy.Engine.{base_route_attrs, route_attrs_for}
use pathosd.Policy.State.{CheckState, VipEntry, Manager}

-- type checkSummary
pub record CheckSummary : Type 0 where
  pub checks : List CheckStatus
  pub check_type : String
  pub last_success : Bool
  pub last_detail : String
  pub last_time : ℕ

-- what the loop of summarizeChecks collects
pub record Collected : Type 0 where
  pub checks : List CheckStatus
  pub types : List String
  pub details : List String
  pub last_ok : Dict Bool
  pub last_time : ℕ

abbrev pub check_status : CheckConfig → CheckState → CheckStatus
check_status c st = record {
  name = effective_name c;
  type = c.type;
  health = st.health;
  health_name = health_string st.health;
  consecutive_ok = pos 0;
  consecutive_fail = pos 0;
  last_success = st.last_result.success;
  last_detail = st.last_result.detail;
  last_time = st.last_time;
}

-- the detail of one check: alone, or after the name of the check
unfoldable pub detail_lines : Bool → String → String → List String
detail_lines single name detail =
    if single
    then detail ∷ []
    else if detail == ""
    then []
    else append name (append ": " detail) ∷ []

-- the loop of summarizeChecks; `none` is a check without a state, which the loop skips
unfoldable pub collect : Bool → Dict CheckState → List CheckConfig → Collected
collect single cs [] = record { checks = []; types = []; details = []; last_ok = []; last_time = 0 }
collect single cs (c ∷ list) =
    let rest = collect single cs list in
    elim (lookup (effective_name c) cs) [
      | none ↦ rest
      | some st ↦ record {
        checks = check_status c st ∷ rest.checks;
        types = c.type ∷ rest.types;
        details = detail_lines single (effective_name c) st.last_result.detail ++ rest.details;
        last_ok = insert (effective_name c) st.last_result.success rest.last_ok;
        last_time = max st.last_time rest.last_time;
      }
    ]

-- "all(http, dns)" for several checks, the type of the check for one
unfoldable pub summary_type : List CheckConfig → String → List String → String
unfolding join
summary_type (c ∷ []) policy types = c.type
summary_type list policy types =
    if policy == checks_policy_all || policy == checks_policy_any
    then append policy (append "(" (append (join ", " types) ")"))
    else policy

module _ {P : Type 0} (lang : ExprLang P) where
  -- func summarizeChecks
  unfoldable pub summarize_checks : VipConfig → ChecksEvaluator P → Dict CheckState → CheckSummary
  unfolding collect summary_type join detail_lines
  summarize_checks cfg ev cs =
      let list = check_list cfg in
      let out = collect (nat_eq (length list) 1) cs list in
      record {
        checks = out.checks;
        check_type = summary_type list ev.policy out.types;
        last_success = eval lang ev out.last_ok;
        last_detail = join "; " out.details;
        last_time = out.last_time;
      }

  -- the status of one VIP
  unfoldable pub vip_status : String → VipEntry P → VipStatusReport
  unfolding summarize_checks
  vip_status name entry =
      let vs = entry.state in
      let attrs = route_attrs_for entry.cfg.policy vs.state in
      let summary = summarize_checks entry.cfg entry.eval vs.checks in
      record {
        name = name;
        prefix = entry.cfg.prefix;
        state = vs.state;
        state_name = vip_state_string vs.state;
        health = vs.health;
        health_name = health_string vs.health;
        consecutive_ok = pos 0;
        consecutive_fail = pos 0;
        last_check_success = summary.last_success;
        last_check_detail = summary.last_detail;
        last_check_time = summary.last_time;
        last_transition_time = vs.last_transition_at;
        last_transition_reason = vs.last_transition_reason;
        check_type = summary.check_type;
        checks_policy = effective_checks_policy entry.cfg;
        checks = summary.checks;
        bgp_pending = vs.bgp_pending;
        as_path_prepend_base = (base_route_attrs entry.cfg.policy).as_path_prepend;
        as_path_prepend = attrs.as_path_prepend;
        communities = attrs.communities;
      }

  -- The loop of GetVIPStatuses. A name without an entry is a nil pointer, whose config the code reads:
  -- the result is then `none`, a panic.
  unfoldable pub statuses_of : Dict (VipEntry P) → List String → Option (List VipStatusReport)
  statuses_of vips [] = some []
  statuses_of vips (name ∷ names) =
      let rest = statuses_of vips names in
      elim (lookup name vips) [
        | none ↦ none
        | some entry ↦ elim rest [ none ↦ none | some out ↦ some (vip_status name entry ∷ out) ]
      ]

  -- func (m *Manager) GetVIPStatuses
  unfoldable pub get_vip_statuses : {N : Type 0} → Manager N P → Option (List VipStatusReport)
  unfolding statuses_of
  get_vip_statuses m = statuses_of m.vips m.order
