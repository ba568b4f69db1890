-- ===== src/Policy/State.antt =====
-- The state of policy.Manager (internal/policy/manager.go), and what its methods do to the outside.
use pathosd.Common.{ℕ, String, ◌≡◌, Bool, true, false, Option, List, ◌∷◌, arith}
use pathosd.Common.Int.{ℤ}
use pathosd.Common.Dict.{Dict}
use pathosd.Config.Checks.{CheckConfig}
use pathosd.Config.Vip.{VipConfig}
use pathosd.Config.ChecksPolicy.{ChecksEvaluator}
use pathosd.Model.State.{
  VipState, withdrawn, announced, pessimized, HealthStatus, unknown, healthy, unhealthy,
}
use pathosd.Model.Details.{CheckDetails}
use pathosd.Checks.Result.{Result}

-- A write to a metric, with its labels, or the call of the transition listener.
pub data Effect : Type 0 where
  vip_state : String → String → VipState → Effect
  vip_priority : String → String → ℤ → Effect
  vip_transition : String → String → VipState → Effect
  vip_last_transition : String → String → ℕ → Effect
  check_last_result : String → String → String → Bool → Effect
  check_total : String → String → String → String → Bool → Effect
  check_duration : String → String → String → String → ℤ → Effect
  check_timeout : String → String → String → Effect
  check_details : String → String → String → Option CheckDetails → Effect
  delete_vip_series : String → Effect
  delete_check_series : String → String → Effect
  listener : Effect

-- What a method reads from the host: the clock, and whether os.Stat finds a file.
pub record Env : Type 0 where
  pub now : ℕ
  pub stat : String → Bool

-- type checkState
pub record CheckState : Type 0 where
  pub cfg : CheckConfig
  pub health : HealthStatus
  pub last_result : Result
  pub last_time : ℕ

-- type vipState
pub record VipStatus : Type 0 where
  pub state : VipState
  pub health : HealthStatus
  pub checks : Dict CheckState
  pub lower_priority_file_on : Bool
  pub last_transition_at : ℕ
  pub last_transition_reason : String
  pub bgp_pending : Bool

-- type vipEntry
pub record VipEntry (Program : Type 0) : Type 0 where
  pub cfg : VipConfig
  pub eval : ChecksEvaluator Program
  pub state : VipStatus

-- What a method of the manager changes outside of the VIPs: the notifier, which may be nil, and the
-- effects, newest first.
pub record World (N : Type 0) : Type 0 where
  pub notifier : Option N
  pub has_listener : Bool
  pub effects : List Effect

-- type Manager
pub record Manager (N Program : Type 0) : Type 0 where
  pub vips : Dict (VipEntry Program)
  pub order : List String
  pub world : World N

-- func (m *Manager) SetTransitionListener
unfoldable pub set_transition_listener : {N P : Type 0} → Manager N P → Bool → Manager N P
set_transition_listener m set = record m { world = record m.world { has_listener = set } }

abbrev pub emit : {N : Type 0} → Effect → World N → World N
emit e w = record w { effects = e ∷ w.effects }

-- == on VIPState
abbrev pub same_state : VipState → VipState → Bool
same_state withdrawn withdrawn = true
same_state announced announced = true
same_state pessimized pessimized = true
same_state _ _ = false

-- == on HealthStatus
abbrev pub same_health : HealthStatus → HealthStatus → Bool
same_health unknown unknown = true
same_health healthy healthy = true
same_health unhealthy unhealthy = true
same_health _ _ = false

pub same_state-eq : (s t : VipState) → same_state s t ≡ true → s ≡ t
same_state-eq s t h = ground arith

pub same_health-eq : (s t : HealthStatus) → same_health s t ≡ true → s ≡ t
same_health-eq s t h = ground arith
