-- ===== src/Model/Status.antt =====
-- internal/model/model.go: what the HTTP API reports of a VIP and of its checks.
use pathosd.Common.{ℕ, String, Bool, List}
use pathosd.Common.Int.{ℤ}
use pathosd.Model.State.{VipState, HealthStatus}

-- type CheckStatus
pub record CheckStatus : Type 0 where
  pub name : String
  pub type : String
  pub health : HealthStatus
  pub health_name : String
  pub consecutive_ok : ℤ
  pub consecutive_fail : ℤ
  pub last_success : Bool
  pub last_detail : String
  pub last_time : ℕ

-- type VIPStatus
pub record VipStatusReport : Type 0 where
  pub name : String
  pub prefix : String
  pub state : VipState
  pub state_name : String
  pub health : HealthStatus
  pub health_name : String
  pub consecutive_ok : ℤ
  pub consecutive_fail : ℤ
  pub last_check_success : Bool
  pub last_check_detail : String
  pub last_check_time : ℕ
  pub last_transition_time : ℕ
  pub last_transition_reason : String
  pub check_type : String
  pub checks_policy : String
  pub checks : List CheckStatus
  pub bgp_pending : Bool
  pub as_path_prepend_base : ℤ
  pub as_path_prepend : ℤ
  pub communities : List String
