-- ===== src/Model/State.antt =====
-- The routing state and health of a VIP, and the attributes of its route (internal/model/model.go).
use pathosd.Common.{String, List, []}
use pathosd.Common.Int.{ℤ, pos}

-- type VIPState
pub data VipState : Type 0 where
  withdrawn announced pessimized : VipState

-- type HealthStatus
pub data HealthStatus : Type 0 where
  unknown healthy unhealthy : HealthStatus

-- type RouteAttrs; a nil list of communities is the empty list
pub record RouteAttrs : Type 0 where
  pub as_path_prepend : ℤ
  pub communities : List String

-- RouteAttrs{}
abbrev pub no_attrs : RouteAttrs
no_attrs = record { as_path_prepend = pos 0; communities = [] }

-- func (s VIPState) String
unfoldable pub vip_state_string : VipState → String
vip_state_string withdrawn = "withdrawn"
vip_state_string announced = "announced"
vip_state_string pessimized = "pessimized"

-- func (h HealthStatus) String
unfoldable pub health_string : HealthStatus → String
health_string unknown = "unknown"
health_string healthy = "healthy"
health_string unhealthy = "unhealthy"
