-- ===== src/Config/Sections.antt =====
-- The sections of the config file other than `vips` (internal/config/config.go).
-- A pointer to a value is an `Option`; a duration counts nanoseconds.
use pathosd.Common.{
  ℕ, String, Bool, true, Option, none, some, [], ◌∷◌, List, ◌==◌, is_empty, if◌then◌else◌,
}
use pathosd.Common.Int.{ℤ}
use pathosd.Common.Dict.{Dict, insert}

-- type PathsConfig
pub record PathsConfig : Type 0 where
  pub procfs : String

-- type OTelSignalConfig
pub record OtelSignalConfig : Type 0 where
  pub endpoint : String
  pub enabled : Option Bool
  pub insecure : Option Bool
  pub headers : Dict String

-- type OTelConfig
pub record OtelConfig : Type 0 where
  pub enabled : Option Bool
  pub endpoint : String
  pub insecure : Bool
  pub headers : Dict String
  pub service_name : String
  pub traces : OtelSignalConfig
  pub metrics : OtelSignalConfig
  pub logs : OtelSignalConfig

-- type RouterConfig
pub record RouterConfig : Type 0 where
  pub asn : ℕ  -- uint32
  pub router_id : String
  pub local_address : String
  pub local_address_ipv6 : String

-- type APIConfig
pub record ApiConfig : Type 0 where
  pub listen : String
  pub read_header_timeout : Option ℤ
  pub read_timeout : Option ℤ
  pub write_timeout : Option ℤ
  pub idle_timeout : Option ℤ

-- type LoggingConfig
pub record LoggingConfig : Type 0 where
  pub level : String
  pub format : String
  pub otel_level : String
  pub timestamps : Option Bool

-- type GoBGPAPIConfig
pub record GoBgpApiConfig : Type 0 where
  pub enabled : Bool
  pub listen : String

-- type BFDConfig
pub record BfdConfig : Type 0 where
  pub enabled : Bool
  pub port : ℕ  -- uint32
  pub desired_minimum_tx_interval : ℕ  -- uint32
  pub required_minimum_receive : ℕ  -- uint32
  pub detection_multiplier : ℕ  -- uint32

-- type NeighborConfig
pub record NeighborConfig : Type 0 where
  pub name : String
  pub address : String
  pub peer_asn : ℕ  -- uint32
  pub required : Option Bool
  pub port : ℕ  -- uint16
  pub local_address : String
  pub passive : Bool
  pub enable_multihop : Bool
  pub multihop_ttl : ℕ  -- uint32
  pub bfd : Option BfdConfig
  pub auth_password : String

-- type BGPConfig
pub record BgpConfig : Type 0 where
  pub graceful_restart : Option Bool
  pub hold_time : Option ℤ
  pub keepalive_time : Option ℤ
  pub listen_address : String
  pub listen_port : ℤ
  pub gobgp_api : GoBgpApiConfig
  pub neighbors : List NeighborConfig

-- func (s OTelSignalConfig) EffectiveEndpoint
unfoldable pub effective_endpoint : OtelSignalConfig → String → String
effective_endpoint s global = if s.endpoint == "" then global else s.endpoint

-- func (s OTelSignalConfig) IsEnabled
unfoldable pub signal_is_enabled : OtelSignalConfig → Bool
signal_is_enabled s = elim s.enabled [ none ↦ true | some b ↦ b ]

-- func (o OTelConfig) IsEnabled
unfoldable pub otel_is_enabled : OtelConfig → Bool
otel_is_enabled o = elim o.enabled [ none ↦ true | some b ↦ b ]

-- func (s OTelSignalConfig) EffectiveInsecure
unfoldable pub effective_insecure : OtelSignalConfig → Bool → Bool
effective_insecure s global = elim s.insecure [ none ↦ global | some b ↦ b ]

-- maps.Copy(merged, headers)
unfoldable pub copy_headers : Dict String → Dict String → Dict String
copy_headers merged [] = merged
copy_headers merged ((k, v) ∷ rest) = copy_headers (insert k v merged) rest

-- func (s OTelSignalConfig) EffectiveHeaders
unfoldable pub effective_headers : OtelSignalConfig → Dict String → Dict String
unfolding copy_headers
effective_headers s global = if is_empty s.headers then global else copy_headers global s.headers
