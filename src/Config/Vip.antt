-- ===== src/Config/Vip.antt =====
-- A VIP, its policy, and the whole file (internal/config/config.go).
use pathosd.Common.{String, Bool, Option, List, [], ◌∷◌, ◌==◌, if◌then◌else◌}
use pathosd.Common.Int.{ℤ}
use pathosd.Config.Sections.{
  RouterConfig, ApiConfig, LoggingConfig, OtelConfig, PathsConfig, BgpConfig,
}
use pathosd.Config.Checks.{CheckConfig}

-- type AnnounceConfig
pub record AnnounceConfig : Type 0 where
  pub as_path_prepend : Option ℤ
  pub communities : List String

-- type LowerPriorityConfig
pub record LowerPriorityConfig : Type 0 where
  pub as_path_prepend : Option ℤ
  pub communities : List String

-- type PolicyConfig
pub record PolicyConfig : Type 0 where
  pub fail_action : String
  pub lower_priority_file : String
  pub announce : Option AnnounceConfig
  pub lower_priority : Option LowerPriorityConfig

-- type VIPConfig
pub record VipConfig : Type 0 where
  pub name : String
  pub prefix : String
  pub check : CheckConfig
  pub checks : List CheckConfig
  pub checks_policy : String
  pub policy : PolicyConfig
  pub require_local_address : Bool
  pub local_interface : String

-- type Config
pub record Config : Type 0 where
  pub schema : String
  pub router : RouterConfig
  pub api : ApiConfig
  pub logging : LoggingConfig
  pub otel : OtelConfig
  pub paths : PathsConfig
  pub bgp : BgpConfig
  pub vips : List VipConfig

-- ChecksPolicyAll
abbrev pub checks_policy_all : String
checks_policy_all = "all"

-- ChecksPolicyAny
abbrev pub checks_policy_any : String
checks_policy_any = "any"

-- func (v *VIPConfig) CheckList
unfoldable pub check_list : VipConfig → List CheckConfig
check_list v = elim v.checks [ [] ↦ v.check ∷ [] | c ∷ cs ↦ c ∷ cs ]

-- func (v *VIPConfig) EffectiveChecksPolicy
unfoldable pub effective_checks_policy : VipConfig → String
effective_checks_policy v = if v.checks_policy == "" then checks_policy_all else v.checks_policy
