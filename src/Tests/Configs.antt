-- ===== src/Tests/Configs.antt =====
-- Configs that load, and that are refused.
use pathosd.Common.{
  ℕ, String, ◌≡◌, refl, true, Option, some, [], ◌∷◌, All, map, is_distinct, contains, split_colon,
  parse_uint16, print_nat, replace_all,
}
use pathosd.Config.Checks.{CheckConfig}
use pathosd.Config.Vip.{VipConfig, Config, check_list}
use pathosd.Config.Validate.Report.{concat, report, is_bad_ip, lacks_host, is_single_host, at_index}
use pathosd.Config.Validate.CheckTypes.{validate_check, validate_tcp_check}
use pathosd.Config.Validate.Policy.{validate_policy}
use pathosd.Config.Validate.Vips.{validate_vips, validate_vip_rest, has_single}
use pathosd.Config.Validate.Sections.{validate}
use pathosd.Config.Validate.Distinct.{validate-is_distinct, network, is_cidr}
use pathosd.Config.Defaults.Checks.{default_tcp}
use pathosd.Config.Defaults.{apply_defaults}
use pathosd.Config.Placeholders.{expand_env_placeholders}
use pathosd.Config.Load.{load_bytes, decode}
use pathosd.Model.State.{VipState}
use pathosd.Policy.Engine.{route_attrs_for}
use pathosd.Bgp.Accepted.{validate-CanOriginate, CanOriginate}
use pathosd.Reload.Pace.{load_bytes-BuildsPaced, BuildsPaced}
use pathosd.Tests.Fixtures.{constants}
use pathosd.Tests.Files.{parsers, written, vip_at, decoders}

abbrev pub loaded : Config
loaded = apply_defaults parsers written

valid : validate parsers constants loaded ≡ []
unfolding validate apply_defaults concat report contains is_bad_ip validate_vips validate_vip_rest
    has_single default_tcp check_list validate_check validate_tcp_check lacks_host validate_policy
    split_colon parse_uint16
valid = refl

-- two texts of one prefix are refused
abbrev repeated : Config
repeated = record loaded { vips = vip_at "web" "10.0.0.1/32" ∷ vip_at "dns" "10.0.0.001/32" ∷ [] }

repeated_refused : validate parsers constants repeated ≡ "vips[1].prefix" ∷ []
unfolding validate apply_defaults concat report contains is_bad_ip validate_vips validate_vip_rest
    has_single default_tcp check_list validate_check validate_tcp_check lacks_host validate_policy
    split_colon parse_uint16 is_single_host at_index print_nat
repeated_refused = refl

validate-is_distinct_example :
    (is_distinct (map VipConfig.name loaded.vips) ≡ true)
    × (is_distinct (map (λ v. network parsers v.prefix) loaded.vips) ≡ true)
    × All (λ v. is_cidr parsers v.prefix ≡ true) loaded.vips
validate-is_distinct_example = validate-is_distinct constants parsers loaded valid

abbrev tcp_only : CheckConfig → Option String
tcp_only c = some c.type

pub loads : load_bytes parsers constants decoders "schema: v1" "pathosd.yaml" ≡ some loaded
unfolding load_bytes decode expand_env_placeholders replace_all
loads = rw valid refl

load_bytes-BuildsPaced_example : All (BuildsPaced ℕ parsers tcp_only) loaded.vips
load_bytes-BuildsPaced_example =
    load_bytes-BuildsPaced ℕ parsers tcp_only constants decoders "schema: v1" "pathosd.yaml" loaded
      loads

validate-CanOriginate_example :
    All (λ v. (st : VipState) → CanOriginate (route_attrs_for v.policy st)) loaded.vips
validate-CanOriginate_example = validate-CanOriginate constants parsers loaded valid
