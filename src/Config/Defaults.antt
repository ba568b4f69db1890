-- ===== src/Config/Defaults.antt =====
-- internal/config/defaults.go: ApplyDefaults.
pub mod Zero
pub mod Http
pub mod Checks
pub mod Filled
use pathosd.Common.{
  ℕ, String, Bool, true, false, Option, none, some, List, [], ◌∷◌, map, ◌&&◌, ◌==◌, if◌then◌else◌,
  is_empty,
}
use pathosd.Common.Int.{ℤ, pos}
use pathosd.Config.Stdlib.{Stdlib}
use pathosd.Config.Sections.{
  PathsConfig, OtelSignalConfig, OtelConfig, ApiConfig, LoggingConfig, BgpConfig, NeighborConfig,
}
use pathosd.Config.Checks.{CheckConfig, ListenCheckConfig}
use pathosd.Config.Vip.{AnnounceConfig, LowerPriorityConfig, PolicyConfig, VipConfig, Config}
use pathosd.Config.Defaults.Http.{or_text, or_port}
use pathosd.Config.Defaults.Checks.{or_int, or_value, milliseconds, apply_check_defaults}

-- func applyPathsDefaults
unfoldable pub apply_paths_defaults : PathsConfig → PathsConfig
unfolding or_text
apply_paths_defaults p = record p { procfs = or_text p.procfs "/proc" }

unfoldable pub enable_signal : OtelSignalConfig → OtelSignalConfig
unfolding or_value
enable_signal s = record s { enabled = or_value s.enabled true }

-- func applyOTelDefaults
unfoldable pub apply_otel_defaults : OtelConfig → OtelConfig
unfolding enable_signal or_text
apply_otel_defaults o = record o {
  enabled = or_value o.enabled true;
  service_name = or_text o.service_name "pathosd";
  traces = enable_signal o.traces;
  metrics = enable_signal o.metrics;
  logs = enable_signal o.logs;
}

-- func applyPolicyDefaults, its block lower_priority
unfoldable pub lower_priority_defaults : Option LowerPriorityConfig → LowerPriorityConfig
unfolding or_value
lower_priority_defaults none = record { as_path_prepend = some (pos 6); communities = [] }
lower_priority_defaults (some l) = record l { as_path_prepend = or_value l.as_path_prepend (pos 6) }

-- its block announce
unfoldable pub announce_defaults : Option AnnounceConfig → AnnounceConfig
unfolding or_value
announce_defaults none = record { as_path_prepend = some (pos 0); communities = [] }
announce_defaults (some a) = record a { as_path_prepend = or_value a.as_path_prepend (pos 0) }

-- func applyPolicyDefaults
unfoldable pub apply_policy_defaults : PolicyConfig → PolicyConfig
unfolding lower_priority_defaults announce_defaults or_text
apply_policy_defaults p = record p {
  fail_action = or_text p.fail_action "lower_priority";
  lower_priority = some (lower_priority_defaults p.lower_priority);
  announce = some (announce_defaults p.announce);
}

-- `if c.Listen != nil && c.Listen.Procfs == "" { … }`
unfoldable pub apply_procfs : String → CheckConfig → CheckConfig
unfolding or_text
apply_procfs procfs c = elim c.listen [
  | none ↦ c
  | some l ↦ record c { listen = some (record l { procfs = or_text l.procfs procfs }) }
]

-- what ApplyDefaults does with a check of a VIP, given paths.procfs
unfoldable pub fill_check : Stdlib → String → String → CheckConfig → CheckConfig
unfolding apply_procfs apply_check_defaults
fill_check std procfs prefix c = apply_procfs procfs (apply_check_defaults std prefix c)

-- what it does with a VIP that has a check; CheckList gives pointers to the checks of the VIP
unfoldable pub fill_vip : Stdlib → String → VipConfig → VipConfig
unfolding fill_check apply_policy_defaults
fill_vip std procfs v = record v {
  check = if is_empty v.checks then fill_check std procfs v.prefix v.check else v.check;
  checks = map (fill_check std procfs v.prefix) v.checks;
  checks_policy = or_text v.checks_policy "all";
  policy = apply_policy_defaults v.policy;
}

-- one round of the loop of ApplyDefaults over the VIPs
unfoldable pub apply_vip_defaults : Stdlib → String → VipConfig → VipConfig
unfolding fill_vip
apply_vip_defaults std procfs v =
    if is_empty v.checks && v.check.type == "" then v else fill_vip std procfs v

unfoldable pub apply_api_defaults : ApiConfig → ApiConfig
unfolding or_text or_value
apply_api_defaults a = record a {
  listen = or_text a.listen ":59179";
  read_header_timeout = or_value a.read_header_timeout (milliseconds 10000);
  read_timeout = or_value a.read_timeout (milliseconds 30000);
  write_timeout = or_value a.write_timeout (milliseconds 60000);
  idle_timeout = or_value a.idle_timeout (milliseconds 120000);
}

unfoldable pub apply_logging_defaults : LoggingConfig → LoggingConfig
unfolding or_text
apply_logging_defaults l = record l {
  level = or_text l.level "info";
  format = or_text l.format "text";
}

unfoldable pub apply_neighbor_defaults : NeighborConfig → NeighborConfig
unfolding or_port or_value
apply_neighbor_defaults n = record n {
  port = or_port n.port 179;
  required = or_value n.required true;
}

unfoldable pub apply_bgp_defaults : BgpConfig → BgpConfig
unfolding or_int or_value or_text apply_neighbor_defaults
apply_bgp_defaults b = record b {
  graceful_restart = or_value b.graceful_restart true;
  listen_port = or_int b.listen_port (pos 179);
  gobgp_api = record b.gobgp_api {
    listen =
        if b.gobgp_api.enabled
        then or_text b.gobgp_api.listen "127.0.0.1:50051"
        else b.gobgp_api.listen;
  };
  neighbors = map apply_neighbor_defaults b.neighbors;
}

-- func ApplyDefaults
unfoldable pub apply_defaults : Stdlib → Config → Config
unfolding apply_api_defaults apply_logging_defaults apply_bgp_defaults apply_paths_defaults
    apply_vip_defaults apply_otel_defaults
apply_defaults std cfg =
    let paths = apply_paths_defaults cfg.paths in
    record cfg {
      api = apply_api_defaults cfg.api;
      logging = apply_logging_defaults cfg.logging;
      bgp = apply_bgp_defaults cfg.bgp;
      paths = paths;
      vips = map (apply_vip_defaults std paths.procfs) cfg.vips;
      otel = apply_otel_defaults cfg.otel;
    }
