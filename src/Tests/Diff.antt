-- ===== src/Tests/Diff.antt =====
-- The difference of two configs.
use pathosd.Common.{String, ◌≡◌, refl, true, false, none, some, List, [], ◌∷◌, All}
use pathosd.Common.Int.{pos}
use pathosd.Common.Dict.{lookup, insert, member}
use pathosd.Config.Sections.{OtelSignalConfig}
use pathosd.Config.Vip.{VipConfig, Config}
use pathosd.Config.Equality.{deep_equal_refl, VipConfig-Discrete}
use pathosd.Config.Diff.{
  restart_required, changes_is_empty, diff_vips, diff_candidates, unseen_vips, vips_by_name,
}
use pathosd.Config.Diff.Restart.{restart_required-none, restart_required_without}
use pathosd.Config.Diff.Empty.{diff_vips_nothing_to_do}
use pathosd.Tests.Fixtures.{web}

abbrev signal : OtelSignalConfig
signal = record { endpoint = ""; enabled = none; insecure = none; headers = [] }

abbrev config_at : String → List VipConfig → Config
config_at level vips = record {
  schema = "v1";
  router = record {
    asn = 65000;
    router_id = "10.0.0.9";
    local_address = "";
    local_address_ipv6 = "";
  };
  api = record {
    listen = ":59179";
    read_header_timeout = none;
    read_timeout = none;
    write_timeout = none;
    idle_timeout = none;
  };
  logging = record { level = level; format = "text"; otel_level = "warn"; timestamps = none };
  otel = record {
    enabled = none;
    endpoint = "";
    insecure = false;
    headers = [];
    service_name = "pathosd";
    traces = signal;
    metrics = signal;
    logs = signal;
  };
  paths = record { procfs = "/proc" };
  bgp = record {
    graceful_restart = none;
    hold_time = none;
    keepalive_time = none;
    listen_address = "";
    listen_port = pos 179;
    gobgp_api = record { enabled = false; listen = "" };
    neighbors = [];
  };
  vips = vips;
}

same_sections : restart_required (config_at "info" []) (config_at "debug" (web ∷ [])) ≡ []
same_sections = restart_required_without (config_at "info" []) "debug" (web ∷ [])

restart_required-none_example : config_at "debug" (web ∷ []) ≡ record (config_at "info" []) {
  logging = record (config_at "info" []).logging { level = "debug" };
  vips = web ∷ [];
}
restart_required-none_example =
    restart_required-none (config_at "info" []) (config_at "debug" (web ∷ [])) same_sections

no_changes : changes_is_empty (diff_vips (web ∷ []) (web ∷ [])) ≡ true
unfolding diff_vips diff_candidates unseen_vips vips_by_name changes_is_empty lookup insert member
no_changes = rw (deep_equal_refl VipConfig-Discrete web) refl

diff_vips_nothing_to_do_example :
    All (λ nv. lookup nv.name (vips_by_name (web ∷ []) []) ≡ some nv) (web ∷ [])
    × All (λ ov. member ov.name (vips_by_name (web ∷ []) []) ≡ true) (web ∷ [])
diff_vips_nothing_to_do_example = diff_vips_nothing_to_do (web ∷ []) (web ∷ []) no_changes
