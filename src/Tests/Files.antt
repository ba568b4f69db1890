-- ===== src/Tests/Files.antt =====
-- A config file for the tests, and the parsers that read it.
use pathosd.Common.{String, true, false, Option, none, some, [], ◌∷◌, ◌==◌, ◌||◌, if◌then◌else◌}
use pathosd.Common.Int.{pos}
use pathosd.Config.Stdlib.{Stdlib, ipv4, Cidr, Prefix}
use pathosd.Config.Sections.{OtelSignalConfig, NeighborConfig}
use pathosd.Config.Checks.{CheckConfig}
use pathosd.Config.Vip.{VipConfig, Config}
use pathosd.Config.Load.{Decoders}
use pathosd.Tests.Fixtures.{check_named, withdraw_policy}

-- two prefixes, and the texts of one of them
abbrev pub cidr : String → Option Cidr
cidr prefix =
    if prefix == "10.0.0.1/32" || prefix == "10.0.0.001/32"
    then some
        (record { ip = "10.0.0.1"; family = ipv4; network = "10.0.0.1/32"; ones = 32; bits = 32 })
    else if prefix == "10.0.0.2/32"
    then some
        (record { ip = "10.0.0.2"; family = ipv4; network = "10.0.0.2/32"; ones = 32; bits = 32 })
    else none

abbrev pub prefix_of : String → Option Prefix
prefix_of prefix = elim (cidr prefix) [
  | none ↦ none
  | some c ↦
      some (record { addr = record { text = c.ip; is4 = true; is6 = false }; masked = c.network })
]

-- parsers that take every address for an IPv4 one
abbrev pub parsers : Stdlib
parsers = record {
  parse_ip = λ s. some ipv4;
  parse_cidr = cidr;
  parse_addr = λ s. some (record { text = s; is4 = true; is6 = false });
  parse_prefix = prefix_of;
  unmap = λ a. a;
  splits_host_port = λ s. true;
  parse_url = λ s. none;
  lookup_port = λ s. none;
  regexp_compiles = λ s. true;
  jq_parses = λ s. true;
  to_upper = λ s. s;
  to_lower = λ s. s;
  ext = λ path. ".yaml";
  trim_space = λ s. s;
  canonical_header_key = λ s. s;
}

abbrev pub signal : OtelSignalConfig
signal = record { endpoint = ""; enabled = none; insecure = none; headers = [] }

abbrev pub neighbor : NeighborConfig
neighbor = record {
  name = "tor";
  address = "10.0.0.254";
  peer_asn = 65001;
  required = none;
  port = 0;
  local_address = "";
  passive = false;
  enable_multihop = false;
  multihop_ttl = 0;
  bfd = none;
  auth_password = "";
}

-- a check of a port, whose pace is left out
abbrev pub tcp_check : CheckConfig
tcp_check = record (check_named "") { tcp = some (record { host = ""; port = 80 }) }

abbrev pub vip_at : String → String → VipConfig
vip_at name prefix = record {
  name = name;
  prefix = prefix;
  check = tcp_check;
  checks = [];
  checks_policy = "";
  policy = record withdraw_policy {
    announce = some (record { as_path_prepend = some (pos 2); communities = "65000:100" ∷ [] });
  };
  require_local_address = false;
  local_interface = "";
}

-- a config as it is written
abbrev pub written : Config
written = record {
  schema = "v1";
  router = record {
    asn = 65000;
    router_id = "10.0.0.253";
    local_address = "";
    local_address_ipv6 = "";
  };
  api = record {
    listen = "";
    read_header_timeout = none;
    read_timeout = none;
    write_timeout = none;
    idle_timeout = none;
  };
  logging = record { level = ""; format = ""; otel_level = ""; timestamps = none };
  otel = record {
    enabled = none;
    endpoint = "";
    insecure = false;
    headers = [];
    service_name = "";
    traces = signal;
    metrics = signal;
    logs = signal;
  };
  paths = record { procfs = "" };
  bgp = record {
    graceful_restart = none;
    hold_time = none;
    keepalive_time = none;
    listen_address = "";
    listen_port = pos 0;
    gobgp_api = record { enabled = false; listen = "" };
    neighbors = neighbor ∷ [];
  };
  vips = vip_at "web" "10.0.0.1/32" ∷ vip_at "dns" "10.0.0.2/32" ∷ [];
}

-- a file that decodes to the config, whatever its text
abbrev pub decoders : Decoders
decoders = record {
  lookup_env = λ name. none;
  unmarshal_yaml = λ raw. some written;
  unmarshal_toml = λ raw. none;
}
