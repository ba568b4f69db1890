-- ===== src/Config/Defaults/Checks.antt =====
-- internal/config/defaults.go: the defaults of a check, of each type.
use pathosd.Common.{
  ℕ, ◌*◌, String, Option, none, some, [], ◌∷◌, ◌==◌, if◌then◌else◌, nat_eq, is_empty, get_or,
}
use pathosd.Common.Int.{ℤ, pos, pos_part, neg_part}
use pathosd.Config.Stdlib.{Stdlib}
use pathosd.Config.Checks.{
  UdpCheckConfig, SqlCheckConfig, KafkaCheckConfig, DnsCheckConfig, CheckConfig,
}
use pathosd.Config.Defaults.Zero.{
  no_http, no_dns, no_ping, no_udp, no_listen, no_sql, no_kafka, no_tcp, no_grpc,
}
use pathosd.Config.Defaults.Http.{or_text, or_port, vip_host_ip, apply_http_defaults}

-- `if n == 0 { n = d }`, of an int
unfoldable pub or_int : ℤ → ℤ → ℤ
or_int n d = if nat_eq (pos_part n) 0 then (if nat_eq (neg_part n) 0 then d else n) else n

-- `if p == nil { p = new(d) }`
unfoldable pub or_value {ℓ} : {A : Type ℓ} → Option A → A → Option A
or_value none d = some d
or_value (some a) d = some a

-- the port of a driver
unfoldable pub sql_port : String → ℕ
sql_port driver = if driver == "mysql" then 3306 else if driver == "postgres" then 5432 else 0

-- a duration of so many milliseconds
abbrev pub milliseconds : ℕ → ℤ
milliseconds n = pos (n * 1000000)

-- the beginning of applyCheckDefaults
unfoldable pub set_pace : CheckConfig → CheckConfig
unfolding or_value
set_pace c = record c {
  interval = or_value c.interval (milliseconds 1000);
  timeout = or_value c.timeout (milliseconds 100);
  rise = or_value c.rise (pos 1);
  fall = or_value c.fall (pos 3);
}

module _ (std : Stdlib) (vip_prefix : String) where
  -- `if h.Host == "" { h.Host = vipHostIP(vipPrefix) }`
  unfoldable pub or_vip_host : String → String
  unfolding or_text vip_host_ip
  or_vip_host host = or_text host (vip_host_ip std vip_prefix)

  -- func applySQLDefaults
  unfoldable pub apply_sql_defaults : SqlCheckConfig → SqlCheckConfig
  unfolding or_vip_host or_port or_int sql_port
  apply_sql_defaults s = record s {
    host = or_vip_host s.host;
    port = or_port s.port (sql_port s.driver);
    queries =
        if is_empty s.queries
        then record { name = ""; sql = "SELECT 1"; result_jq = "" } ∷ []
        else s.queries;
    max_rows = or_int s.max_rows (pos 100);
  }

  -- func applyKafkaDefaults
  unfoldable pub apply_kafka_defaults : KafkaCheckConfig → KafkaCheckConfig
  unfolding or_vip_host or_port or_int
  apply_kafka_defaults k = record k {
    host = or_vip_host k.host;
    port = or_port k.port 9092;
    client_id = or_text k.client_id "pathosd";
    min_brokers = or_int k.min_brokers (pos 1);
  }

  -- func applyDNSDefaults
  unfoldable pub apply_dns_defaults : DnsCheckConfig → DnsCheckConfig
  unfolding or_vip_host or_port
  apply_dns_defaults d = record d {
    port = or_port d.port 53;
    query_type = or_text (std.to_upper d.query_type) "A";
    resolver = or_vip_host d.resolver;
  }

  -- func applyUDPDefaults
  unfoldable pub apply_udp_defaults : UdpCheckConfig → UdpCheckConfig
  unfolding or_vip_host
  apply_udp_defaults u = record u { host = or_vip_host u.host; payload = or_text u.payload "\0" }

  -- the cases of the switch of applyCheckDefaults
  unfoldable pub default_http : CheckConfig → CheckConfig
  unfolding apply_http_defaults
  default_http c = record c {
    http = some (apply_http_defaults std (get_or c.http no_http) vip_prefix);
  }

  unfoldable pub default_dns : CheckConfig → CheckConfig
  unfolding apply_dns_defaults
  default_dns c = record c { dns = some (apply_dns_defaults (get_or c.dns no_dns)) }

  unfoldable pub default_ping : CheckConfig → CheckConfig
  unfolding or_int or_vip_host
  default_ping c =
      let p = get_or c.ping no_ping in
      record c {
        ping = some (record p { count = or_int p.count (pos 1); dst_ip = or_vip_host p.dst_ip });
      }

  unfoldable pub default_udp : CheckConfig → CheckConfig
  unfolding apply_udp_defaults
  default_udp c = record c { udp = some (apply_udp_defaults (get_or c.udp no_udp)) }

  unfoldable pub default_listen : CheckConfig → CheckConfig
  unfolding or_vip_host
  default_listen c =
      let l = get_or c.listen no_listen in
      record c { listen = some (record l { host = or_vip_host l.host }) }

  unfoldable pub default_sql : CheckConfig → CheckConfig
  unfolding apply_sql_defaults
  default_sql c = record c { sql = some (apply_sql_defaults (get_or c.sql no_sql)) }

  unfoldable pub default_kafka : CheckConfig → CheckConfig
  unfolding apply_kafka_defaults
  default_kafka c = record c { kafka = some (apply_kafka_defaults (get_or c.kafka no_kafka)) }

  unfoldable pub default_tcp : CheckConfig → CheckConfig
  unfolding or_vip_host
  default_tcp c =
      let t = get_or c.tcp no_tcp in
      record c { tcp = some (record t { host = or_vip_host t.host }) }

  unfoldable pub default_grpc : CheckConfig → CheckConfig
  unfolding or_vip_host
  default_grpc c =
      let g = get_or c.grpc no_grpc in
      record c { grpc = some (record g { host = or_vip_host g.host }) }

  -- the switch
  unfoldable pub apply_type_defaults : CheckConfig → CheckConfig
  apply_type_defaults c =
      if c.type == "http"
      then default_http c
      else if c.type == "dns"
      then default_dns c
      else if c.type == "ping"
      then default_ping c
      else if c.type == "udp"
      then default_udp c
      else if c.type == "listen"
      then default_listen c
      else if c.type == "sql"
      then default_sql c
      else if c.type == "kafka"
      then default_kafka c
      else if c.type == "tcp"
      then default_tcp c
      else if c.type == "grpc"
      then default_grpc c
      else c

  -- func applyCheckDefaults
  unfoldable pub apply_check_defaults : CheckConfig → CheckConfig
  unfolding apply_type_defaults set_pace
  apply_check_defaults c = apply_type_defaults (set_pace c)
