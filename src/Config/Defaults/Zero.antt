-- ===== src/Config/Defaults/Zero.antt =====
-- The zero values of the sections of a check, which ApplyDefaults starts from where one is left out
-- (internal/config/defaults.go).
use pathosd.Common.{none, false, []}
use pathosd.Common.Int.{pos}
use pathosd.Config.Checks.{
  HttpCheckConfig, UdpCheckConfig, TcpCheckConfig, ListenCheckConfig, SqlCheckConfig,
  KafkaCheckConfig, DnsCheckConfig, GrpcCheckConfig, PingCheckConfig,
}

abbrev pub no_http : HttpCheckConfig
no_http = record {
  url = "";
  proto = "";
  host = "";
  port = 0;
  method = "";
  response_codes = [];
  response_text = "";
  response_regex = "";
  response_jq = "";
  tls_insecure = false;
  tls_ca_cert = "";
  tls_server_name = "";
  proxy = "";
  headers = [];
  keep_alive = false;
}

abbrev pub no_dns : DnsCheckConfig
no_dns = record { names = []; resolver = ""; port = 0; query_type = "" }

abbrev pub no_ping : PingCheckConfig
no_ping = record {
  dst_ip = "";
  src_ip = "";
  privileged = false;
  count = pos 0;
  timeout = none;
  interval = none;
  max_loss_ratio = pos 0;
}

abbrev pub no_udp : UdpCheckConfig
no_udp = record { host = ""; port = 0; payload = "" }

abbrev pub no_listen : ListenCheckConfig
no_listen = record { proto = ""; port = 0; host = ""; netns_pid = pos 0; procfs = "" }

abbrev pub no_sql : SqlCheckConfig
no_sql = record {
  driver = "";
  host = "";
  port = 0;
  user = "";
  password = "";
  database = "";
  tls = false;
  tls_insecure = false;
  tls_ca_cert = "";
  tls_server_name = "";
  keep_alive = false;
  queries = [];
  max_rows = pos 0;
}

abbrev pub no_kafka : KafkaCheckConfig
no_kafka = record {
  host = "";
  port = 0;
  client_id = "";
  tls = false;
  tls_insecure = false;
  tls_ca_cert = "";
  tls_server_name = "";
  sasl = none;
  topic = "";
  min_brokers = pos 0;
}

abbrev pub no_tcp : TcpCheckConfig
no_tcp = record { host = ""; port = 0 }

abbrev pub no_grpc : GrpcCheckConfig
no_grpc = record {
  host = "";
  port = 0;
  tls = false;
  tls_insecure = false;
  tls_ca_cert = "";
  tls_server_name = "";
  method = "";
  service = "";
  ok_codes = [];
  metadata = [];
}
