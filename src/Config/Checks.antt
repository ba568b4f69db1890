-- ===== src/Config/Checks.antt =====
-- The definitions of the health checks (internal/config/config.go).
use pathosd.Common.{ℕ, String, Bool, Option, List, ◌==◌, if◌then◌else◌}
use pathosd.Common.Int.{ℤ}
use pathosd.Common.Dict.{Dict}

-- type HTTPCheckConfig
pub record HttpCheckConfig : Type 0 where
  pub url : String
  pub proto : String
  pub host : String
  pub port : ℕ  -- uint16
  pub method : String
  pub response_codes : List ℤ
  pub response_text : String
  pub response_regex : String
  pub response_jq : String
  pub tls_insecure : Bool
  pub tls_ca_cert : String
  pub tls_server_name : String
  pub proxy : String
  pub headers : Dict String
  pub keep_alive : Bool

-- type TCPCheckConfig
pub record TcpCheckConfig : Type 0 where
  pub host : String
  pub port : ℕ  -- uint16

-- type UDPCheckConfig
pub record UdpCheckConfig : Type 0 where
  pub host : String
  pub port : ℕ  -- uint16
  pub payload : String

-- type ListenCheckConfig
pub record ListenCheckConfig : Type 0 where
  pub proto : String
  pub port : ℕ  -- uint16
  pub host : String
  pub netns_pid : ℤ
  pub procfs : String

-- type SQLQueryConfig
pub record SqlQueryConfig : Type 0 where
  pub name : String
  pub sql : String
  pub result_jq : String

-- type SQLCheckConfig
pub record SqlCheckConfig : Type 0 where
  pub driver : String
  pub host : String
  pub port : ℕ  -- uint16
  pub user : String
  pub password : String
  pub database : String
  pub tls : Bool
  pub tls_insecure : Bool
  pub tls_ca_cert : String
  pub tls_server_name : String
  pub keep_alive : Bool
  pub queries : List SqlQueryConfig
  pub max_rows : ℤ

-- type KafkaSASLConfig
pub record KafkaSaslConfig : Type 0 where
  pub mechanism : String
  pub user : String
  pub password : String

-- type KafkaCheckConfig
pub record KafkaCheckConfig : Type 0 where
  pub host : String
  pub port : ℕ  -- uint16
  pub client_id : String
  pub tls : Bool
  pub tls_insecure : Bool
  pub tls_ca_cert : String
  pub tls_server_name : String
  pub sasl : Option KafkaSaslConfig
  pub topic : String
  pub min_brokers : ℤ

-- type DNSCheckConfig
pub record DnsCheckConfig : Type 0 where
  pub names : List String
  pub resolver : String
  pub port : ℕ  -- uint16
  pub query_type : String

-- type GRPCCheckConfig
pub record GrpcCheckConfig : Type 0 where
  pub host : String
  pub port : ℕ  -- uint16
  pub tls : Bool
  pub tls_insecure : Bool
  pub tls_ca_cert : String
  pub tls_server_name : String
  pub method : String
  pub service : String
  pub ok_codes : List String
  pub metadata : Dict String

-- type PingCheckConfig; a finite float64 is a whole multiple of 2^-1074, which is the unit here
pub record PingCheckConfig : Type 0 where
  pub dst_ip : String
  pub src_ip : String
  pub privileged : Bool
  pub count : ℤ
  pub timeout : Option ℤ
  pub interval : Option ℤ
  pub max_loss_ratio : ℤ

-- type CheckConfig
pub record CheckConfig : Type 0 where
  pub name : String
  pub type : String
  pub detailed_metrics : Bool
  pub interval : Option ℤ
  pub timeout : Option ℤ
  pub rise : Option ℤ
  pub fall : Option ℤ
  pub http : Option HttpCheckConfig
  pub dns : Option DnsCheckConfig
  pub ping : Option PingCheckConfig
  pub udp : Option UdpCheckConfig
  pub tcp : Option TcpCheckConfig
  pub listen : Option ListenCheckConfig
  pub sql : Option SqlCheckConfig
  pub kafka : Option KafkaCheckConfig
  pub grpc : Option GrpcCheckConfig

-- func (c *CheckConfig) EffectiveName
unfoldable pub effective_name : CheckConfig → String
effective_name c = if c.name == "" then c.type else c.name
