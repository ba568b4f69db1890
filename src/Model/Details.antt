-- ===== src/Model/Details.antt =====
-- What the checkers observe beside pass or fail (internal/model/model.go).
-- Durations count nanoseconds, and a finite float64 counts units of 2^-1074.
use pathosd.Common.{ℕ, String, Bool, List}
use pathosd.Common.Int.{ℤ}

-- type PingDetails
pub record PingDetails : Type 0 where
  pub rtts : List ℤ
  pub packet_loss : ℤ
  pub packets_sent : ℤ
  pub packets_recv : ℤ

-- type HTTPDetails; the time is in seconds, 0 for the zero time
pub record HttpDetails : Type 0 where
  pub status_code : ℤ
  pub tls_cert_not_after : ℕ

-- type DNSNameDetails
pub record DnsNameDetails : Type 0 where
  pub name : String
  pub rcode : ℤ
  pub answers : ℤ

-- type DNSDetails
pub record DnsDetails : Type 0 where
  pub names : List DnsNameDetails

-- type GRPCDetails
pub record GrpcDetails : Type 0 where
  pub status_code : ℕ  -- uint32
  pub serving_status : String

-- type ListenDetails
pub record ListenDetails : Type 0 where
  pub sockets : List String

-- type SQLQueryDetails
pub record SqlQueryDetails : Type 0 where
  pub name : String
  pub rows : ℤ
  pub duration : ℤ
  pub passed : Bool

-- type SQLDetails
pub record SqlDetails : Type 0 where
  pub queries : List SqlQueryDetails

-- type KafkaDetails
pub record KafkaDetails : Type 0 where
  pub cluster_id : String
  pub controller : ℤ
  pub brokers : ℤ
  pub topic : String
  pub partitions : ℤ
  pub partitions_without_leader : ℤ

-- type CheckDetails, an interface that these types implement
pub data CheckDetails : Type 0 where
  kafka : KafkaDetails → CheckDetails
  sql : SqlDetails → CheckDetails
  listen : ListenDetails → CheckDetails
  ping : PingDetails → CheckDetails
  http : HttpDetails → CheckDetails
  dns : DnsDetails → CheckDetails
  grpc : GrpcDetails → CheckDetails
