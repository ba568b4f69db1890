-- ===== src/Config/Validate/CheckTypes.antt =====
-- internal/config/validate.go: the rules of each type of check.
use Prim.Native.Char.{code}
use pathosd.Common.{
  ◌^◌, String, append, Bool, true, false, not, Option, none, some, List, [], ◌∷◌, ◌++◌, ◌&&◌, ◌||◌,
  ◌==◌, if◌then◌else◌, nat_eq, contains, is_empty,
}
use pathosd.Common.Int.{ℤ, pos, ltb_ℤ, leb_ℤ}
use pathosd.Config.Stdlib.{Stdlib}
use pathosd.Config.Checks.{
  HttpCheckConfig, UdpCheckConfig, TcpCheckConfig, ListenCheckConfig, DnsCheckConfig,
  GrpcCheckConfig, PingCheckConfig, CheckConfig,
}
use pathosd.Config.Validate.Services.{validate_no_tls, validate_kafka_check, validate_sql_check}
use pathosd.Config.Validate.Report.{Problem, report, concat, is_bad_ip, lacks_host}

-- codes.Code names, in lower case
unfoldable pub grpc_code_names : List String
grpc_code_names =
    "ok" ∷ "canceled" ∷ "unknown" ∷ "invalidargument" ∷ "deadlineexceeded" ∷ "notfound"
    ∷ "alreadyexists" ∷ "permissiondenied" ∷ "resourceexhausted" ∷ "failedprecondition" ∷ "aborted"
    ∷ "outofrange" ∷ "unimplemented" ∷ "internal" ∷ "unavailable" ∷ "dataloss" ∷ "unauthenticated"
    ∷ []

-- strings.ReplaceAll(name, "_", "")
unfoldable pub without_underscores : String → String
without_underscores String.[] = String.[]
without_underscores (String.◌∷◌ c s) =
    let rest = without_underscores s in if nat_eq (code c) b'_' then rest else String.◌∷◌ c rest

unfoldable pub dns_query_types : List String
dns_query_types = "A" ∷ "AAAA" ∷ "CNAME" ∷ "PTR" ∷ "NS" ∷ "MX" ∷ "SOA" ∷ "TXT" ∷ "SRV" ∷ []

-- 1.0 in the unit of a float64, 2^-1074
unfoldable pub float_one : ℤ
float_one = pos (2 ^ 1074)

module _ (std : Stdlib) where
  -- the switch on the method of validateHTTPCheck
  unfoldable pub validate_http_method : String → HttpCheckConfig → List Problem
  validate_http_method prefix h =
      if h.method == "GET"
      then []
      else if h.method == "HEAD"
      then concat (
          report (not (h.response_text == "")) (append prefix ".response_text")
          ∷ report (not (h.response_regex == "")) (append prefix ".response_regex")
          ∷ report (not (h.response_jq == "")) (append prefix ".response_jq")
          ∷ [])
      else append prefix ".method" ∷ []

  -- a proxy that is no http or https URL with a host
  unfoldable pub is_bad_proxy : String → Bool
  is_bad_proxy proxy = elim (std.parse_url proxy) [
    | none ↦ true
    | some u ↦ (not (u.scheme == "http") && not (u.scheme == "https")) || u.host == ""
  ]

  -- func validateHTTPCheck
  unfoldable pub validate_http_check : String → HttpCheckConfig → String → List Problem
  unfolding validate_http_method is_bad_proxy
  validate_http_check prefix h vip_prefix = concat (
      report (not (h.proto == "") && not (h.proto == "http") && not (h.proto == "https"))
        (append prefix ".proto")
      ∷ validate_http_method prefix h
      ∷ report (lacks_host std h.host vip_prefix) (append prefix ".host")
      ∷ report (not (h.response_regex == "") && not (std.regexp_compiles h.response_regex))
          (append prefix ".response_regex")
      ∷ report (not (h.tls_ca_cert == "") && h.tls_insecure) (append prefix ".tls_ca_cert")
      ∷ report (not (h.proxy == "") && is_bad_proxy h.proxy) (append prefix ".proxy")
      ∷ report (not (h.proxy == "") && (h.host == "" || not (is_bad_ip std h.host)))
          (append prefix ".proxy")
      ∷ [])

  -- the loop of validateGRPCCheck over ok_codes
  unfoldable pub validate_ok_codes : String → List String → List Problem
  validate_ok_codes prefix [] = []
  validate_ok_codes prefix (name ∷ names) =
      report (not (contains (std.to_lower (without_underscores name)) grpc_code_names))
        (append prefix ".ok_codes")
      ++ validate_ok_codes prefix names

  -- func validateGRPCCheck
  unfoldable pub validate_grpc_check : String → GrpcCheckConfig → String → List Problem
  unfolding validate_no_tls validate_ok_codes
  validate_grpc_check prefix g vip_prefix = concat (
      report (nat_eq g.port 0) (append prefix ".port")
      ∷ report (lacks_host std g.host vip_prefix) (append prefix ".host")
      ∷ validate_no_tls prefix g.tls g.tls_insecure g.tls_ca_cert g.tls_server_name
      ∷ report (g.tls && g.tls_insecure && not (g.tls_ca_cert == "")) (append prefix ".tls_ca_cert")
      ∷ validate_ok_codes prefix g.ok_codes
      ∷ [])

  -- the case CheckTypeDNS of validateCheck
  unfoldable pub validate_dns_check : String → DnsCheckConfig → List Problem
  validate_dns_check prefix d = concat (
      report (is_empty d.names) (append prefix ".names")
      ∷ report (not (contains (std.to_upper d.query_type) dns_query_types))
          (append prefix ".query_type")
      ∷ [])

  -- the case CheckTypePing
  unfoldable pub validate_ping_check : String → PingCheckConfig → String → List Problem
  validate_ping_check prefix p vip_prefix = concat (
      report (if p.dst_ip == "" then lacks_host std p.dst_ip vip_prefix else is_bad_ip std p.dst_ip)
        (append prefix ".dst_ip")
      ∷ report (not (p.src_ip == "") && is_bad_ip std p.src_ip) (append prefix ".src_ip")
      ∷ report (ltb_ℤ p.count (pos 1) || ltb_ℤ (pos 60) p.count) (append prefix ".count")
      ∷ report (ltb_ℤ p.max_loss_ratio (pos 0) || leb_ℤ float_one p.max_loss_ratio)
          (append prefix ".max_loss_ratio")
      ∷ [])

  -- the case CheckTypeUDP
  unfoldable pub validate_udp_check : String → UdpCheckConfig → String → List Problem
  validate_udp_check prefix u vip_prefix = concat (
      report (nat_eq u.port 0) (append prefix ".port")
      ∷ report (lacks_host std u.host vip_prefix) (append prefix ".host")
      ∷ [])

  -- the case CheckTypeTCP
  unfoldable pub validate_tcp_check : String → TcpCheckConfig → String → List Problem
  validate_tcp_check prefix t vip_prefix = concat (
      report (nat_eq t.port 0) (append prefix ".port")
      ∷ report (lacks_host std t.host vip_prefix) (append prefix ".host")
      ∷ [])

  -- `err != nil`, after netip.ParseAddr
  unfoldable pub is_bad_addr : String → Bool
  is_bad_addr s = elim (std.parse_addr s) [ none ↦ true | some a ↦ false ]

  -- the case CheckTypeListen
  unfoldable pub validate_listen_check : String → ListenCheckConfig → String → List Problem
  unfolding is_bad_addr
  validate_listen_check prefix l vip_prefix = concat (
      report (not (l.proto == "tcp") && not (l.proto == "udp")) (append prefix ".proto")
      ∷ report (nat_eq l.port 0) (append prefix ".port")
      ∷ report (lacks_host std l.host vip_prefix) (append prefix ".host")
      ∷ report (not (l.host == "") && is_bad_addr l.host) (append prefix ".host")
      ∷ report (ltb_ℤ l.netns_pid (pos 0)) (append prefix ".netns_pid")
      ∷ [])

  -- the section of a type: required, and checked where it is there
  unfoldable pub required_section {ℓ} :
      {A : Type ℓ} → Option A → String → (A → List Problem) → List Problem
  required_section none path rules = path ∷ []
  required_section (some a) path rules = rules a

  -- func validateCheck; the empty type has a message of its own
  unfoldable pub validate_check : String → CheckConfig → String → List Problem
  unfolding required_section
  validate_check prefix c vip_prefix =
      let http = append prefix ".http" in
      let dns = append prefix ".dns" in
      let ping = append prefix ".ping" in
      let udp = append prefix ".udp" in
      let listen = append prefix ".listen" in
      let tcp = append prefix ".tcp" in
      let sql = append prefix ".sql" in
      let kafka = append prefix ".kafka" in
      let grpc = append prefix ".grpc" in
      if c.type == "http"
      then required_section c.http http (λ x. validate_http_check http x vip_prefix)
      else if c.type == "dns"
      then required_section c.dns dns (λ x. validate_dns_check dns x)
      else if c.type == "ping"
      then required_section c.ping ping (λ x. validate_ping_check ping x vip_prefix)
      else if c.type == "udp"
      then required_section c.udp udp (λ x. validate_udp_check udp x vip_prefix)
      else if c.type == "listen"
      then required_section c.listen listen (λ x. validate_listen_check listen x vip_prefix)
      else if c.type == "tcp"
      then required_section c.tcp tcp (λ x. validate_tcp_check tcp x vip_prefix)
      else if c.type == "sql"
      then required_section c.sql sql (λ x. validate_sql_check std sql x vip_prefix)
      else if c.type == "kafka"
      then required_section c.kafka kafka (λ x. validate_kafka_check std kafka x vip_prefix)
      else if c.type == "grpc"
      then required_section c.grpc grpc (λ x. validate_grpc_check grpc x vip_prefix)
      else append prefix ".type" ∷ []
