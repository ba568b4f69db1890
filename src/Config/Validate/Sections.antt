-- ===== src/Config/Validate/Sections.antt =====
-- internal/config/validate.go: the rules of the sections other than `vips`, and Validate itself.
use text.Mathlib.Text.{starts_with}
use Prim.Native.String.{len}
use pathosd.Common.{
  ℕ, suc, String, append, Bool, true, false, not, Option, none, some, List, [], ◌∷◌, ◌++◌, ◌&&◌,
  ◌||◌, ◌==◌, if◌then◌else◌, nat_eq, ltb, contains, is_empty, drop_chars,
}
use pathosd.Common.Int.{ℤ, pos, negsuc, ltb_ℤ}
use pathosd.Config.Stdlib.{Stdlib, ipv4, ipv6}
use pathosd.Config.Sections.{
  OtelConfig, RouterConfig, ApiConfig, LoggingConfig, BgpConfig, NeighborConfig, BfdConfig,
  GoBgpApiConfig,
}
use pathosd.Config.Vip.{VipConfig, Config}
use pathosd.Config.ChecksPolicy.{ExprLang}
use pathosd.Config.Validate.Report.{Problem, report, concat, at_index, is_bad_ip}
use pathosd.Config.Validate.Vips.{validate_vips}

-- type OTelProtocol
pub data OtelProtocol : Type 0 where
  otel_grpc otel_http : OtelProtocol

-- func ParseOTelEndpoint; `none` is an error
unfoldable pub parse_otel_endpoint : String → Option (OtelProtocol × String)
unfolding drop_chars
parse_otel_endpoint url =
    if starts_with url "grpcs://"
    then some (otel_grpc, append "https://" (drop_chars 8 url))
    else if starts_with url "grpc://"
    then some (otel_grpc, append "http://" (drop_chars 7 url))
    else if starts_with url "https://" || starts_with url "http://"
    then some (otel_http, url)
    else none

unfoldable pub is_bad_endpoint : String → Bool
is_bad_endpoint url = elim (parse_otel_endpoint url) [ none ↦ true | some e ↦ false ]

-- func validateOTel
unfoldable pub validate_otel : OtelConfig → List Problem
unfolding is_bad_endpoint
validate_otel o =
    if o.endpoint == ""
    then []
    else concat (
        report (is_bad_endpoint o.endpoint) ".otel.endpoint"
        ∷ report (not (o.traces.endpoint == "") && is_bad_endpoint o.traces.endpoint)
            ".otel.traces.endpoint"
        ∷ report (not (o.metrics.endpoint == "") && is_bad_endpoint o.metrics.endpoint)
            ".otel.metrics.endpoint"
        ∷ report (not (o.logs.endpoint == "") && is_bad_endpoint o.logs.endpoint)
            ".otel.logs.endpoint"
        ∷ report (o.service_name == "") ".otel.service_name"
        ∷ [])

-- a timeout that is set and negative
unfoldable pub is_negative : Option ℤ → Bool
is_negative none = false
is_negative (some d) = ltb_ℤ d (pos 0)

unfoldable pub validate_api : ApiConfig → List Problem
unfolding is_negative
validate_api a = concat (
    report (a.listen == "") "api.listen"
    ∷ report (is_negative a.read_header_timeout) "api.read_header_timeout"
    ∷ report (is_negative a.read_timeout) "api.read_timeout"
    ∷ report (is_negative a.write_timeout) "api.write_timeout"
    ∷ report (is_negative a.idle_timeout) "api.idle_timeout"
    ∷ [])

unfoldable pub validate_logging : LoggingConfig → List Problem
validate_logging l = concat (
    report (not (contains l.level ("debug" ∷ "info" ∷ "warn" ∷ "error" ∷ []))) "logging.level"
    ∷ report (not (contains l.format ("text" ∷ "json" ∷ []))) "logging.format"
    ∷ report (not (contains l.otel_level ("" ∷ "debug" ∷ "info" ∷ "warn" ∷ "error" ∷ [])))
        "logging.otel_level"
    ∷ [])

-- the rules of `bfd`, if it is enabled
unfoldable pub validate_bfd : String → Bool → Option BfdConfig → List Problem
validate_bfd prefix multihop none = []
validate_bfd prefix multihop (some b) =
    if b.enabled
    then concat (
        report multihop (append prefix ".bfd")
        ∷ report (not (nat_eq b.port 0) && (ltb b.port 1 || ltb 65535 b.port))
            (append prefix ".bfd.port")
        ∷ report (nat_eq b.detection_multiplier 1) (append prefix ".bfd.detection_multiplier")
        ∷ [])
    else []

module _ (std : Stdlib) where
  -- To4 of the address is not nil
  unfoldable pub is_ipv4 : String → Bool
  is_ipv4 s = elim (std.parse_ip s) [
    | none ↦ false
    | some family ↦ elim family [ ipv4 ↦ true | ipv6 ↦ false ]
  ]

  -- func hasIPv6VIP
  unfoldable pub has_ipv6_vip : List VipConfig → Bool
  has_ipv6_vip [] = false
  has_ipv6_vip (v ∷ vips) =
      let rest = has_ipv6_vip vips in
      elim (std.parse_cidr v.prefix) [
        | none ↦ rest
        | some c ↦ elim c.family [ ipv4 ↦ rest | ipv6 ↦ true ]
      ]

  -- the rules of `router`
  unfoldable pub validate_router : RouterConfig → List VipConfig → List Problem
  unfolding is_ipv4 has_ipv6_vip
  validate_router r vips = concat (
      report (nat_eq r.asn 0) "router.asn"
      ∷ report (r.router_id == "" || not (is_ipv4 r.router_id)) "router.router_id"
      ∷ report (not (r.local_address == "") && is_bad_ip std r.local_address) "router.local_address"
      ∷ report
          (not (r.local_address_ipv6 == "")
            && (is_bad_ip std r.local_address_ipv6 || is_ipv4 r.local_address_ipv6))
          "router.local_address_ipv6"
      ∷ report (has_ipv6_vip vips && r.local_address_ipv6 == "") "router.local_address_ipv6"
      ∷ [])

  -- func validateGoBGPAPIListen: whether it returns an error
  unfoldable pub is_bad_gobgp_listen : String → Bool
  is_bad_gobgp_listen listen =
      if starts_with listen "unix://"
      then listen == "unix://"
      else not (std.splits_host_port listen)

  unfoldable pub validate_gobgp_api : GoBgpApiConfig → List Problem
  unfolding is_bad_gobgp_listen
  validate_gobgp_api g =
      report
        (if g.enabled then g.listen == "" || is_bad_gobgp_listen g.listen else not (g.listen == ""))
        "bgp.gobgp_api.listen"

  -- one round of the loop over the neighbors
  unfoldable pub validate_neighbor : String → List String → NeighborConfig → List Problem
  unfolding validate_bfd
  validate_neighbor prefix names n = concat (
      report (n.name == "" || contains n.name names) (append prefix ".name")
      ∷ report (n.address == "" || is_bad_ip std n.address) (append prefix ".address")
      ∷ report (not (n.local_address == "") && is_bad_ip std n.local_address)
          (append prefix ".local_address")
      ∷ report (nat_eq n.peer_asn 0) (append prefix ".peer_asn")
      ∷ report (ltb 80 (len n.auth_password)) (append prefix ".auth_password")
      ∷ report (not n.enable_multihop && not (nat_eq n.multihop_ttl 0))
          (append prefix ".multihop_ttl")
      ∷ report (n.enable_multihop && not (nat_eq n.multihop_ttl 0) && ltb n.multihop_ttl 2)
          (append prefix ".multihop_ttl")
      ∷ validate_bfd prefix n.enable_multihop n.bfd
      ∷ [])

  unfoldable pub validate_neighbors : ℕ → List String → List NeighborConfig → List Problem
  unfolding validate_neighbor
  validate_neighbors i names [] = []
  validate_neighbors i names (n ∷ list) =
      validate_neighbor (at_index "bgp.neighbors" i) names n
      ++ validate_neighbors (suc i)
          (if n.name == "" || contains n.name names then names else n.name ∷ names) list

  -- the rules of `bgp`; the ports -1 and 0 are let through
  unfoldable pub validate_bgp : BgpConfig → List Problem
  unfolding validate_gobgp_api validate_neighbors
  validate_bgp b = concat (
      report (not (b.listen_address == "") && is_bad_ip std b.listen_address) "bgp.listen_address"
      ∷ report (ltb_ℤ b.listen_port (negsuc 0) || ltb_ℤ (pos 65535) b.listen_port) "bgp.listen_port"
      ∷ validate_gobgp_api b.gobgp_api
      ∷ report (is_empty b.neighbors) "bgp.neighbors"
      ∷ validate_neighbors 0 [] b.neighbors
      ∷ [])

  -- func Validate; no problem means a valid config
  unfoldable pub validate : {P : Type 0} → ExprLang P → Config → List Problem
  unfolding validate_otel validate_api validate_logging validate_router validate_bgp
  validate lang cfg = concat (
      report (not (cfg.schema == "v1")) "schema"
      ∷ validate_router cfg.router cfg.vips
      ∷ validate_api cfg.api
      ∷ validate_logging cfg.logging
      ∷ validate_bgp cfg.bgp
      ∷ report (is_empty cfg.vips) "vips"
      ∷ validate_vips lang std 0 [] [] cfg.vips
      ∷ validate_otel cfg.otel
      ∷ [])
