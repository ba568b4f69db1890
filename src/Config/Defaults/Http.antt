-- ===== src/Config/Defaults/Http.antt =====
-- internal/config/defaults.go: the defaults of an HTTP check, which are derived from its URL.
use pathosd.Common.{
  ℕ, ◌%◌, ◌^◌, String, Bool, true, false, not, none, some, [], ◌∷◌, ◌&&◌, ◌||◌, ◌==◌, if◌then◌else◌,
  nat_eq, is_empty,
}
use pathosd.Common.Int.{pos}
use pathosd.Common.Dict.{Dict, insert, member}
use pathosd.Config.Stdlib.{Stdlib, Url}
use pathosd.Config.Checks.{HttpCheckConfig}

-- `if s == "" { s = d }`
unfoldable pub or_text : String → String → String
or_text s d = if s == "" then d else s

-- `if n == 0 { n = d }`
unfoldable pub or_port : ℕ → ℕ → ℕ
or_port n d = if nat_eq n 0 then d else n

-- `if _, ok := m[k]; !ok { m[k] = v }`
unfoldable pub or_insert : String → String → Dict String → Dict String
or_insert k v d = if member k d then d else insert k v d

module _ (std : Stdlib) where
  -- func vipHostIP
  unfoldable pub vip_host_ip : String → String
  vip_host_ip prefix = elim (std.parse_cidr prefix) [
    | none ↦ ""
    | some c ↦
        if (nat_eq c.bits 32 && nat_eq c.ones 32) || (nat_eq c.bits 128 && nat_eq c.ones 128)
        then c.ip
        else ""
  ]

  -- the loop over the headers; of two keys that differ in their case only, the later one stays
  unfoldable pub canonical_headers : Dict String → Dict String → Dict String
  canonical_headers out [] = out
  canonical_headers out ((k, v) ∷ rest) =
      canonical_headers (insert (std.canonical_header_key k) v out) rest

  -- `if h.Port == 0 && u.Port() != "" { … }`
  unfoldable pub url_port : ℕ → String → ℕ
  url_port port text =
      if nat_eq port 0 && not (text == "")
      then elim (std.lookup_port text) [ none ↦ port | some p ↦ p % 2 ^ 16 ]
      else port

  -- `net.ParseIP(hn) == nil` of a name that is there
  unfoldable pub is_host_name : String → Bool
  is_host_name name =
      not (name == "") && elim (std.parse_ip name) [ none ↦ true | some family ↦ false ]

  -- the check that a full URL calls for, and the variable urlHostname
  unfoldable pub from_full_url : HttpCheckConfig → Url → HttpCheckConfig × String
  unfolding or_text or_insert url_port is_host_name
  from_full_url h u = (
    record h {
      proto = or_text h.proto u.scheme;
      port = url_port h.port u.port;
      headers = if u.hostname == "" then h.headers else or_insert "Host" u.host h.headers;
      url = or_text u.request_uri "/";
    },
    if is_host_name u.hostname then u.hostname else "",
  )

  unfoldable pub parse_http_url : HttpCheckConfig → HttpCheckConfig × String
  unfolding from_full_url
  parse_http_url h = elim (std.parse_url h.url) [
    | none ↦ (h, "")
    | some u ↦ if u.scheme == "" then (h, "") else from_full_url h u
  ]

  -- the host that is asked, given the host name of the URL
  unfoldable pub http_host : HttpCheckConfig → String → String → String
  unfolding or_text vip_host_ip
  http_host h url_hostname vip_prefix =
      or_text
        (if not (h.proxy == "") && h.host == "" && not (url_hostname == "")
          then url_hostname
          else h.host)
        (vip_host_ip vip_prefix)

  -- the name of the server of an HTTPS check, given its protocol and host
  unfoldable pub http_server_name : HttpCheckConfig → String → String → String → String
  http_server_name h url_hostname proto host =
      if h.proxy == ""
        && h.tls_server_name == ""
        && not (url_hostname == "")
        && proto == "https"
        && not (host == url_hostname)
      then url_hostname
      else h.tls_server_name

  -- applyHTTPDefaults behind the parse of the URL
  unfoldable pub fill_http : HttpCheckConfig → String → String → HttpCheckConfig
  unfolding http_host http_server_name or_port
  fill_http h url_hostname vip_prefix =
      let proto = or_text h.proto "http" in
      let host = http_host h url_hostname vip_prefix in
      let headers = or_insert "User-Agent" "pathosd-check/1.0" h.headers in
      record h {
        proto = proto;
        host = host;
        tls_server_name = http_server_name h url_hostname proto host;
        port = or_port h.port (if proto == "https" then 443 else 80);
        method = or_text h.method "GET";
        response_codes = if is_empty h.response_codes then pos 200 ∷ [] else h.response_codes;
        headers =
            if h.response_jq == "" then headers else or_insert "Accept" "application/json" headers;
      }

  -- func applyHTTPDefaults
  unfoldable pub apply_http_defaults : HttpCheckConfig → String → HttpCheckConfig
  unfolding canonical_headers parse_http_url fill_http
  apply_http_defaults h vip_prefix =
      let (h', url_hostname) =
        parse_http_url
          (record h { url = or_text h.url "/"; headers = canonical_headers [] h.headers }) in
      fill_http h' url_hostname vip_prefix
