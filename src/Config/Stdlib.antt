-- ===== src/Config/Stdlib.antt =====
-- What the config and the BGP manager ask of code that reads texts: the parsers of addresses, URLs,
-- regular expressions and jq programs, and the Unicode tables. They are arguments of the model.
use pathosd.Common.{ℕ, String, Bool, Option}

-- of a net.IP that is not nil: whether To4 is nil
pub data IpFamily : Type 0 where
  ipv4 ipv6 : IpFamily

-- what net.ParseCIDR gives: the address and its family, the network, and the size of its mask
pub record Cidr : Type 0 where
  pub ip : String
  pub family : IpFamily
  pub network : String
  pub ones : ℕ
  pub bits : ℕ

-- a netip.Addr
pub record Addr : Type 0 where
  pub text : String
  pub is4 : Bool
  pub is6 : Bool

-- a netip.Prefix, and the text of its masked prefix
pub record Prefix : Type 0 where
  pub addr : Addr
  pub masked : String

-- a *url.URL
pub record Url : Type 0 where
  pub scheme : String
  pub host : String
  pub hostname : String
  pub port : String
  pub request_uri : String

pub record Stdlib : Type 0 where
  pub parse_ip : String → Option IpFamily  -- net.ParseIP
  pub parse_cidr : String → Option Cidr  -- net.ParseCIDR
  pub parse_addr : String → Option Addr  -- netip.ParseAddr
  pub parse_prefix : String → Option Prefix  -- netip.ParsePrefix
  pub unmap : Addr → Addr  -- netip.Addr.Unmap
  pub splits_host_port : String → Bool  -- net.SplitHostPort has no error
  pub parse_url : String → Option Url  -- url.Parse
  pub lookup_port : String → Option ℕ  -- net.LookupPort("tcp", _)
  pub regexp_compiles : String → Bool  -- regexp.Compile has no error
  pub jq_parses : String → Bool  -- gojq.Parse has no error
  pub to_upper : String → String  -- strings.ToUpper
  pub to_lower : String → String  -- strings.ToLower
  pub ext : String → String  -- filepath.Ext
  pub trim_space : String → String  -- strings.TrimSpace
  pub canonical_header_key : String → String  -- http.CanonicalHeaderKey
