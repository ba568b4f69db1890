-- ===== src/Tests/Peers.antt =====
-- The peers of a daemon that is given an IPv6 VIP by a reload, and those that are listed.
use pathosd.Common.{
  String, ◌≡◌, refl, true, false, Option, none, some, [], ◌∷◌, contains, split_colon, parse_uint16,
  drop_chars, ◌==◌, if◌then◌else◌,
}
use pathosd.Config.Stdlib.{Stdlib, Cidr, ipv4, ipv6}
use pathosd.Config.Vip.{Config, check_list}
use pathosd.Config.Validate.Report.{concat, report, is_bad_ip, lacks_host}
use pathosd.Config.Validate.CheckTypes.{validate_check, validate_tcp_check}
use pathosd.Config.Validate.Policy.{validate_policy}
use pathosd.Config.Validate.Vips.{validate_vips, validate_vip_rest, has_single}
use pathosd.Config.Validate.Sections.{validate, has_ipv6_vip}
use pathosd.Config.Defaults.Checks.{default_tcp}
use pathosd.Config.Defaults.{apply_defaults}
use pathosd.Config.Diff.{restart_required}
use pathosd.Config.Diff.Restart.{restart_required_without}
use pathosd.Bgp.Gobgp.{ipv4_unicast, ipv6_unicast}
use pathosd.Bgp.Peers.{Peer, PeerStatus, ListedPeer, build_peer, get_peer_states, unready_peers}
use pathosd.Bgp.Negotiates.{build_peer_negotiates}
use pathosd.Tests.Fixtures.{constants}
use pathosd.Tests.Files.{parsers, written, vip_at, neighbor, cidr}

-- parsers that know two IPv6 addresses as well
abbrev cidr6 : String → Option Cidr
cidr6 prefix =
    if prefix == "2001:db8::80/128"
    then some (record {
      ip = "2001:db8::80";
      family = ipv6;
      network = "2001:db8::80/128";
      ones = 128;
      bits = 128;
    })
    else cidr prefix

abbrev parsers6 : Stdlib
parsers6 = record parsers {
  parse_ip = λ s. if s == "2001:db8::1" then some ipv6 else some ipv4;
  parse_cidr = cidr6;
}

-- an IPv4 VIP, and a router that has an IPv6 address
abbrev started : Config
started = apply_defaults parsers6 (record written {
  router = record written.router { local_address_ipv6 = "2001:db8::1" };
  vips = vip_at "web" "10.0.0.1/32" ∷ [];
})

abbrev extended : Config
extended = apply_defaults parsers6 (record written {
  router = record written.router { local_address_ipv6 = "2001:db8::1" };
  vips = vip_at "web" "10.0.0.1/32" ∷ vip_at "web6" "2001:db8::80/128" ∷ [];
})

extended_valid : validate parsers6 constants extended ≡ []
unfolding validate apply_defaults concat report contains is_bad_ip validate_vips validate_vip_rest
    has_single default_tcp check_list validate_check validate_tcp_check lacks_host validate_policy
    split_colon parse_uint16
extended_valid = refl

extended_ipv6 : has_ipv6_vip parsers6 extended.vips ≡ true
unfolding has_ipv6_vip apply_defaults
extended_ipv6 = refl

reloadable : restart_required started extended ≡ []
unfolding apply_defaults
reloadable = restart_required_without started "info" extended.vips

abbrev peer : Peer
peer = record {
  neighbor_address = "10.0.0.254";
  peer_asn = 65001;
  description = "tor";
  auth_password = "";
  local_address = "";
  remote_port = 0;
  passive_mode = false;
  families = ipv4_unicast ∷ ipv6_unicast ∷ [];
  graceful_restart = true;
  timers = none;
  multihop_ttl = none;
  bfd = none;
}

built : build_peer parsers6 started neighbor ≡ some peer
unfolding build_peer apply_defaults
built = refl

build_peer_negotiates_example : peer.families ≡ ipv4_unicast ∷ ipv6_unicast ∷ []
build_peer_negotiates_example =
    build_peer_negotiates constants parsers6 started extended neighbor peer extended_valid
      extended_ipv6 reloadable built

-- a peer that has no description is named by its neighbor, and is required by default
abbrev listed : ListedPeer
listed = record { state = some "SESSION_STATE_IDLE"; conf = some ("", "10.0.0.254", 65001) }

abbrev idle_peer : PeerStatus
idle_peer = record {
  name = "tor";
  address = "10.0.0.254";
  peer_asn = 65001;
  session_state = "IDLE";
  required = true;
}

unready : unready_peers (get_peer_states parsers6 started (listed ∷ [])) ≡ idle_peer ∷ []
unfolding unready_peers get_peer_states apply_defaults drop_chars
unready = refl
