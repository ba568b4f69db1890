-- ===== src/Bgp/Peers.antt =====
-- internal/bgp/manager.go: how GoBGP is set up, and the state of its peers.
use text.Mathlib.Text.{starts_with}
use Prim.Native.String.{len}
use pathosd.Common.{
  ℕ, ◌/◌, ◌^◌, String, Bool, true, false, not, Option, none, some, List, [], ◌∷◌, ◌&&◌, ◌==◌,
  if◌then◌else◌, nat_eq, drop_chars,
}
use pathosd.Common.Int.{ℤ, pos, negsuc, pos_part}
use pathosd.Config.Stdlib.{Stdlib}
use pathosd.Config.Sections.{NeighborConfig, BfdConfig}
use pathosd.Config.Vip.{VipConfig, Config}
use pathosd.Bgp.Gobgp.{Family, ipv4_unicast, ipv6_unicast}

-- api.Global, of which the source sets these fields
pub record Global : Type 0 where
  pub asn : ℕ
  pub router_id : String
  pub listen_port : ℤ
  pub listen_addresses : List String

-- api.TimersConfig
pub record Timers : Type 0 where
  pub hold_time : ℕ
  pub keepalive_interval : ℕ

-- api.Peer, of which the source sets these fields; `families` are those of AfiSafis
pub record Peer : Type 0 where
  pub neighbor_address : String
  pub peer_asn : ℕ
  pub description : String
  pub auth_password : String
  pub local_address : String
  pub remote_port : ℕ
  pub passive_mode : Bool
  pub families : List Family
  pub graceful_restart : Bool
  pub timers : Option Timers
  pub multihop_ttl : Option ℕ
  pub bfd : Option BfdConfig

-- type PeerStatus; Uptime is not set
pub record PeerStatus : Type 0 where
  pub name : String
  pub address : String
  pub peer_asn : ℕ
  pub session_state : String
  pub required : Bool

-- A peer that ListPeer reports: the text of its session state, and its description, address and ASN.
pub record ListedPeer : Type 0 where
  pub state : Option String
  pub conf : Option (String × String × ℕ)

-- `uint64(d.Seconds())` of a duration in nanoseconds; a negative one, which Go leaves open, gives 0
unfoldable pub seconds : ℤ → ℕ
seconds d = pos_part d / 10 ^ 9

-- the field Timers of a peer
unfoldable pub build_timers : Option ℤ → Option ℤ → Option Timers
unfolding seconds
build_timers none keepalive = none
build_timers (some hold) none = some (record { hold_time = seconds hold; keepalive_interval = 0 })
build_timers (some hold) (some keepalive) =
    some (record { hold_time = seconds hold; keepalive_interval = seconds keepalive })

-- the field Bfd of a peer
unfoldable pub build_bfd : Option BfdConfig → Option BfdConfig
build_bfd none = none
build_bfd (some b) = if b.enabled then some b else none

-- the loop of wantsIPv6
unfoldable pub any_ipv6 : Stdlib → List VipConfig → Bool
any_ipv6 std [] = false
any_ipv6 std (v ∷ vips) =
    let rest = any_ipv6 std vips in
    elim (std.parse_prefix v.prefix) [ none ↦ rest | some p ↦ if p.addr.is6 then true else rest ]

-- the loop of GetPeerStates over the neighbors: the first one of the address gives `required`, and the
-- name if there is none
unfoldable pub match_neighbor : String → String → List NeighborConfig → String × Bool
match_neighbor addr name [] = (name, true)
match_neighbor addr name (n ∷ list) =
    let rest = match_neighbor addr name list in
    if n.address == addr
    then (if name == "" then n.name else name, elim n.required [ none ↦ true | some b ↦ b ])
    else rest

-- strings.TrimPrefix
unfoldable pub trim_prefix : String → String → String
trim_prefix s prefix = if starts_with s prefix then drop_chars (len prefix) s else s

-- func UnreadyPeers
unfoldable pub unready_peers : List PeerStatus → List PeerStatus
unready_peers [] = []
unready_peers (p ∷ peers) =
    let rest = unready_peers peers in
    if p.required && not (p.session_state == "established") then p ∷ rest else rest

module _ (std : Stdlib) (cfg : Config) where
  -- func (m *Manager) effectiveListenAddress
  unfoldable pub effective_listen_address : String
  effective_listen_address =
      if not (cfg.bgp.listen_address == "")
      then cfg.bgp.listen_address
      else if not (cfg.router.local_address == "")
      then cfg.router.local_address
      else "0.0.0.0"

  -- func (m *Manager) buildGlobalConfig; a port that Validate accepts fits an int32
  unfoldable pub build_global_config : Global
  unfolding effective_listen_address
  build_global_config = record {
    asn = cfg.router.asn;
    router_id = cfg.router.router_id;
    listen_port = elim cfg.bgp.listen_port [
      | pos n ↦ if nat_eq n 0 then pos 179 else pos n
      | negsuc n ↦ negsuc n
    ];
    listen_addresses = effective_listen_address ∷ [];
  }

  -- func (m *Manager) wantsIPv6
  unfoldable pub wants_ipv6 : Bool
  unfolding any_ipv6
  wants_ipv6 = if not (cfg.router.local_address_ipv6 == "") then true else any_ipv6 std cfg.vips

  -- func (m *Manager) buildPeerAfiSafis
  unfoldable pub build_peer_afi_safis : List Family
  unfolding wants_ipv6
  build_peer_afi_safis = if wants_ipv6 then ipv4_unicast ∷ ipv6_unicast ∷ [] else ipv4_unicast ∷ []

  -- func (m *Manager) peerLocalAddress
  unfoldable pub peer_local_address : NeighborConfig → String
  peer_local_address n =
      if not (n.local_address == "") then n.local_address else cfg.router.local_address

  -- the condition of the error of buildPeer
  unfoldable pub dials_itself : NeighborConfig → Bool
  unfolding peer_local_address
  dials_itself n =
      not n.passive && (not (peer_local_address n == "") && (peer_local_address n == n.address))

  -- func (m *Manager) buildPeer; `none` is an error
  unfoldable pub build_peer : NeighborConfig → Option Peer
  unfolding dials_itself build_peer_afi_safis build_timers build_bfd
  build_peer n =
      if dials_itself n
      then none
      else some (record {
        neighbor_address = n.address;
        peer_asn = n.peer_asn;
        description = n.name;
        auth_password = n.auth_password;
        local_address = peer_local_address n;
        remote_port = n.port;
        passive_mode = n.passive;
        families = build_peer_afi_safis;
        graceful_restart = elim cfg.bgp.graceful_restart [ none ↦ false | some b ↦ b ];
        timers = build_timers cfg.bgp.hold_time cfg.bgp.keepalive_time;
        multihop_ttl = if n.enable_multihop then some n.multihop_ttl else none;
        bfd = build_bfd n.bfd;
      })

  -- what GetPeerStates makes of one listed peer
  unfoldable pub peer_state : ListedPeer → PeerStatus
  unfolding match_neighbor trim_prefix
  peer_state p =
      let state : String = elim p.state [
        | none ↦ "unknown"
        | some s ↦ std.to_lower (trim_prefix s "SESSION_STATE_")
      ] in
      let (name, addr, asn) : String × String × ℕ = elim p.conf [
        | none ↦ ("", "", 0)
        | some c ↦ c
      ] in
      let (name', required) = match_neighbor addr name cfg.bgp.neighbors in
      record {
        name = name';
        address = addr;
        peer_asn = asn;
        session_state = state;
        required = required;
      }

  -- func (m *Manager) GetPeerStates, of the peers that ListPeer reports before it ends
  unfoldable pub get_peer_states : List ListedPeer → List PeerStatus
  unfolding peer_state
  get_peer_states [] = []
  get_peer_states (p ∷ listed) = peer_state p ∷ get_peer_states listed
