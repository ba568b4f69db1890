-- ===== src/Bgp/Manager.antt =====
-- internal/bgp/manager.go: the routes of the VIPs in the GoBGP server. Logging, tracing and the metrics of
-- routes are left out.
pub mod Consistent
pub mod Routes
pub mod Refines
pub mod Withdraws
pub mod Implements
use pathosd.Common.{
  ℕ, String, Bool, true, false, not, Option, none, some, List, [], ◌∷◌, ◌&&◌, ◌||◌, ◌==◌, nat_eq,
  if◌then◌else◌, replicate, is_empty,
}
use pathosd.Common.Int.{ℤ, pos, pos_part, ltb_ℤ}
use pathosd.Common.Dict.{Dict, lookup, insert, delete}
use pathosd.Config.Stdlib.{Stdlib, Addr, Prefix}
use pathosd.Config.Sections.{NeighborConfig}
use pathosd.Config.Vip.{Config}
use pathosd.Model.State.{RouteAttrs, no_attrs}
use pathosd.Bgp.Communities.{parse_communities}
use pathosd.Bgp.Gobgp.{
  Gobgp, BgpPath, Family, ipv4_unicast, ipv6_unicast, Uuid, AddReply, added, refused, no_response,
  path_error,
}

-- type Manager: the server, and installedRouteUUID
pub record BgpManager (S : Type 0) : Type 0 where
  pub server : S
  pub installed : Dict Uuid

-- func buildASPath
unfoldable pub build_as_path : ℕ → ℤ → List ℕ
build_as_path local_asn prepend = replicate (pos_part prepend) local_asn

-- func (m *Manager) hasIBGPPeer
unfoldable pub has_ibgp_peer : ℕ → List NeighborConfig → Bool
has_ibgp_peer asn [] = false
has_ibgp_peer asn (n ∷ list) = nat_eq n.peer_asn asn || has_ibgp_peer asn list

module _ {S : Type 0} (std : Stdlib) (gobgp : Gobgp S) (cfg : Config) where
  -- the next hop of an IPv6 route
  unfoldable pub next_hop6 : Option String
  next_hop6 =
      if cfg.router.local_address_ipv6 == ""
      then none
      else elim (std.parse_addr cfg.router.local_address_ipv6) [
        | none ↦ none
        | some a ↦ if a.is6 then some a.text else none
      ]

  -- the text of the next hop of an IPv4 route
  unfoldable pub next_hop4_text : String
  next_hop4_text = elim (std.parse_addr cfg.router.local_address) [
    | none ↦ cfg.router.router_id
    | some a ↦ if a.is4 then cfg.router.local_address else cfg.router.router_id
  ]

  -- func (m *Manager) nextHopFor; `none` is an error
  unfoldable pub next_hop_for : Family → Option String
  unfolding next_hop6 next_hop4_text
  next_hop_for ipv6_unicast = next_hop6
  next_hop_for ipv4_unicast = elim (std.parse_addr next_hop4_text) [
    | none ↦ none
    | some a ↦ some a.text
  ]

  -- the AS path of a route
  unfoldable pub as_path_for : RouteAttrs → List ℕ
  unfolding build_as_path has_ibgp_peer
  as_path_for attrs =
      if ltb_ℤ (pos 0) attrs.as_path_prepend && not (has_ibgp_peer cfg.router.asn cfg.bgp.neighbors)
      then build_as_path cfg.router.asn attrs.as_path_prepend
      else []

  -- the attribute of the communities, which is left out if there are none
  unfoldable pub communities_for : RouteAttrs → Option (List ℕ)
  communities_for attrs =
      if is_empty attrs.communities then some [] else parse_communities attrs.communities

  -- the family of a prefix
  unfoldable pub family_of : Prefix → Family
  family_of p = if p.addr.is6 then ipv6_unicast else ipv4_unicast

  -- buildPath behind the next hop
  unfoldable pub build_with_hop : Prefix → RouteAttrs → String → Option BgpPath
  unfolding as_path_for communities_for family_of
  build_with_hop p attrs hop =
      if gobgp.next_hop_builds hop
      then elim (communities_for attrs) [
        | none ↦ none
        | some comms ↦ some (record {
          family = family_of p;
          nlri = p.masked;
          next_hop = hop;
          as_path = as_path_for attrs;
          communities = comms;
        })
      ]
      else none

  -- func (m *Manager) buildPath; `none` is an error
  unfoldable pub build_path : String → RouteAttrs → Option BgpPath
  unfolding next_hop_for build_with_hop
  build_path prefix attrs = elim (std.parse_prefix prefix) [
    | none ↦ none
    | some p ↦
        if gobgp.nlri_builds p.masked
        then elim (next_hop_for (family_of p)) [
          | none ↦ none
          | some hop ↦ build_with_hop p attrs hop
        ]
        else none
  ]

  -- `m.storeInstalledUUID` if the path was added
  unfoldable pub store_added : BgpManager S → String → S × AddReply → BgpManager S × Bool
  store_added m prefix (s, added u) =
      (record { server = s; installed = insert prefix u m.installed }, true)
  store_added m prefix (s, refused) = (record m { server = s }, false)
  store_added m prefix (s, no_response) = (record m { server = s }, false)
  store_added m prefix (s, path_error) = (record m { server = s }, false)

  -- the end of upsertVIP: AddPath
  unfoldable pub add_route : BgpManager S → String → BgpPath → BgpManager S × Bool
  unfolding store_added
  add_route m prefix path = store_added m prefix (gobgp.add_path m.server path)

  -- the previous path of a prefix is deleted, and forgotten if that succeeds
  unfoldable pub delete_installed : BgpManager S → String → Uuid → BgpManager S × Bool
  delete_installed m prefix u =
      let (s, ok) = gobgp.delete_uuid m.server u in
      (record { server = s; installed = if ok then delete prefix m.installed else m.installed }, ok)

  -- upsertVIP once the path is built
  unfoldable pub upsert_path : BgpManager S → String → BgpPath → BgpManager S × Bool
  upsert_path m prefix path = elim (lookup prefix m.installed) [
    | none ↦ add_route m prefix path
    | some u ↦
        let (m', ok) = delete_installed m prefix u in
        if ok then add_route m' prefix path else (m', false)
  ]

  -- func (m *Manager) upsertVIP, which AnnounceVIP and PessimizeVIP call by originate
  unfoldable pub upsert_vip : BgpManager S → String → RouteAttrs → BgpManager S × Bool
  upsert_vip m prefix attrs = elim (build_path prefix attrs) [
    | none ↦ (m, false)
    | some path ↦ upsert_path m prefix path
  ]

  -- the deletion of a route of which no UUID is known
  unfoldable pub delete_built : BgpManager S → String → BgpPath → BgpManager S × Bool
  delete_built m prefix path =
      let (s, ok) = gobgp.delete_path m.server path in
      (record { server = s; installed = if ok then delete prefix m.installed else m.installed }, ok)

  -- func (m *Manager) WithdrawVIP
  unfoldable pub withdraw_route : BgpManager S → String → BgpManager S × Bool
  withdraw_route m prefix = elim (build_path prefix no_attrs) [
    | none ↦ (m, false)
    | some path ↦ elim (lookup prefix m.installed) [
      | none ↦ delete_built m prefix path
      | some u ↦ delete_installed m prefix u
    ]
  ]
