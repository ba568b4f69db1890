-- ===== src/Tests/Bgp.antt =====
-- Communities, announcements and withdrawals.
use pathosd.Config.Vip.{PolicyConfig}
use pathosd.Model.State.{announced, pessimized}
use pathosd.Policy.Engine.{base_route_attrs, lower_prepend, route_attrs_for, merge_communities}
use pathosd.Bgp.Gobgp.{BgpPath, ipv4_unicast}
use pathosd.Bgp.Ranks.{pessimized_outranks, prepends}
use pathosd.Common.{
  ℕ, contains, length, ◌↔◌, ◌≤◌, ◌+◌, ◌≡◌, refl, true, none, some, List, [], ◌∷◌, ◌&&◌, print_nat,
  if◌then◌else◌, arith, split_colon, parse_uint16, sorted, join, is_ascending, split_commas,
}
use pathosd.Common.Int.{pos, ◌+ℤ◌}
use pathosd.Common.Dict.{lookup}
use pathosd.Model.State.{RouteAttrs}
use pathosd.Bgp.Communities.{
  print_community, parse_communities, stringify_communities, parse-stringify_communities,
}
use mathlib.Core.List.{Perm}
use pathosd.Bgp.Manager.{BgpManager, build_path, upsert_vip, withdraw_route, upsert_path, add_route}
use pathosd.Bgp.Manager.Consistent.{IsConsistent}
use pathosd.Bgp.Manager.Routes.{installed_route, shares_route}
use pathosd.Bgp.Manager.Refines.{upsert_vip_installs, upsert_vip-IsConsistent}
use pathosd.Bgp.Manager.Withdraws.{withdraw_route_removes}
use pathosd.Tests.Files.{parsers, written}
use pathosd.Tests.Server.{Event, server}

communities_text : print_community 4259840100 ≡ "65000:100"
unfolding print_community print_nat
communities_text = refl

stringified : stringify_communities (4259840100 ∷ 1 ∷ []) ≡ "0:1,65000:100"
unfolding stringify_communities sorted join print_community print_nat
stringified = refl

parse-stringify_communities_example :
    (is_ascending (split_commas (stringify_communities (4259840100 ∷ 1 ∷ []))) ≡ true)
    × (ds : List ℕ) × (parse_communities
          (split_commas (stringify_communities (4259840100 ∷ 1 ∷ [])))
        ≡ some ds)
    × Perm (4259840100 ∷ 1 ∷ []) ds
parse-stringify_communities_example =
    parse-stringify_communities 4259840100 (1 ∷ []) (omega arith, (omega arith, tt))

-- a manager that has originated nothing
abbrev idle : BgpManager (List Event)
idle = record { server = []; installed = [] }

idle-IsConsistent : IsConsistent parsers server idle
unfolding lookup
idle-IsConsistent = record { owned = λ p u h. cc; placed = λ p q u path h r. cc }

abbrev attrs : RouteAttrs
attrs = record { as_path_prepend = pos 2; communities = "65000:100" ∷ [] }

abbrev announced_once : BgpManager (List Event)
announced_once = (upsert_vip parsers server written idle "10.0.0.1/32" attrs).0

installs : (upsert_vip parsers server written idle "10.0.0.1/32" attrs).1 ≡ true
unfolding upsert_vip build_path parse_communities split_colon parse_uint16 upsert_path lookup
    add_route
installs = refl

-- an announcement, seen by the other text of its prefix
upsert_vip_installs_example :
    IsConsistent parsers server announced_once
    × (installed_route parsers server written announced_once "10.0.0.001/32" ≡ (
        if shares_route parsers server written "10.0.0.1/32" "10.0.0.001/32"
        then some (build_path parsers server written "10.0.0.1/32" attrs)
        else installed_route parsers server written idle "10.0.0.001/32"))
upsert_vip_installs_example =
    upsert_vip_installs parsers server written idle "10.0.0.1/32" attrs idle-IsConsistent installs
      "10.0.0.001/32"

announced_once-IsConsistent : IsConsistent parsers server announced_once
announced_once-IsConsistent =
    upsert_vip-IsConsistent parsers server written idle "10.0.0.1/32" attrs idle-IsConsistent

withdraw_route_removes_example :
    IsConsistent parsers server
      (withdraw_route parsers server written announced_once "10.0.0.1/32").0
    × (installed_route parsers server written
          (withdraw_route parsers server written announced_once "10.0.0.1/32").0
          "10.0.0.001/32"
        ≡ (if (withdraw_route parsers server written announced_once "10.0.0.1/32").1
              && shares_route parsers server written "10.0.0.1/32" "10.0.0.001/32"
            then none
            else installed_route parsers server written announced_once "10.0.0.001/32"))
withdraw_route_removes_example =
    withdraw_route_removes parsers server written announced_once "10.0.0.1/32"
      announced_once-IsConsistent "10.0.0.001/32"

abbrev ranked : ℕ → PolicyConfig
ranked base = record {
  fail_action = "lower_priority";
  lower_priority_file = "/run/drain";
  announce = some (record { as_path_prepend = some (pos base); communities = "65000:1" ∷ [] });
  lower_priority = some (record { as_path_prepend = some (pos 6); communities = "65000:2" ∷ [] });
}

abbrev primary : BgpPath
primary = record {
  family = ipv4_unicast;
  nlri = "10.0.0.1/32";
  next_hop = "";
  as_path = 65000 ∷ 65000 ∷ 65000 ∷ 65000 ∷ 65000 ∷ 65000 ∷ [];
  communities = 4259840001 ∷ 4259840002 ∷ [];
}

abbrev standby : BgpPath
standby = record primary {
  as_path = 65000 ∷ 65000 ∷ 65000 ∷ 65000 ∷ 65000 ∷ 65000 ∷ 65000 ∷ 65000 ∷ 65000 ∷ 65000 ∷ [];
  communities = 4259840001 ∷ [];
}

primary_path :
    build_path parsers server written "10.0.0.1/32" (route_attrs_for (ranked 0) pessimized)
    ≡ some primary
unfolding build_path route_attrs_for merge_communities contains parse_communities split_colon
    parse_uint16 ◌+ℤ◌ base_route_attrs lower_prepend
primary_path = refl

standby_path :
    build_path parsers server written "10.0.0.1/32" (route_attrs_for (ranked 10) announced)
    ≡ some standby
unfolding build_path route_attrs_for merge_communities contains parse_communities split_colon
    parse_uint16 ◌+ℤ◌ base_route_attrs lower_prepend
standby_path = refl

-- a degraded primary against a standby of rank 10
pessimized_outranks_example :
    (length primary.as_path ≤ length standby.as_path)
    ↔ (prepends written (0 + 6) ≤ prepends written 10)
unfolding base_route_attrs lower_prepend
pessimized_outranks_example =
    pessimized_outranks parsers server written written "10.0.0.1/32" (ranked 0) (ranked 10) 0 10 6
      primary standby refl refl refl primary_path standby_path
