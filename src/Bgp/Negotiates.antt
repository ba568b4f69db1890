-- ===== src/Bgp/Negotiates.antt =====
-- The address families of the peers, fixed when the daemon starts, and the configs that a reload may bring.
use pathosd.Common.{◌≡◌, true, false, some, [], ap, ◌∷◌, ◌==◌, arith}
use pathosd.Config.Stdlib.{Stdlib}
use pathosd.Config.Sections.{NeighborConfig}
use pathosd.Config.Vip.{Config}
use pathosd.Config.ChecksPolicy.{ExprLang}
use pathosd.Config.Diff.{restart_required}
use pathosd.Config.Diff.Restart.{restart_required-none}
use pathosd.Config.Validate.Report.{concat-none, report-none}
use pathosd.Config.Validate.Sections.{validate, validate_router, has_ipv6_vip}
use pathosd.Bgp.Gobgp.{ipv4_unicast, ipv6_unicast}
use pathosd.Bgp.Peers.{Peer, build_peer, wants_ipv6}

module _ {P : Type 0} (lang : ExprLang P) (std : Stdlib) where
  -- an IPv6 VIP comes with an IPv6 address of the router
  local_address-set :
      (cfg : Config)
      → validate std lang cfg ≡ []
      → has_ipv6_vip std cfg.vips ≡ true
      → (cfg.router.local_address_ipv6 == "") ≡ false
  unfolding validate validate_router
  local_address-set cfg h six =
      let router = (concat-none _ h).1.0 in
      let here = (concat-none _ router).1.1.1.1.0 in
      let absent = report-none _ _ here in ground (arith, absent, six)

  -- If Validate accepts a config with an IPv6 VIP, and no section of it requires a restart, then each
  -- peer that was built from the running config negotiates IPv6 as well as IPv4.
  pub build_peer_negotiates :
      (running cfg : Config) (n : NeighborConfig) (p : Peer)
      → validate std lang cfg ≡ []
      → has_ipv6_vip std cfg.vips ≡ true
      → restart_required running cfg ≡ []
      → build_peer std running n ≡ some p
      → p.families ≡ ipv4_unicast ∷ ipv6_unicast ∷ []
  unfolding build_peer wants_ipv6
  build_peer_negotiates running cfg n p valid six same built =
      let set = local_address-set cfg valid six in
      let same_router = restart_required-none running cfg same in
      let kept : (running.router.local_address_ipv6 == "") ≡ false =
        rw (← ap (λ c. c.router) same_router) set in
      ground (arith, kept, built)
