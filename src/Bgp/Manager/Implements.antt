-- ===== src/Bgp/Manager/Implements.antt =====
-- The BGP manager as an implementation of the interface BGPNotifier: the laws of Policy/Notifier.
use pathosd.Common.{
  String, ◌≡◌, refl, ap, ◌∙◌, Bool, true, false, Option, none, some, ◌&&◌, eq_refl, if◌then◌else◌,
  Option-cases, inl, inr,
}
use pathosd.Config.Stdlib.{Stdlib}
use pathosd.Config.Vip.{Config}
use pathosd.Model.State.{RouteAttrs, no_attrs}
use pathosd.Policy.Notifier.{Notifier}
use pathosd.Bgp.Gobgp.{Gobgp, BgpPath}
use pathosd.Bgp.Manager.{BgpManager, build_path, upsert_vip, withdraw_route}
use pathosd.Bgp.Manager.Consistent.{IsConsistent}
use pathosd.Bgp.Manager.Routes.{installed_route, shares_route, build_path-nlri}
use pathosd.Bgp.Manager.Refines.{upsert_vip_installs, upsert_vip-IsConsistent, upsert_vip-leaves}
use pathosd.Bgp.Manager.Withdraws.{withdraw_route_removes, withdraw_route-IsConsistent}

module _ {S : Type 0} (std : Stdlib) (gobgp : Gobgp S) (cfg : Config) where
  -- a consistent manager
  abbrev pub Consistent : Type 0
  Consistent = (m : BgpManager S) × IsConsistent std gobgp m

  shares_route_self :
      (prefix : String) (attrs : RouteAttrs) (b : BgpPath)
      → build_path std gobgp cfg prefix attrs ≡ some b
      → shares_route std gobgp cfg prefix prefix ≡ true
  shares_route_self prefix attrs b good =
      rw (build_path-nlri std gobgp cfg prefix attrs b good) (eq_refl b.nlri)

  upsert_vip-shares :
      (m : BgpManager S) (prefix : String) (attrs : RouteAttrs)
      → (upsert_vip std gobgp cfg m prefix attrs).1 ≡ true
      → shares_route std gobgp cfg prefix prefix ≡ true
  unfolding upsert_vip
  upsert_vip-shares m prefix attrs ok =
      elim (Option-cases (build_path std gobgp cfg prefix attrs)) [
        | inl bad ↦ cc (rw (bad, upsert_vip) at ok)
        | inr (b, good) ↦ shares_route_self prefix attrs b good
      ]

  withdraw_route-shares :
      (m : BgpManager S) (prefix : String)
      → (withdraw_route std gobgp cfg m prefix).1 ≡ true
      → shares_route std gobgp cfg prefix prefix ≡ true
  unfolding withdraw_route
  withdraw_route-shares m prefix ok =
      elim (Option-cases (build_path std gobgp cfg prefix no_attrs)) [
        | inl bad ↦ cc (rw (bad, withdraw_route) at ok)
        | inr (b, good) ↦ shares_route_self prefix no_attrs b good
      ]

  -- AnnounceVIP and PessimizeVIP, which both are originate
  abbrev pub originate : Consistent → String → RouteAttrs → Consistent × Bool
  originate n p a = (
    ((upsert_vip std gobgp cfg n.0 p a).0, upsert_vip-IsConsistent std gobgp cfg n.0 p a n.1),
    (upsert_vip std gobgp cfg n.0 p a).1,
  )

  abbrev pub withdraw : Consistent → String → Consistent × Bool
  withdraw n p = (
    ((withdraw_route std gobgp cfg n.0 p).0, withdraw_route-IsConsistent std gobgp cfg n.0 p n.1),
    (withdraw_route std gobgp cfg n.0 p).1,
  )

  abbrev pub route : Consistent → String → Option (Option BgpPath)
  route n p = installed_route std gobgp cfg n.0 p

  pub originate-installs :
      (n : Consistent) (p : String) (a : RouteAttrs)
      → (originate n p a).1 ≡ true
      → route (originate n p a).0 p ≡ some (build_path std gobgp cfg p a)
  originate-installs n p a ok =
      (upsert_vip_installs std gobgp cfg n.0 p a n.1 ok p).1
      ∙ ap (λ t. if t then some (build_path std gobgp cfg p a) else route n p)
          (upsert_vip-shares n.0 p a ok)

  pub originate-leaves :
      (n : Consistent) (p q : String) (a : RouteAttrs)
      → shares_route std gobgp cfg p q ≡ false
      → route (originate n p a).0 q ≡ route n q
  originate-leaves n p q a other = upsert_vip-leaves std gobgp cfg n.0 p a n.1 q other

  withdraw-route :
      (n : Consistent) (p q : String) (ok shared : Bool)
      → (withdraw n p).1 ≡ ok
      → shares_route std gobgp cfg p q ≡ shared
      → route (withdraw n p).0 q ≡ (if ok && shared then none else route n q)
  withdraw-route n p q ok shared e f =
      (withdraw_route_removes std gobgp cfg n.0 p n.1 q).1
      ∙ ap (λ t. if t && shares_route std gobgp cfg p q then none else route n q) e
      ∙ ap (λ t. if ok && t then none else route n q) f

  pub withdraw-removes :
      (n : Consistent) (p : String) → (withdraw n p).1 ≡ true → route (withdraw n p).0 p ≡ none
  withdraw-removes n p ok = withdraw-route n p p true true ok (withdraw_route-shares n.0 p ok)

  pub withdraw-keeps :
      (n : Consistent) (p : String)
      → (withdraw n p).1 ≡ false
      → route (withdraw n p).0 p ≡ route n p
  withdraw-keeps n p bad = withdraw-route n p p false _ bad refl

  pub withdraw-leaves :
      (n : Consistent) (p q : String)
      → shares_route std gobgp cfg p q ≡ false
      → route (withdraw n p).0 q ≡ route n q
  withdraw-leaves n p q other = pick (withdraw n p).1 refl
    where
      pick : (ok : Bool) → (withdraw n p).1 ≡ ok → route (withdraw n p).0 q ≡ route n q
      pick true e = withdraw-route n p q true false e other
      pick false e = withdraw-route n p q false false e other

  abbrev pub bgp_notifier : Notifier Consistent (Option BgpPath)
  bgp_notifier = record {
    announce_vip = originate;
    pessimize_vip = originate;
    withdraw_vip = withdraw;
    route = route;
    render = build_path std gobgp cfg;
    overlaps = shares_route std gobgp cfg;
    announce_installs = originate-installs;
    pessimize_installs = originate-installs;
    withdraw_removes = withdraw-removes;
    withdraw_keeps = withdraw-keeps;
    announce_leaves = originate-leaves;
    pessimize_leaves = originate-leaves;
    withdraw_leaves = withdraw-leaves;
  }
