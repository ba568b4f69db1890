-- ===== src/Bgp/Ranks.antt =====
-- The lengths of the AS paths that two nodes originate for one VIP.
use pathosd.Common.{
  ℕ, zero, suc, ◌+◌, ◌≤◌, String, ◌≡◌, refl, ap, ◌∙◌, ◌↔◌, true, some, [], ◌&&◌, if◌then◌else◌,
  length, replicate, length-replicate, arith, Bool-cases, inl, inr,
}
use pathosd.Common.Int.{pos, ltb_ℤ, ◌+ℤ◌}
use pathosd.Config.Stdlib.{Stdlib}
use pathosd.Config.Vip.{PolicyConfig, Config}
use pathosd.Model.State.{RouteAttrs, announced, pessimized}
use pathosd.Policy.Engine.{route_attrs_for, base_route_attrs, lower_prepend}
use pathosd.Bgp.Gobgp.{Gobgp, BgpPath}
use pathosd.Bgp.Manager.{has_ibgp_peer, build_as_path, as_path_for, build_with_hop, build_path}

-- the prepends that a node originates: none if it has an iBGP peer
abbrev pub prepends : Config → ℕ → ℕ
prepends cfg n = if has_ibgp_peer cfg.router.asn cfg.bgp.neighbors then 0 else n

module _ {S : Type 0} (std : Stdlib) (gobgp : Gobgp S) (cfg : Config) where
  length-as_path_for :
      (attrs : RouteAttrs) (n : ℕ)
      → attrs.as_path_prepend ≡ pos n
      → length (as_path_for std gobgp cfg attrs) ≡ prepends cfg n
  unfolding as_path_for build_as_path
  length-as_path_for attrs n e =
      elim (Bool-cases (has_ibgp_peer cfg.router.asn cfg.bgp.neighbors)) [
        | inl internal ↦ rw internal (ground arith)
        | inr external ↦ rw (external, e) (prepended n)
      ]
    where
      prepended :
          (k : ℕ)
          → length (if ltb_ℤ (pos 0) (pos k) && true then replicate k cfg.router.asn else []) ≡ k
      prepended zero = refl
      prepended (suc k) = ground (arith, length-replicate k cfg.router.asn)

  build_path-as_path :
      (prefix : String) (attrs : RouteAttrs) (path : BgpPath)
      → build_path std gobgp cfg prefix attrs ≡ some path
      → path.as_path ≡ as_path_for std gobgp cfg attrs
  unfolding build_path build_with_hop
  build_path-as_path prefix attrs path e = ground arith

-- Two nodes announce one VIP with base prepends `x` and `y`, and the lower_priority prepend of the first
-- is `l`. While the first is pessimized and the second is announced at full priority, the AS path that
-- the first originates is no longer than that of the second exactly when the prepends of the first, `x + l`
-- or none if it has an iBGP peer, are at most those of the second, `y` or none if that one has.
pub pessimized_outranks :
    {S : Type 0} (std : Stdlib) (gobgp : Gobgp S) (cfg cfg' : Config) (prefix : String)
    (a b : PolicyConfig) (x y l : ℕ) (p q : BgpPath)
    → (base_route_attrs a).as_path_prepend ≡ pos x
    → lower_prepend a.lower_priority ≡ pos l
    → (base_route_attrs b).as_path_prepend ≡ pos y
    → build_path std gobgp cfg prefix (route_attrs_for a pessimized) ≡ some p
    → build_path std gobgp cfg' prefix (route_attrs_for b announced) ≡ some q
    → (length p.as_path ≤ length q.as_path) ↔ (prepends cfg (x + l) ≤ prepends cfg' y)
unfolding route_attrs_for ◌+ℤ◌
pessimized_outranks std gobgp cfg cfg' prefix a b x y l p q e f g first second =
    let low : (route_attrs_for a pessimized).as_path_prepend ≡ pos (x + l) =
      rw (e, f) (ground arith) in
    let long_p =
      ap length (build_path-as_path std gobgp cfg prefix _ p first)
      ∙ length-as_path_for std gobgp cfg (route_attrs_for a pessimized) (x + l) low in
    let long_q =
      ap length (build_path-as_path std gobgp cfg' prefix _ q second)
      ∙ length-as_path_for std gobgp cfg' (route_attrs_for b announced) y g in
    rw (long_p, long_q) ((λ h. h), (λ h. h))
