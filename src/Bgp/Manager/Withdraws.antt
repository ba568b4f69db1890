-- ===== src/Bgp/Manager/Withdraws.antt =====
-- Withdrawals of the BGP manager, and the manager as a notifier.
use pathosd.Common.{
  String, ◌≡◌, refl, ap, Bool, true, false, Option, none, some, ◌==◌, ◌&&◌, if◌then◌else◌,
  Option-cases, inl, inr,
}
use pathosd.Common.Dict.{lookup}
use pathosd.Config.Stdlib.{Stdlib}
use pathosd.Config.Vip.{Config}
use pathosd.Model.State.{no_attrs}
use pathosd.Bgp.Gobgp.{Gobgp, BgpPath}
use pathosd.Bgp.Manager.{BgpManager, build_path, delete_installed, delete_built, withdraw_route}
use pathosd.Bgp.Manager.Consistent.{
  nlri_of, IsConsistent, delete_installed-IsConsistent, delete_built-IsConsistent,
}
use pathosd.Bgp.Manager.Routes.{
  path_of, path_at, installed_route, shares_route, build_path-nlri, Leaves, delete_installed-Leaves,
  delete_installed-removes, delete_built-Leaves, delete_built-removes, delete_installed-keeps,
  delete_built-keeps,
}
use pathosd.Bgp.Manager.Refines.{changed_route}

module _ {S : Type 0} (std : Stdlib) (gobgp : Gobgp S) (cfg : Config) where
  module _ (m : BgpManager S) (prefix : String) (inv : IsConsistent std gobgp m) where
    -- what is known of the result of an operation that takes the path of an NLRI away
    record Takes (n : String) (result : BgpManager S × Bool) : Type 0 where
      consistent : IsConsistent std gobgp result.0
      removes : result.1 ≡ true → gobgp.route result.0.server n ≡ none
      keeps :
          (q : String) → result.1 ≡ false → gobgp.route result.0.server q ≡ gobgp.route m.server q
      leaves :
          (q : String) → (n == q) ≡ false → gobgp.route result.0.server q ≡ gobgp.route m.server q

    -- the operation on a prefix whose path is built
    abbrev withdraw_built : BgpPath → BgpManager S × Bool
    withdraw_built b = elim (lookup prefix m.installed) [
      | none ↦ delete_built std gobgp cfg m prefix b
      | some u ↦ delete_installed std gobgp cfg m prefix u
    ]

    withdraw_built-Takes :
        (b : BgpPath) → nlri_of std gobgp prefix ≡ some b.nlri → Takes b.nlri (withdraw_built b)
    unfolding Leaves
    withdraw_built-Takes b here = elim (Option-cases (lookup prefix m.installed)) [
      | inl new ↦
          rw (new, withdraw_built)
            (record {
              consistent = delete_built-IsConsistent std gobgp cfg m prefix b inv;
              removes = delete_built-removes std gobgp cfg m prefix b inv here;
              keeps = delete_built-keeps std gobgp cfg m prefix b inv here;
              leaves = delete_built-Leaves std gobgp cfg m prefix b inv here;
            })
      | inr (u, kept) ↦
          rw (kept, withdraw_built)
            (record {
              consistent = delete_installed-IsConsistent std gobgp cfg m prefix u inv;
              removes = delete_installed-removes std gobgp cfg m prefix b inv here u kept;
              keeps = delete_installed-keeps std gobgp cfg m prefix b inv here u;
              leaves = delete_installed-Leaves std gobgp cfg m prefix b inv here u kept;
            })
    ]

    Takes-route :
        (b : BgpPath) (result : BgpManager S × Bool) (q : String)
        → nlri_of std gobgp prefix ≡ some b.nlri
        → Takes b.nlri result
        → installed_route std gobgp cfg result.0 q ≡ (
            if result.1 && shares_route std gobgp cfg prefix q
            then none
            else installed_route std gobgp cfg m q)
    Takes-route b (m', true) q here t =
        changed_route std gobgp cfg m.server m'.server b.nlri none (nlri_of std gobgp prefix)
          (nlri_of std gobgp q) here (ap path_of (t.removes refl)) t.leaves
    Takes-route b (m', false) q here t = kept (nlri_of std gobgp q)
      where
        kept :
            (n : Option String)
            → path_at std gobgp cfg n m'.server ≡ path_at std gobgp cfg n m.server
        kept none = refl
        kept (some x) = ap path_of (t.keeps x refl)

    pub withdraw_route-IsConsistent :
        IsConsistent std gobgp (withdraw_route std gobgp cfg m prefix).0
    unfolding withdraw_route
    withdraw_route-IsConsistent = elim (Option-cases (build_path std gobgp cfg prefix no_attrs)) [
      | inl bad ↦ rw (bad, withdraw_route) inv
      | inr (b, good) ↦
          rw (good, withdraw_route)
            (withdraw_built-Takes b
              (build_path-nlri std gobgp cfg prefix no_attrs b good)).consistent
    ]

    -- A withdrawal leaves the manager consistent. If it succeeds, no text of its prefix has a route, and
    -- the route of any other is kept; if it fails, every route is kept.
    pub withdraw_route_removes :
        (q : String)
        → IsConsistent std gobgp (withdraw_route std gobgp cfg m prefix).0
          × (installed_route std gobgp cfg (withdraw_route std gobgp cfg m prefix).0 q ≡ (
              if (withdraw_route std gobgp cfg m prefix).1 && shares_route std gobgp cfg prefix q
              then none
              else installed_route std gobgp cfg m q))
    unfolding withdraw_route
    withdraw_route_removes q = (
      withdraw_route-IsConsistent,
      elim (Option-cases (build_path std gobgp cfg prefix no_attrs)) [
        | inl bad ↦ rw (bad, withdraw_route) refl
        | inr (b, good) ↦
            let here = build_path-nlri std gobgp cfg prefix no_attrs b good in
            rw (good, withdraw_route)
              (Takes-route b (withdraw_built b) q here (withdraw_built-Takes b here))
      ],
    )
