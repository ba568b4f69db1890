-- ===== src/Bgp/Manager/Refines.antt =====
-- The BGP manager over the GoBGP server is a notifier as the policy manager expects it.
use pathosd.Common.{
  String, ◌≡◌, refl, ap, ◌∙◌, Bool, true, false, Option, none, some, ◌==◌, eq_iff, arith,
  if◌then◌else◌, Option-cases, Bool-cases, inl, inr,
}
use pathosd.Common.Dict.{lookup}
use pathosd.Config.Stdlib.{Stdlib}
use pathosd.Config.Vip.{Config}
use pathosd.Model.State.{RouteAttrs}
use pathosd.Bgp.Gobgp.{Gobgp, BgpPath}
use pathosd.Bgp.Manager.{
  BgpManager, build_path, add_route, delete_installed, upsert_path, upsert_vip,
}
use pathosd.Bgp.Manager.Consistent.{
  nlri_of, IsConsistent, delete_installed-IsConsistent, add_route-IsConsistent,
}
use pathosd.Bgp.Manager.Routes.{
  path_of, path_at, installed_route, same_nlri, shares_route, build_path-nlri, Leaves,
  delete_installed-Leaves, add_route-Leaves, add_route-installs,
}

module _ {S : Type 0} (std : Stdlib) (gobgp : Gobgp S) (cfg : Config) where
  -- what a successful change of one NLRI means for the route of any prefix
  pub changed_route :
      (s s' : S) (n : String) (r : Option (Option BgpPath)) (p q : Option String)
      → p ≡ some n
      → path_of (gobgp.route s' n) ≡ r
      → ((x : String) → (n == x) ≡ false → gobgp.route s' x ≡ gobgp.route s x)
      → path_at std gobgp cfg q s'
        ≡ (if same_nlri std gobgp cfg p q then r else path_at std gobgp cfg q s)
  changed_route s s' n r none q here new others = cc
  changed_route s s' n r (some a) none here new others = refl
  changed_route s s' n r (some a) (some x) here new others = elim (Bool-cases (a == x)) [
    | inl same ↦
        rw same (ap (λ y. path_of (gobgp.route s' y)) (cc ((eq_iff a x).0 same, here)) ∙ new)
    | inr other ↦ rw other (ap path_of (others x (ground (arith, eq_iff n x, eq_iff a x))))
  ]

  module _ (m : BgpManager S) (prefix : String) (attrs : RouteAttrs)
      (inv : IsConsistent std gobgp m) where
    -- what is known of the result of an operation that puts a path in place
    record Puts (b : BgpPath) (result : BgpManager S × Bool) : Type 0 where
      consistent : IsConsistent std gobgp result.0
      installs : result.1 ≡ true → path_of (gobgp.route result.0.server b.nlri) ≡ some (some b)
      leaves :
          (q : String)
          → (b.nlri == q) ≡ false
          → gobgp.route result.0.server q ≡ gobgp.route m.server q

    add_route-Puts :
        (b : BgpPath)
        → nlri_of std gobgp prefix ≡ some b.nlri
        → Puts b (add_route std gobgp cfg m prefix b)
    unfolding Leaves
    add_route-Puts b here = record {
      consistent = add_route-IsConsistent std gobgp cfg m prefix b inv here;
      installs = add_route-installs std gobgp cfg m prefix b inv here;
      leaves = add_route-Leaves std gobgp cfg m prefix b inv here;
    }

    upsert_path-Puts :
        (b : BgpPath)
        → nlri_of std gobgp prefix ≡ some b.nlri
        → Puts b (upsert_path std gobgp cfg m prefix b)
    unfolding upsert_path Leaves
    upsert_path-Puts b here = elim (Option-cases (lookup prefix m.installed)) [
      | inl new ↦ rw (new, upsert_path) (add_route-Puts b here)
      | inr (u, kept) ↦
          let m' = (delete_installed std gobgp cfg m prefix u).0 in
          let inv' = delete_installed-IsConsistent std gobgp cfg m prefix u inv in
          let left = delete_installed-Leaves std gobgp cfg m prefix b inv here u kept in
          elim (Bool-cases (delete_installed std gobgp cfg m prefix u).1) [
            | inl ok ↦
                rw (kept, ok, upsert_path)
                  (record {
                    consistent = add_route-IsConsistent std gobgp cfg m' prefix b inv' here;
                    installs = add_route-installs std gobgp cfg m' prefix b inv' here;
                    leaves = λ q other.
                        add_route-Leaves std gobgp cfg m' prefix b inv' here q other ∙ left q other;
                  })
            | inr bad ↦
                rw (kept, bad, upsert_path)
                  (record { consistent = inv'; installs = λ x. cc; leaves = left })
          ]
    ]

    pub upsert_vip-IsConsistent : IsConsistent std gobgp (upsert_vip std gobgp cfg m prefix attrs).0
    unfolding upsert_vip
    upsert_vip-IsConsistent = elim (Option-cases (build_path std gobgp cfg prefix attrs)) [
      | inl bad ↦ rw (bad, upsert_vip) inv
      | inr (b, good) ↦
          rw (good, upsert_vip)
            (upsert_path-Puts b (build_path-nlri std gobgp cfg prefix attrs b good)).consistent
    ]

    pub upsert_vip-leaves :
        (q : String)
        → shares_route std gobgp cfg prefix q ≡ false
        → installed_route std gobgp cfg (upsert_vip std gobgp cfg m prefix attrs).0 q
          ≡ installed_route std gobgp cfg m q
    unfolding upsert_vip
    upsert_vip-leaves q other = elim (Option-cases (build_path std gobgp cfg prefix attrs)) [
      | inl bad ↦ rw (bad, upsert_vip) refl
      | inr (b, good) ↦
          let here = build_path-nlri std gobgp cfg prefix attrs b good in
          let puts = upsert_path-Puts b here in
          rw (good, upsert_vip)
            (changed_route m.server _ b.nlri _ (nlri_of std gobgp prefix) (nlri_of std gobgp q) here
                refl puts.leaves
              ∙ rw other refl)
    ]

    -- An announcement that succeeds leaves the manager consistent, puts the path of its prefix and
    -- attributes in place for every text of this prefix, and keeps the route of any other.
    pub upsert_vip_installs :
        (upsert_vip std gobgp cfg m prefix attrs).1 ≡ true
        → (q : String)
        → IsConsistent std gobgp (upsert_vip std gobgp cfg m prefix attrs).0
          × (installed_route std gobgp cfg (upsert_vip std gobgp cfg m prefix attrs).0 q ≡ (
              if shares_route std gobgp cfg prefix q
              then some (build_path std gobgp cfg prefix attrs)
              else installed_route std gobgp cfg m q))
    unfolding upsert_vip
    upsert_vip_installs ok q = (
      upsert_vip-IsConsistent,
      elim (Option-cases (build_path std gobgp cfg prefix attrs)) [
        | inl bad ↦ cc (rw (bad, upsert_vip) at ok)
        | inr (b, good) ↦
            let here = build_path-nlri std gobgp cfg prefix attrs b good in
            let puts = upsert_path-Puts b here in
            rw (good, upsert_vip)
              (changed_route m.server _ b.nlri _ (nlri_of std gobgp prefix) (nlri_of std gobgp q)
                here (puts.installs (rw (good, upsert_vip) at ok)) puts.leaves)
      ],
    )
