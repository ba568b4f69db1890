-- ===== src/Bgp/Manager/Routes.antt =====
-- What the steps of the BGP manager do to the routes of the GoBGP server.
use pathosd.Common.{
  String, ◌≡◌, refl, ap, ◌∙◌, Bool, true, false, Option, none, some, ◌==◌, eq_iff, arith,
  Bool-cases, inl, inr, nat_eq,
}
use pathosd.Common.Dict.{lookup}
use pathosd.Config.Stdlib.{Stdlib}
use pathosd.Config.Vip.{Config}
use pathosd.Model.State.{RouteAttrs}
use pathosd.Bgp.Gobgp.{
  Gobgp, BgpPath, Uuid, without_uuid, AddReply, added, refused, no_response, path_error,
}
use pathosd.Bgp.Manager.{
  BgpManager, build_path, build_with_hop, store_added, add_route, delete_installed, delete_built,
}
use pathosd.Bgp.Manager.Consistent.{nlri_of, IsConsistent}

-- the path of a route
abbrev pub path_of : Option (Uuid × BgpPath) → Option (Option BgpPath)
path_of none = none
path_of (some (u, path)) = some (some path)

without_uuid-other :
    (u : Uuid) (r : Option (Uuid × BgpPath))
    → ((path : BgpPath) → r ≡ some (u, path) → ⊥)
    → without_uuid u r ≡ r
without_uuid-other u none h = refl
without_uuid-other u (some (v, path)) h = elim (Bool-cases (nat_eq u v)) [
  | inl same ↦ absurd (h path (ground arith))
  | inr other ↦ rw other refl
]

without_uuid_self : (u : Uuid) (path : BgpPath) → without_uuid u (some (u, path)) ≡ none
without_uuid_self u path = ground arith

module _ {S : Type 0} (std : Stdlib) (gobgp : Gobgp S) (cfg : Config) where
  abbrev pub path_at : Option String → S → Option (Option BgpPath)
  path_at none s = none
  path_at (some q) s = path_of (gobgp.route s q)

  -- the route of a prefix
  abbrev pub installed_route : BgpManager S → String → Option (Option BgpPath)
  installed_route m p = path_at (nlri_of std gobgp p) m.server

  -- two prefixes of one NLRI
  abbrev pub same_nlri : Option String → Option String → Bool
  same_nlri (some a) (some b) = a == b
  same_nlri _ _ = false

  abbrev pub shares_route : String → String → Bool
  shares_route p q = same_nlri (nlri_of std gobgp p) (nlri_of std gobgp q)

  pub build_path-nlri :
      (prefix : String) (attrs : RouteAttrs) (b : BgpPath)
      → build_path std gobgp cfg prefix attrs ≡ some b
      → nlri_of std gobgp prefix ≡ some b.nlri
  unfolding build_path build_with_hop
  build_path-nlri prefix attrs b h = ground arith

  -- what an operation on one NLRI leaves alone
  unfoldable pub Leaves : BgpManager S → BgpManager S → String → Type 0
  Leaves m m' n = (q : String) → (n == q) ≡ false → gobgp.route m'.server q ≡ gobgp.route m.server q

  module _ (m : BgpManager S) (prefix : String) (b : BgpPath) (inv : IsConsistent std gobgp m)
      (here : nlri_of std gobgp prefix ≡ some b.nlri) where
    pub delete_installed-Leaves :
        (u : Uuid)
        → lookup prefix m.installed ≡ some u
        → Leaves m (delete_installed std gobgp cfg m prefix u).0 b.nlri
    unfolding delete_installed Leaves
    delete_installed-Leaves u kept q other = elim (Bool-cases (gobgp.delete_uuid m.server u).1) [
      | inr bad ↦ gobgp.uuid_keeps m.server u q bad
      | inl ok ↦
          gobgp.uuid_removes m.server u q ok
          ∙ without_uuid-other u _
              (λ path r. ground (arith, inv.placed prefix q u path kept r, eq_iff b.nlri q))
    ]

    pub delete_installed-removes :
        (u : Uuid)
        → lookup prefix m.installed ≡ some u
        → (delete_installed std gobgp cfg m prefix u).1 ≡ true
        → gobgp.route (delete_installed std gobgp cfg m prefix u).0.server b.nlri ≡ none
    unfolding delete_installed
    delete_installed-removes u kept ok =
        let (q, path, r) = gobgp.uuid_found m.server u ok in
        let e : b.nlri ≡ q = cc (inv.placed prefix q u path kept r, here) in
        gobgp.uuid_removes m.server u b.nlri ok
        ∙ ap (without_uuid u) (ap (gobgp.route m.server) e ∙ r)
        ∙ without_uuid_self u path

    pub add_route-Leaves : Leaves m (add_route std gobgp cfg m prefix b).0 b.nlri
    unfolding add_route store_added Leaves
    add_route-Leaves q other = left (gobgp.add_path m.server b).1
      where
        left :
            (reply : AddReply)
            → gobgp.route
                (store_added std gobgp cfg m prefix ((gobgp.add_path m.server b).0, reply)).0.server
                q
              ≡ gobgp.route m.server q
        left (added u) = gobgp.add_leaves m.server b q other
        left refused = gobgp.add_leaves m.server b q other
        left no_response = gobgp.add_leaves m.server b q other
        left path_error = gobgp.add_leaves m.server b q other

    pub add_route-installs :
        (add_route std gobgp cfg m prefix b).1 ≡ true
        → path_of (gobgp.route (add_route std gobgp cfg m prefix b).0.server b.nlri) ≡ some (some b)
    unfolding add_route store_added
    add_route-installs = done (gobgp.add_path m.server b).1 refl
      where
        done :
            (reply : AddReply)
            → (gobgp.add_path m.server b).1 ≡ reply
            → (store_added std gobgp cfg m prefix ((gobgp.add_path m.server b).0, reply)).1 ≡ true
            → path_of (
                gobgp.route
                  (store_added std gobgp cfg m prefix
                    ((gobgp.add_path m.server b).0, reply)).0.server
                  b.nlri)
              ≡ some (some b)
        done (added u) a ok = ap path_of (gobgp.add_installs m.server b u a)
        done refused a ok = cc
        done no_response a ok = cc
        done path_error a ok = cc

    pub delete_built-Leaves : Leaves m (delete_built std gobgp cfg m prefix b).0 b.nlri
    unfolding delete_built Leaves
    delete_built-Leaves q other = gobgp.path_leaves m.server b q other

    pub delete_built-removes :
        (delete_built std gobgp cfg m prefix b).1 ≡ true
        → gobgp.route (delete_built std gobgp cfg m prefix b).0.server b.nlri ≡ none
    unfolding delete_built
    delete_built-removes ok = gobgp.path_removes m.server b ok

    pub delete_installed-keeps :
        (u : Uuid) (q : String)
        → (delete_installed std gobgp cfg m prefix u).1 ≡ false
        → gobgp.route (delete_installed std gobgp cfg m prefix u).0.server q
          ≡ gobgp.route m.server q
    unfolding delete_installed
    delete_installed-keeps u q bad = gobgp.uuid_keeps m.server u q bad

    pub delete_built-keeps :
        (q : String)
        → (delete_built std gobgp cfg m prefix b).1 ≡ false
        → gobgp.route (delete_built std gobgp cfg m prefix b).0.server q ≡ gobgp.route m.server q
    unfolding delete_built
    delete_built-keeps q bad = gobgp.path_keeps m.server b q bad
