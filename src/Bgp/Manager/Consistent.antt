-- ===== src/Bgp/Manager/Consistent.antt =====
-- The UUIDs that the BGP manager keeps are those of its own routes, whatever it does.
use pathosd.Common.{
  String, ◌≡◌, ◌≢◌, refl, sym, ◌∙◌, Bool, true, false, Option, none, some, ◌==◌, eq_iff, arith,
  if◌then◌else◌, Bool-cases, inl, inr, ◌⊎◌,
}
use pathosd.Common.Dict.{Dict, lookup, insert, delete, lookup-insert, lookup-delete}
use pathosd.Config.Stdlib.{Stdlib}
use pathosd.Config.Vip.{Config}
use pathosd.Bgp.Gobgp.{
  Gobgp, BgpPath, Uuid, without_uuid, AddReply, added, refused, no_response, path_error,
}
use pathosd.Bgp.Manager.{BgpManager, store_added, add_route, delete_installed, delete_built}

without_uuid-some :
    (u v : Uuid) (r : Option (Uuid × BgpPath)) (path : BgpPath)
    → without_uuid u r ≡ some (v, path)
    → r ≡ some (v, path)
without_uuid-some u v none path h = cc
without_uuid-some u v (some (w, p)) path h = ground arith

lookup-delete-some :
    (p q : String) (u : Uuid) (d : Dict Uuid) → lookup q (delete p d) ≡ some u → lookup q d ≡ some u
lookup-delete-some p q u d h = ground (arith, lookup-delete p q d)

kept_of :
    (ok : Bool) (prefix : String) (d : Dict Uuid) (p : String) (u : Uuid)
    → lookup p (if ok then delete prefix d else d) ≡ some u
    → lookup p d ≡ some u
kept_of true prefix d p u h = lookup-delete-some prefix p u d h
kept_of false prefix d p u h = h

module _ {S : Type 0} (std : Stdlib) (gobgp : Gobgp S) where
  -- the NLRI of a prefix
  abbrev pub nlri_of : String → Option String
  nlri_of prefix = elim (std.parse_prefix prefix) [ none ↦ none | some p ↦ some p.masked ]

  -- a UUID that is kept has been given out, and its route, if it is still there, is that of its prefix
  pub record IsConsistent (m : BgpManager S) : Type 0 where
    pub owned :
        (p : String) (u : Uuid) → lookup p m.installed ≡ some u → gobgp.issued m.server u ≡ true
    pub placed :
        (p q : String) (u : Uuid) (path : BgpPath)
        → lookup p m.installed ≡ some u
        → gobgp.route m.server q ≡ some (u, path)
        → nlri_of p ≡ some q

  -- fewer UUIDs are kept, and no route is new
  shrink :
      (m m' : BgpManager S)
      → IsConsistent m
      → ((p : String) (u : Uuid) → lookup p m'.installed ≡ some u → lookup p m.installed ≡ some u)
      → ((u : Uuid) → gobgp.issued m.server u ≡ true → gobgp.issued m'.server u ≡ true)
      → ((q : String) (u : Uuid) (path : BgpPath)
          → gobgp.route m'.server q ≡ some (u, path)
          → gobgp.route m.server q ≡ some (u, path))
      → IsConsistent m'
  shrink m m' inv kept issued route = record {
    owned = λ p u h. issued u (inv.owned p u (kept p u h));
    placed = λ p q u path h r. inv.placed p q u path (kept p u h) (route q u path r);
  }

  path_route :
      (s : S) (b : BgpPath) (q : String) (v : Uuid) (path : BgpPath)
      → gobgp.route (gobgp.delete_path s b).0 q ≡ some (v, path)
      → gobgp.route s q ≡ some (v, path)
  path_route s b q v path r = elim (Bool-cases (gobgp.delete_path s b).1) [
    | inr bad ↦ sym (gobgp.path_keeps s b q bad) ∙ r
    | inl ok ↦ elim (Bool-cases (b.nlri == q)) [
      | inr other ↦ sym (gobgp.path_leaves s b q other) ∙ r
      | inl same ↦ cc (gobgp.path_removes s b ok, (eq_iff b.nlri q).0 same, r)
    ]
  ]

  -- the routes behind AddPath: the new one, or one that was there
  add_route-cases :
      (s : S) (b : BgpPath) (q : String) (v : Uuid) (path : BgpPath)
      → gobgp.route (gobgp.add_path s b).0 q ≡ some (v, path)
      → ((b.nlri ≡ q) × ((gobgp.add_path s b).1 ≡ added v)) ⊎ (gobgp.route s q ≡ some (v, path))
  add_route-cases s b q v path r = elim (Bool-cases (b.nlri == q)) [
    | inr other ↦ inr (sym (gobgp.add_leaves s b q other) ∙ r)
    | inl same ↦ at_nlri ((eq_iff b.nlri q).0 same) (gobgp.add_path s b).1 refl
  ]
    where
      at_nlri :
          b.nlri ≡ q
          → (reply : AddReply) → (gobgp.add_path s b).1 ≡ reply
          → ((b.nlri ≡ q) × ((gobgp.add_path s b).1 ≡ added v)) ⊎ (gobgp.route s q ≡ some (v, path))
      at_nlri e (added u) a = inl (e, cc (gobgp.add_installs s b u a, a, r, e))
      at_nlri e refused a = inr (cc (gobgp.add_keeps s b (λ u x. cc (a, x)), r, e))
      at_nlri e no_response a = inr (cc (gobgp.add_keeps s b (λ u x. cc (a, x)), r, e))
      at_nlri e path_error a = inr (cc (gobgp.add_keeps s b (λ u x. cc (a, x)), r, e))

  module _ (cfg : Config) where
    pub delete_installed-IsConsistent :
        (m : BgpManager S) (prefix : String) (u : Uuid)
        → IsConsistent m
        → IsConsistent (delete_installed std gobgp cfg m prefix u).0
    unfolding delete_installed
    delete_installed-IsConsistent m prefix u inv =
        shrink m _ inv (kept_of (gobgp.delete_uuid m.server u).1 prefix m.installed)
          (λ v. gobgp.uuid_remembers m.server u v)
          (λ q v path r. elim (Bool-cases (gobgp.delete_uuid m.server u).1) [
            | inl ok ↦ without_uuid-some u v _ path (sym (gobgp.uuid_removes m.server u q ok) ∙ r)
            | inr bad ↦ sym (gobgp.uuid_keeps m.server u q bad) ∙ r
          ])

    pub delete_built-IsConsistent :
        (m : BgpManager S) (prefix : String) (b : BgpPath)
        → IsConsistent m
        → IsConsistent (delete_built std gobgp cfg m prefix b).0
    unfolding delete_built
    delete_built-IsConsistent m prefix b inv =
        shrink m _ inv (kept_of (gobgp.delete_path m.server b).1 prefix m.installed)
          (λ v. gobgp.path_remembers m.server b v) (path_route m.server b)

    -- a path that is added is the only one of its UUID
    store-IsConsistent :
        (m : BgpManager S) (prefix : String) (b : BgpPath) (u : Uuid)
        → IsConsistent m
        → nlri_of prefix ≡ some b.nlri
        → (gobgp.add_path m.server b).1 ≡ added u
        → IsConsistent (record {
          server = (gobgp.add_path m.server b).0;
          installed = insert prefix u m.installed;
        })
    store-IsConsistent m prefix b u inv here a = record {
      owned = λ p v h. elim (Bool-cases (prefix == p)) [
        | inl same ↦
            cc (
              gobgp.add_issues m.server b u a,
              rw (lookup-insert prefix p u m.installed, same) at h,
            )
        | inr other ↦
            gobgp.add_remembers m.server b v
              (inv.owned p v (rw (lookup-insert prefix p u m.installed, other) at h))
      ];
      placed = λ p q v path h r. elim (Bool-cases (prefix == p)) [
        | inl same ↦
            let e : u ≡ v = cc (rw (lookup-insert prefix p u m.installed, same) at h) in
            let f = (eq_iff prefix p).0 same in
            elim (add_route-cases m.server b q v path r) [
              | inl (g, _) ↦ cc (here, f, g)
              | inr old ↦
                  cc (gobgp.route_issued m.server q v path old, gobgp.add_fresh m.server b u a, e)
            ]
        | inr other ↦
            let k = rw (lookup-insert prefix p u m.installed, other) at h in
            elim (add_route-cases m.server b q v path r) [
              | inl (_, now) ↦ cc (inv.owned p v k, gobgp.add_fresh m.server b v now)
              | inr old ↦ inv.placed p q v path k old
            ]
      ];
    }

    -- a path that is not added changes no route
    fail-IsConsistent :
        (m : BgpManager S) (b : BgpPath)
        → IsConsistent m
        → ((u : Uuid) → (gobgp.add_path m.server b).1 ≢ added u)
        → IsConsistent (record m { server = (gobgp.add_path m.server b).0 })
    fail-IsConsistent m b inv fails =
        shrink m _ inv (λ p u h. h) (λ v. gobgp.add_remembers m.server b v)
          (λ q v path r. elim (add_route-cases m.server b q v path r) [
            | inl (_, now) ↦ absurd (fails v now)
            | inr old ↦ old
          ])

    pub add_route-IsConsistent :
        (m : BgpManager S) (prefix : String) (b : BgpPath)
        → IsConsistent m
        → nlri_of prefix ≡ some b.nlri
        → IsConsistent (add_route std gobgp cfg m prefix b).0
    unfolding add_route store_added
    add_route-IsConsistent m prefix b inv here = stored (gobgp.add_path m.server b).1 refl
      where
        stored :
            (reply : AddReply)
            → (gobgp.add_path m.server b).1 ≡ reply
            → IsConsistent
                (store_added std gobgp cfg m prefix ((gobgp.add_path m.server b).0, reply)).0
        stored (added u) a = store-IsConsistent m prefix b u inv here a
        stored refused a = fail-IsConsistent m b inv (λ u x. cc (a, x))
        stored no_response a = fail-IsConsistent m b inv (λ u x. cc (a, x))
        stored path_error a = fail-IsConsistent m b inv (λ u x. cc (a, x))
