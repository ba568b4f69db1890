-- ===== src/Policy/Sync/Removal.antt =====
-- What RemoveVIP does to the invariant and to the routes.
use pathosd.Common.{
  Option, if◌then◌else◌, String, ◌≡◌, refl, sym, ◌∙◌, true, false, none, some, arith, ◌==◌, eq_iff,
  Bool-cases, Option-cases, inl, inr,
}
use pathosd.Common.Dict.{lookup, lookup-delete}
use pathosd.Config.ChecksPolicy.{ExprLang}
use pathosd.Model.State.{withdrawn}
use pathosd.Policy.Notifier.{Notifier}
use pathosd.Policy.State.{VipEntry, World, Manager, same_state, same_state-eq}
use pathosd.Policy.Commit.{CommitError, remove_vip, remove_entry, forget_vip}
use pathosd.Policy.Sync.{is_wired, route_of}
use pathosd.Policy.Sync.Managers.{IsSynced}

module _ {N R P : Type 0} (bgp : Notifier N R) where
  -- Changes of the world that touch only the route of a VIP that is forgotten.
  forget_vip-IsSynced :
      (lang : ExprLang P) (m : Manager N P) (name : String) (e : VipEntry P) (w : World N)
      → IsSynced bgp m
      → lookup name m.vips ≡ some e
      → is_wired bgp w ≡ is_wired bgp m.world
      → ((q : String)
          → bgp.overlaps e.cfg.prefix q ≡ false
          → route_of bgp w q ≡ route_of bgp m.world q)
      → IsSynced bgp (forget_vip lang bgp m name w)
  unfolding forget_vip
  forget_vip-IsSynced lang m name e w s found wired others = record {
    in_step = λ k x h up idle.
        let miss : (name == k) ≡ false = ground (arith, lookup-delete name k m.vips) in
        let old : lookup k m.vips ≡ some x = ground (arith, lookup-delete name k m.vips) in
        others x.cfg.prefix (s.apart name k e x found old miss)
        ∙ s.in_step k x old (sym wired ∙ up) idle;
    apart = λ a b ea eb ha hb.
        s.apart a b ea eb (ground (arith, lookup-delete name a m.vips))
          (ground (arith, lookup-delete name b m.vips));
  }

  withdraw_failed-IsSynced :
      (m : Manager N P) (name : String) (n : N) (e : VipEntry P)
      → IsSynced bgp m
      → m.world.notifier ≡ some n
      → lookup name m.vips ≡ some e
      → (bgp.withdraw_vip n e.cfg.prefix).1 ≡ false
      → IsSynced bgp (record m {
        world = record m.world { notifier = some (bgp.withdraw_vip n e.cfg.prefix).0 };
      })
  withdraw_failed-IsSynced m name n e s up found bad = record {
    in_step = λ k x h wired idle. elim (Bool-cases (name == k)) [
      | inl hit ↦
          ground (arith, eq_iff name k, s.in_step k x h, bgp.withdraw_keeps n e.cfg.prefix bad)
      | inr miss ↦ ground (
        arith,
        s.in_step k x h,
        bgp.withdraw_leaves n e.cfg.prefix x.cfg.prefix (s.apart name k e x found h miss),
      )
    ];
    apart = s.apart;
  }

  remove_entry-IsSynced :
      (lang : ExprLang P) (m : Manager N P) (name : String) (e : VipEntry P)
      → IsSynced bgp m
      → lookup name m.vips ≡ some e
      → IsSynced bgp (remove_entry lang bgp m name e).0
  unfolding remove_entry
  remove_entry-IsSynced lang m name e s found =
      elim (Bool-cases (same_state e.state.state withdrawn)) [
        | inl down ↦ rw down (forget_vip-IsSynced lang m name e m.world s found refl (λ q h. refl))
        | inr up ↦ rw up (elim (Option-cases m.world.notifier) [
          | inl unwired ↦
              rw (unwired, remove_entry)
                (forget_vip-IsSynced lang m name e m.world s found refl (λ q h. refl))
          | inr (n, wired) ↦
              rw (wired, remove_entry)
                (elim (Bool-cases (bgp.withdraw_vip n e.cfg.prefix).1) [
                  | inl done ↦ rw done (
                      forget_vip-IsSynced lang m name e _ s found (ground arith)
                        (λ q h. ground (arith, bgp.withdraw_leaves n e.cfg.prefix q h)))
                  | inr bad ↦ rw bad (withdraw_failed-IsSynced m name n e s wired found bad)
                ])
        ])
      ]

  -- what a removal leaves of the VIPs: all of them if it fails, and otherwise all but the named one
  abbrev pub Leaves : Manager N P → String → Manager N P × Option CommitError → Type 0
  Leaves m name (m', none) =
      (k : String) → lookup k m'.vips ≡ (if name == k then none else lookup k m.vips)
  Leaves m name (m', some err) = (m'.vips ≡ m.vips) × (m'.order ≡ m.order)

  forget_vip-Leaves :
      (lang : ExprLang P) (m : Manager N P) (name : String) (w : World N)
      → Leaves m name (forget_vip lang bgp m name w, none)
  unfolding forget_vip
  forget_vip-Leaves lang m name w k = lookup-delete name k m.vips

  remove_entry-Leaves :
      (lang : ExprLang P) (m : Manager N P) (name : String) (e : VipEntry P)
      → Leaves m name (remove_entry lang bgp m name e)
  unfolding remove_entry
  remove_entry-Leaves lang m name e = elim (Bool-cases (same_state e.state.state withdrawn)) [
    | inl down ↦ rw down (forget_vip-Leaves lang m name m.world)
    | inr up ↦ rw up (elim (Option-cases m.world.notifier) [
      | inl unwired ↦ rw (unwired, remove_entry) (forget_vip-Leaves lang m name m.world)
      | inr (n, wired) ↦
          rw (wired, remove_entry)
            (elim (Bool-cases (bgp.withdraw_vip n e.cfg.prefix).1) [
              | inl done ↦ rw done (
                  forget_vip-Leaves lang m name
                    (record m.world { notifier = some (bgp.withdraw_vip n e.cfg.prefix).0 }))
              | inr bad ↦ rw bad (refl, refl)
            ])
    ])
  ]

  remove_vip-Leaves :
      (lang : ExprLang P) (m : Manager N P) (name : String)
      → Leaves m name (remove_vip lang bgp m name)
  unfolding remove_vip
  remove_vip-Leaves lang m name = elim (Option-cases (lookup name m.vips)) [
    | inl missing ↦ rw (missing, remove_vip) (λ k. ground (arith, eq_iff name k))
    | inr (e, found) ↦ rw (found, remove_vip) (remove_entry-Leaves lang m name e)
  ]

  -- Manager.RemoveVIP keeps the VIPs that it leaves in step with their routes. If it returns an error,
  -- it leaves all of them, the named one included, and their order; otherwise all but the named one.
  pub remove_vip-IsSynced :
      (lang : ExprLang P) (m : Manager N P) (name : String)
      → IsSynced bgp m
      → IsSynced bgp (remove_vip lang bgp m name).0 × Leaves m name (remove_vip lang bgp m name)
  unfolding remove_vip
  remove_vip-IsSynced lang m name s = (
    elim (Option-cases (lookup name m.vips)) [
      | inl missing ↦ rw (missing, remove_vip) s
      | inr (e, found) ↦ rw (found, remove_vip) (remove_entry-IsSynced lang m name e s found)
    ],
    remove_vip-Leaves lang m name,
  )

  -- Where a notifier is set and the VIPs are in step with their routes, a RemoveVIP that succeeds for a
  -- registered VIP without a pending retry leaves no route of its prefix, and no VIP of its name.
  pub remove_vip_withdraws :
      (lang : ExprLang P) (m : Manager N P) (name : String) (e : VipEntry P)
      → IsSynced bgp m
      → is_wired bgp m.world ≡ true
      → lookup name m.vips ≡ some e
      → e.state.bgp_pending ≡ false
      → (remove_vip lang bgp m name).1 ≡ none
      → (route_of bgp (remove_vip lang bgp m name).0.world e.cfg.prefix ≡ none)
        × (lookup name (remove_vip lang bgp m name).0.vips ≡ none)
  unfolding remove_vip remove_entry forget_vip
  remove_vip_withdraws lang m name e s up found idle ok = elim (Option-cases m.world.notifier) [
    | inl unwired ↦ ground arith
    | inr (n, wired) ↦ ground (
      arith,
      lookup-delete name name m.vips,
      eq_iff name name,
      s.in_step name e found up idle,
      bgp.withdraw_removes n e.cfg.prefix,
      same_state-eq e.state.state withdrawn,
    )
  ]

  -- A VIP that is to be withdrawn, and whose withdrawal failed and is pending, is removed without
  -- another attempt: the removal reports success, forgets the VIP, and leaves every route as it was.
  pub remove_vip_leaks :
      (lang : ExprLang P) (m : Manager N P) (name : String) (e : VipEntry P)
      → lookup name m.vips ≡ some e
      → e.state.state ≡ withdrawn
      → e.state.bgp_pending ≡ true
      → ((remove_vip lang bgp m name).1 ≡ none)
        × (lookup name (remove_vip lang bgp m name).0.vips ≡ none)
        × ((q : String)
            → route_of bgp (remove_vip lang bgp m name).0.world q ≡ route_of bgp m.world q)
  unfolding remove_vip remove_entry forget_vip
  remove_vip_leaks lang m name e found down pending = (
    ground arith,
    ground (arith, lookup-delete name name m.vips, eq_iff name name),
    λ q. ground arith,
  )
