-- ===== src/Policy/Sync/Managers.antt =====
-- The invariant of a whole manager: every VIP is in step with its route.
use pathosd.Common.{
  String, ◌≡◌, refl, sym, ◌∙◌, ap, true, false, some, arith, ◌==◌, eq_iff, Bool-cases, inl, inr,
}
use pathosd.Common.Dict.{lookup, lookup-insert}
use pathosd.Policy.Notifier.{Notifier}
use pathosd.Policy.State.{VipStatus, VipEntry, World, Manager}
use pathosd.Policy.Handlers.{store}
use pathosd.Policy.Sync.{is_wired, route_of, wanted, IsInStep, Moves}

module _ {N R P : Type 0} (bgp : Notifier N R) where
  pub record IsSynced (m : Manager N P) : Type 0 where
    -- a VIP with no pending operation has the route that its state calls for
    pub in_step :
        (name : String) (e : VipEntry P)
        → lookup name m.vips ≡ some e
        → is_wired bgp m.world ≡ true
        → e.state.bgp_pending ≡ false
        → route_of bgp m.world e.cfg.prefix ≡ wanted bgp e.cfg e.state.state
    -- two VIPs do not share a route
    pub apart :
        (a b : String) (ea eb : VipEntry P)
        → lookup a m.vips ≡ some ea
        → lookup b m.vips ≡ some eb
        → (a == b) ≡ false
        → bgp.overlaps ea.cfg.prefix eb.cfg.prefix ≡ false

  pub entry-IsInStep :
      (m : Manager N P) (name : String) (e : VipEntry P)
      → IsSynced m
      → lookup name m.vips ≡ some e
      → IsInStep bgp m.world e.cfg e.state
  entry-IsInStep m name e s h = record { in_step = s.in_step name e h }

  module _ (m : Manager N P) (name : String) (e entry : VipEntry P) (w : World N) (vs : VipStatus)
      (s : IsSynced m) (found : lookup name m.vips ≡ some e)
      (same : entry.cfg.prefix ≡ e.cfg.prefix) (moved : Moves bgp m.world w entry.cfg vs) where
    store-in_step :
        (k : String) (x : VipEntry P)
        → lookup k (store m name entry (w, vs)).vips ≡ some x
        → is_wired bgp w ≡ true
        → x.state.bgp_pending ≡ false
        → route_of bgp w x.cfg.prefix ≡ wanted bgp x.cfg x.state.state
    store-in_step k x h wired idle = elim (Bool-cases (name == k)) [
      | inl hit ↦
          let e1 : record entry { state = vs } ≡ x =
            ground (arith, lookup-insert name k (record entry { state = vs }) m.vips) in
          rw (← e1) (moved.in_step wired (ground arith))
      | inr miss ↦
          let old : lookup k m.vips ≡ some x =
            ground (arith, lookup-insert name k (record entry { state = vs }) m.vips) in
          let far : bgp.overlaps entry.cfg.prefix x.cfg.prefix ≡ false =
            rw same (s.apart name k e x found old miss) in
          moved.others x.cfg.prefix far ∙ s.in_step k x old (sym moved.wired ∙ wired) idle
    ]

    store-prefix :
        (k : String) (x : VipEntry P)
        → lookup k (store m name entry (w, vs)).vips ≡ some x
        → (y : VipEntry P) × (lookup k m.vips ≡ some y) × (x.cfg.prefix ≡ y.cfg.prefix)
    store-prefix k x h = elim (Bool-cases (name == k)) [
      | inl hit ↦
          let e1 : record entry { state = vs } ≡ x =
            ground (arith, lookup-insert name k (record entry { state = vs }) m.vips) in
          (e, ground (arith, eq_iff name k), ap (λ (z : VipEntry P). z.cfg.prefix) (sym e1) ∙ same)
      | inr miss ↦
          (x, ground (arith, lookup-insert name k (record entry { state = vs }) m.vips), refl)
    ]

    store-apart :
        (a b : String) (ea eb : VipEntry P)
        → lookup a (store m name entry (w, vs)).vips ≡ some ea
        → lookup b (store m name entry (w, vs)).vips ≡ some eb
        → (a == b) ≡ false
        → bgp.overlaps ea.cfg.prefix eb.cfg.prefix ≡ false
    store-apart a b ea eb ha hb ne =
        let (ya, la, pa) = store-prefix a ea ha in
        let (yb, lb, pb) = store-prefix b eb hb in rw (pa, pb) (s.apart a b ya yb la lb ne)

    -- Storing an entry with the same prefix after a move that leaves it in step keeps the invariant.
    pub store-IsSynced : IsSynced (store m name entry (w, vs))
    store-IsSynced = record { in_step = store-in_step; apart = store-apart }
