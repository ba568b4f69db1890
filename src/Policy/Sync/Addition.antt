-- ===== src/Policy/Sync/Addition.antt =====
-- What AddVIP does to the invariant.
use pathosd.Common.{
  not, ◌&&◌, if◌then◌else◌, String, ◌≡◌, refl, subst, true, false, none, some, arith, ◌==◌, eq_iff,
  Bool-cases, inl, inr,
}
use pathosd.Common.Dict.{lookup, insert, member, lookup-insert}
use pathosd.Config.Vip.{VipConfig}
use pathosd.Config.ChecksPolicy.{ExprLang}
use pathosd.Model.State.{withdrawn}
use pathosd.Policy.Notifier.{Notifier}
use pathosd.Policy.State.{Env, VipEntry, World, Manager}
use pathosd.Policy.Manager.{new_vip_entry, emit_registered}
use pathosd.Policy.Commit.{add_vip}
use pathosd.Policy.Sync.{is_wired, route_of, wanted}
use pathosd.Policy.Sync.Managers.{IsSynced}

module _ {N R P : Type 0} (bgp : Notifier N R) where
  module _ (m : Manager N P) (name : String) (e : VipEntry P) (w : World N) (s : IsSynced bgp m)
      (same : w.notifier ≡ m.world.notifier) (down : e.state.state ≡ withdrawn)
      (empty : route_of bgp m.world e.cfg.prefix ≡ none)
      (apart : (k : String) (x : VipEntry P)
        → lookup k m.vips ≡ some x
        → (bgp.overlaps e.cfg.prefix x.cfg.prefix ≡ false)
          × (bgp.overlaps x.cfg.prefix e.cfg.prefix ≡ false)) where
    register-in_step :
        (k : String) (x : VipEntry P)
        → lookup k (insert name e m.vips) ≡ some x
        → is_wired bgp w ≡ true
        → x.state.bgp_pending ≡ false
        → route_of bgp w x.cfg.prefix ≡ wanted bgp x.cfg x.state.state
    register-in_step k x h wired idle = rw same (elim (Bool-cases (name == k)) [
      | inl hit ↦
          let e1 : e ≡ x = ground (arith, lookup-insert name k e m.vips) in
          subst
            (λ (z : VipEntry P). route_of bgp m.world z.cfg.prefix ≡ wanted bgp z.cfg z.state.state)
            e1 (rw down empty)
      | inr miss ↦
          s.in_step k x (ground (arith, lookup-insert name k e m.vips)) (rw same at wired) idle
    ])

    register-apart :
        (a b : String) (ea eb : VipEntry P)
        → lookup a (insert name e m.vips) ≡ some ea
        → lookup b (insert name e m.vips) ≡ some eb
        → (a == b) ≡ false
        → bgp.overlaps ea.cfg.prefix eb.cfg.prefix ≡ false
    register-apart a b ea eb ha hb ne = ground (
      arith,
      lookup-insert name a e m.vips,
      lookup-insert name b e m.vips,
      eq_iff name a,
      eq_iff name b,
      eq_iff a b,
      apart a ea,
      apart b eb,
      s.apart a b ea eb,
    )

  -- AddVIP keeps every VIP in step, if the new prefix has no route and shares none with a VIP. If the
  -- name is not taken, the new VIP stands under it, and every other VIP as before; if it is taken, every
  -- VIP stands as before.
  pub add_vip-IsSynced :
      (lang : ExprLang P) (env : Env) (m : Manager N P) (cfg : VipConfig)
      → IsSynced bgp m
      → route_of bgp m.world cfg.prefix ≡ none
      → ((k : String) (x : VipEntry P)
          → lookup k m.vips ≡ some x
          → (bgp.overlaps cfg.prefix x.cfg.prefix ≡ false)
            × (bgp.overlaps x.cfg.prefix cfg.prefix ≡ false))
      → IsSynced bgp (add_vip lang env m cfg)
        × ((k : String)
            → lookup k (add_vip lang env m cfg).vips ≡ (
                if not (member cfg.name m.vips) && cfg.name == k
                then some (new_vip_entry lang env cfg)
                else lookup k m.vips))
  unfolding add_vip emit_registered
  add_vip-IsSynced lang env m cfg s empty apart = elim (Bool-cases (member cfg.name m.vips)) [
    | inl taken ↦ rw (taken, add_vip) (s, λ k. refl)
    | inr fresh ↦
        let e = new_vip_entry lang env cfg in
        rw (fresh, add_vip)
          (
            unfold new_vip_entry in
                record {
                  in_step =
                      register-in_step m cfg.name e (emit_registered cfg m.world) s refl refl empty
                        apart;
                  apart =
                      register-apart m cfg.name e (emit_registered cfg m.world) s refl refl empty
                        apart;
                },
            λ k. lookup-insert cfg.name k e m.vips,
          )
  ]
