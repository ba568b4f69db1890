-- ===== src/Policy/Sync.antt =====
-- The routes agree with the states of the VIPs: what this means, and the steps on one VIP that keep it.
pub mod Managers
pub mod Events
pub mod Removal
pub mod Addition
pub mod Switch
pub mod Attrs
use pathosd.Common.{
  String, ◌≡◌, refl, ◌∙◌, Bool, true, false, not, Option, none, some, arith, ◌&&◌, ◌||◌,
  if◌then◌else◌, Option-cases, Bool-cases, inl, inr, ◌⊎◌,
}
use pathosd.Config.Vip.{VipConfig}
use pathosd.Model.State.{VipState, withdrawn, announced, pessimized}
use pathosd.Policy.Engine.{route_attrs_for}
use pathosd.Policy.Notifier.{Notifier}
use pathosd.Policy.State.{Env, VipStatus, World, same_state, same_state-eq}
use pathosd.Policy.Manager.{
  apply_bgp, push_state, transition_state, retry_bgp, emit_transition, call_listener,
}

module _ {N R : Type 0} (bgp : Notifier N R) where
  -- the manager has a notifier
  abbrev pub is_wired : World N → Bool
  is_wired w = elim w.notifier [ none ↦ false | some n ↦ true ]

  -- the installed route of a prefix
  abbrev pub route_of : World N → String → Option R
  route_of w p = elim w.notifier [ none ↦ none | some n ↦ bgp.route n p ]

  -- the route that a state calls for
  abbrev pub wanted : VipConfig → VipState → Option R
  wanted cfg withdrawn = none
  wanted cfg announced = some (bgp.render cfg.prefix (route_attrs_for cfg.policy announced))
  wanted cfg pessimized = some (bgp.render cfg.prefix (route_attrs_for cfg.policy pessimized))

  -- unless an operation is pending, the installed route is the one that the state calls for
  pub record IsInStep (w : World N) (cfg : VipConfig) (vs : VipStatus) : Type 0 where
    pub in_step :
        is_wired w ≡ true → vs.bgp_pending ≡ false → route_of w cfg.prefix ≡ wanted cfg vs.state

  -- a change of the world that touches no route but that of one VIP, and leaves that VIP in step
  pub record Moves (w w' : World N) (cfg : VipConfig) (vs' : VipStatus) : Type 0 where
    pub in_step :
        is_wired w' ≡ true → vs'.bgp_pending ≡ false → route_of w' cfg.prefix ≡ wanted cfg vs'.state
    pub wired : is_wired w' ≡ is_wired w
    pub others : (q : String) → bgp.overlaps cfg.prefix q ≡ false → route_of w' q ≡ route_of w q

  apply_bgp-installs :
      (n : N) (cfg : VipConfig) (st : VipState)
      → (apply_bgp bgp n cfg st).1 ≡ true
      → bgp.route (apply_bgp bgp n cfg st).0 cfg.prefix ≡ wanted cfg st
  unfolding apply_bgp
  apply_bgp-installs n cfg withdrawn h = bgp.withdraw_removes n cfg.prefix h
  apply_bgp-installs n cfg announced h = bgp.announce_installs n cfg.prefix _ h
  apply_bgp-installs n cfg pessimized h = bgp.pessimize_installs n cfg.prefix _ h

  apply_bgp-leaves :
      (n : N) (cfg : VipConfig) (st : VipState) (q : String)
      → bgp.overlaps cfg.prefix q ≡ false
      → bgp.route (apply_bgp bgp n cfg st).0 q ≡ bgp.route n q
  unfolding apply_bgp
  apply_bgp-leaves n cfg withdrawn q h = bgp.withdraw_leaves n cfg.prefix q h
  apply_bgp-leaves n cfg announced q h = bgp.announce_leaves n cfg.prefix q _ h
  apply_bgp-leaves n cfg pessimized q h = bgp.pessimize_leaves n cfg.prefix q _ h

  pub push_state-Moves :
      (w : World N) (cfg : VipConfig) (vs : VipStatus)
      → Moves w (push_state bgp w cfg vs).0 cfg (push_state bgp w cfg vs).1
  unfolding push_state
  push_state-Moves w cfg vs = elim (Option-cases w.notifier) [
    | inl e ↦ record { in_step = ground arith; wired = ground arith; others = λ q h. ground arith }
    | inr (n, e) ↦ record {
      in_step = ground (arith, apply_bgp-installs n cfg vs.state);
      wired = ground arith;
      others = λ q h. ground (arith, apply_bgp-leaves n cfg vs.state q h);
    }
  ]

  pub Moves-rest :
      (w : World N) (cfg : VipConfig) (vs : VipStatus) → IsInStep w cfg vs → Moves w w cfg vs
  Moves-rest w cfg vs h = record { in_step = h.in_step; wired = refl; others = λ q k. refl }

  -- Only the notifiers of the two worlds matter.
  pub Moves-effects :
      (w v v' w' : World N) (cfg : VipConfig) (vs : VipStatus)
      → v.notifier ≡ w.notifier
      → w'.notifier ≡ v'.notifier
      → Moves v v' cfg vs
      → Moves w w' cfg vs
  Moves-effects w v v' w' cfg vs e f m = record {
    in_step = rw f m.in_step;
    wired = rw (f, ← e) m.wired;
    others = λ q h. rw (f, ← e) (m.others q h);
  }

  -- A transition into another state pushes that state, whatever the route was.
  pub transition_state-Moves_new :
      (env : Env) (w : World N) (cfg : VipConfig) (vs : VipStatus) (st : VipState) (reason : String)
      → same_state st vs.state ≡ false
      → Moves w
          (transition_state bgp env w cfg vs st reason).0
          cfg
          (transition_state bgp env w cfg vs st reason).1
  unfolding transition_state
  transition_state-Moves_new env w cfg vs st reason new = rw new (
      let w1 = emit_transition env cfg st w in
      let vs1 = record vs {
        state = st;
        last_transition_at = env.now;
        last_transition_reason = reason;
      } in
      let (w2, vs2) = push_state bgp w1 cfg vs1 in
      Moves-effects w w1 w2 (call_listener w2) cfg vs2 refl refl (push_state-Moves w1 cfg vs1))

  pub transition_state-Moves :
      (env : Env) (w : World N) (cfg : VipConfig) (vs : VipStatus) (st : VipState) (reason : String)
      → IsInStep w cfg vs
      → Moves w
          (transition_state bgp env w cfg vs st reason).0
          cfg
          (transition_state bgp env w cfg vs st reason).1
  transition_state-Moves env w cfg vs st reason h = elim (Bool-cases (same_state st vs.state)) [
    | inl same ↦ unfold transition_state in rw same (Moves-rest w cfg vs h)
    | inr new ↦ transition_state-Moves_new env w cfg vs st reason new
  ]

  pub retry_bgp-Moves :
      (w : World N) (cfg : VipConfig) (vs : VipStatus)
      → IsInStep w cfg vs
      → Moves w (retry_bgp bgp w cfg vs).0 cfg (retry_bgp bgp w cfg vs).1
  unfolding retry_bgp
  retry_bgp-Moves w cfg vs h = elim (Option-cases w.notifier) [
    | inl e ↦ record {
      in_step = ground (arith, h.in_step);
      wired = ground arith;
      others = λ q h. ground arith;
    }
    | inr (n, e) ↦ record {
      in_step = ground (arith, apply_bgp-installs n cfg vs.state, h.in_step);
      wired = ground arith;
      others = λ q k. ground (arith, apply_bgp-leaves n cfg vs.state q k);
    }
  ]

  pub Moves-trans :
      {w w1 w2 : World N} {cfg : VipConfig} {vs1 vs2 : VipStatus}
      → Moves w w1 cfg vs1
      → Moves w1 w2 cfg vs2
      → Moves w w2 cfg vs2
  Moves-trans a b = record {
    in_step = b.in_step;
    wired = b.wired ∙ a.wired;
    others = λ q h. b.others q h ∙ a.others q h;
  }
