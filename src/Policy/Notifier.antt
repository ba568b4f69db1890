-- ===== src/Policy/Notifier.antt =====
-- The interface BGPNotifier (internal/policy/manager.go), which bgp.Manager implements.
-- `N` is the state of an implementation, and an operation returns the new state, and whether its error
-- is nil. `R` is what the implementation installs for a prefix: `route` reads it, and `render` says
-- what it is to be for given attributes. `overlaps` tells two texts of prefixes that share a route.
use pathosd.Common.{String, ◌≡◌, Bool, true, false, Option, none, some}
use pathosd.Model.State.{RouteAttrs}

pub record Notifier (N R : Type 0) : Type 0 where
  pub announce_vip : N → String → RouteAttrs → N × Bool
  pub pessimize_vip : N → String → RouteAttrs → N × Bool
  pub withdraw_vip : N → String → N × Bool
  pub route : N → String → Option R
  pub render : String → RouteAttrs → R
  pub overlaps : String → String → Bool
  -- a success installs what was asked for
  pub announce_installs :
      (n : N) (p : String) (a : RouteAttrs)
      → (announce_vip n p a).1 ≡ true
      → route (announce_vip n p a).0 p ≡ some (render p a)
  pub pessimize_installs :
      (n : N) (p : String) (a : RouteAttrs)
      → (pessimize_vip n p a).1 ≡ true
      → route (pessimize_vip n p a).0 p ≡ some (render p a)
  pub withdraw_removes :
      (n : N) (p : String) → (withdraw_vip n p).1 ≡ true → route (withdraw_vip n p).0 p ≡ none
  -- a withdrawal that fails leaves the route as it was
  pub withdraw_keeps :
      (n : N) (p : String) → (withdraw_vip n p).1 ≡ false → route (withdraw_vip n p).0 p ≡ route n p
  -- no operation touches the route of another prefix, whether it succeeds or not
  pub announce_leaves :
      (n : N) (p q : String) (a : RouteAttrs)
      → overlaps p q ≡ false
      → route (announce_vip n p a).0 q ≡ route n q
  pub pessimize_leaves :
      (n : N) (p q : String) (a : RouteAttrs)
      → overlaps p q ≡ false
      → route (pessimize_vip n p a).0 q ≡ route n q
  pub withdraw_leaves :
      (n : N) (p q : String) → overlaps p q ≡ false → route (withdraw_vip n p).0 q ≡ route n q
