-- ===== src/Policy/Engine/Decision.antt =====
-- What `evaluate` decides, and how the prepends of the states compare.
use pathosd.Common.{ℕ, suc, ◌+◌, ◌≡◌, ◌≢◌, ◌↔◌, Bool, true, false, arith, eq_iff}
use pathosd.Common.Int.{pos, ◌+ℤ◌}
use pathosd.Config.Vip.{PolicyConfig}
use pathosd.Model.State.{withdrawn, announced, pessimized}
use pathosd.Policy.Engine.{evaluate, route_attrs_for, base_route_attrs, lower_prepend}

-- A VIP is announced at full priority exactly when it is healthy and the lower_priority file is absent.
pub evaluate-announced :
    (h f : Bool) (p : PolicyConfig) → (evaluate h f p ≡ announced) ↔ ((h ≡ true) × (f ≡ false))
unfolding evaluate
evaluate-announced h f p = ground arith

-- A VIP is withdrawn exactly when it is unhealthy and fail_action is not "lower_priority".
evaluate-withdrawn :
    (h f : Bool) (p : PolicyConfig)
    → (evaluate h f p ≡ withdrawn) ↔ ((h ≡ false) × (p.fail_action ≢ "lower_priority"))
unfolding evaluate
evaluate-withdrawn h f p = ground (
  arith,
  eq_iff p.fail_action "lower_priority",
  eq_iff p.fail_action "withdraw",
  eq_iff "withdraw" "lower_priority",
)

-- The prepends of a VIP are strictly more when it is pessimized, if its lower_priority prepend is positive.
pessimized_longer :
    (p : PolicyConfig) (x l : ℕ)
    → (base_route_attrs p).as_path_prepend ≡ pos x
    → lower_prepend p.lower_priority ≡ pos (suc l)
    → ((route_attrs_for p announced).as_path_prepend ≡ pos x)
      × ((route_attrs_for p pessimized).as_path_prepend ≡ pos (x + suc l))
unfolding route_attrs_for ◌+ℤ◌
pessimized_longer p x l e f = (e, rw (e, f) (ground arith))
