-- ===== src/Policy/Verdict.antt =====
-- The states of the VIPs follow from the health of their checks: what this means, and that each
-- handler of a check's event keeps it.
pub mod Committed
pub mod Checks
pub mod Events
pub mod Commits
pub mod Membership
use pathosd.Common.{
  String, ◌≡◌, Bool, true, false, some, ◌==◌, eq_iff, arith, Bool-cases, inl, inr, subst,
}
use pathosd.Common.Dict.{lookup, insert, lookup-insert}
use pathosd.Config.ChecksPolicy.{ExprLang}
use pathosd.Model.State.{withdrawn, unknown, healthy}
use pathosd.Policy.Engine.{evaluate}
use pathosd.Policy.State.{VipEntry, VipStatus, World, Manager, same_health}
use pathosd.Policy.Manager.{combine_health}
use pathosd.Policy.Handlers.{store}

module _ {P : Type 0} (lang : ExprLang P) where
  pub record IsEvaluated (e : VipEntry P) : Type 0 where
    -- the health of the VIP is that of its checks, combined by its checks policy
    pub combined : e.state.health ≡ combine_health lang e.eval e.state.checks
    -- once it is known, the state is the one that the policy gives
    pub decided :
        same_health e.state.health unknown ≡ false
        → e.state.state
          ≡ evaluate
              (same_health e.state.health healthy)
              e.state.lower_priority_file_on
              e.cfg.policy

  -- every VIP of a manager
  abbrev pub AllVips : {N : Type 0} → (VipEntry P → Type 0) → Manager N P → Type 0
  AllVips Q m = (k : String) (x : VipEntry P) → lookup k m.vips ≡ some x → Q x

  pub store-AllVips :
      {N : Type 0} (Q : VipEntry P → Type 0) (m : Manager N P) (name : String) (entry : VipEntry P)
      (w : World N) (vs : VipStatus)
      → AllVips Q m
      → Q (record entry { state = vs })
      → AllVips Q (store m name entry (w, vs))
  store-AllVips Q m name entry w vs all q k x h = elim (Bool-cases (name == k)) [
    | inl hit ↦
        let e : record entry { state = vs } ≡ x =
          ground (arith, lookup-insert name k (record entry { state = vs }) m.vips) in
        subst Q e q
    | inr miss ↦ all k x (ground (arith, lookup-insert name k (record entry { state = vs }) m.vips))
  ]
