-- ===== src/Policy/Verdict/Membership.antt =====
-- A VIP that AddVIP registers stands evaluated, and RemoveVIP leaves the other VIPs so.
use pathosd.Common.{
  String, ◌≡◌, refl, sym, subst, false, some, List, [], ◌∷◌, ◌==◌, arith, Bool-cases, Option-cases,
  inl, inr,
}
use pathosd.Common.Dict.{Dict, lookup, insert, member, lookup-insert, lookup-delete}
use pathosd.Config.Checks.{CheckConfig}
use pathosd.Config.Vip.{VipConfig, check_list}
use pathosd.Config.ChecksPolicy.{ExprLang, ChecksEvaluator}
use pathosd.Model.State.{unknown, withdrawn}
use pathosd.Policy.Notifier.{Notifier}
use pathosd.Policy.State.{Env, CheckState, VipEntry, Manager, World, same_state}
use pathosd.Policy.Manager.{
  any_known, combine_health, initial_checks, entry_evaluator, new_vip_entry,
}
use pathosd.Policy.Commit.{add_vip, remove_vip, remove_entry, forget_vip}
use pathosd.Policy.Verdict.{IsEvaluated, AllVips}

any_known-insert_unknown :
    (k : String) (c : CheckState) (cs : Dict CheckState)
    → c.health ≡ unknown
    → any_known cs ≡ false
    → any_known (insert k c cs) ≡ false
unfolding any_known insert
any_known-insert_unknown k c [] u h = ground arith
any_known-insert_unknown k c ((j, x) ∷ cs) u h = ground (arith, any_known-insert_unknown k c cs)

any_known-initial_checks :
    (list : List CheckConfig) (cs : Dict CheckState)
    → any_known cs ≡ false
    → any_known (initial_checks list cs) ≡ false
unfolding initial_checks
any_known-initial_checks [] cs h = h
any_known-initial_checks (c ∷ list) cs h =
    any_known-initial_checks list _ (any_known-insert_unknown _ _ cs refl h)

no_checks : any_known [] ≡ false
unfolding any_known
no_checks = refl

module _ {P : Type 0} (lang : ExprLang P) where
  combine_health-unknown :
      (ev : ChecksEvaluator P) (cs : Dict CheckState)
      → any_known cs ≡ false
      → combine_health lang ev cs ≡ unknown
  unfolding combine_health
  combine_health-unknown ev cs h = rw h refl

  new_vip_entry-IsEvaluated :
      (env : Env) (cfg : VipConfig) → IsEvaluated lang (new_vip_entry lang env cfg)
  unfolding new_vip_entry
  new_vip_entry-IsEvaluated env cfg = record {
    combined = sym (
        combine_health-unknown (entry_evaluator lang cfg) (initial_checks (check_list cfg) [])
          (any_known-initial_checks (check_list cfg) [] no_checks));
    decided = λ known. cc;
  }

  pub add_vip-IsEvaluated :
      {N : Type 0} (env : Env) (m : Manager N P) (cfg : VipConfig)
      → AllVips lang (IsEvaluated lang) m
      → AllVips lang (IsEvaluated lang) (add_vip lang env m cfg)
  unfolding add_vip
  add_vip-IsEvaluated env m cfg all = elim (Bool-cases (member cfg.name m.vips)) [
    | inl known ↦ rw known all
    | inr new ↦ rw new (λ k x h. elim (Bool-cases (cfg.name == k)) [
      | inl hit ↦
          let e : new_vip_entry lang env cfg ≡ x =
            ground (arith, lookup-insert cfg.name k (new_vip_entry lang env cfg) m.vips) in
          subst (IsEvaluated lang) e (new_vip_entry-IsEvaluated env cfg)
      | inr miss ↦
          all k x (ground (arith, lookup-insert cfg.name k (new_vip_entry lang env cfg) m.vips))
    ])
  ]

  module _ {N R : Type 0} (bgp : Notifier N R) where
    forget_vip-IsEvaluated :
        (m : Manager N P) (name : String) (w : World N)
        → AllVips lang (IsEvaluated lang) m
        → AllVips lang (IsEvaluated lang) (forget_vip lang bgp m name w)
    unfolding forget_vip
    forget_vip-IsEvaluated m name w all k x h =
        all k x (ground (arith, lookup-delete name k m.vips))

    remove_entry-IsEvaluated :
        (m : Manager N P) (name : String) (e : VipEntry P)
        → AllVips lang (IsEvaluated lang) m
        → AllVips lang (IsEvaluated lang) (remove_entry lang bgp m name e).0
    unfolding remove_entry
    remove_entry-IsEvaluated m name e all = elim (Bool-cases (same_state e.state.state withdrawn)) [
      | inl idle ↦ rw idle (forget_vip-IsEvaluated m name m.world all)
      | inr routed ↦ rw routed (elim (Option-cases m.world.notifier) [
        | inl nil ↦ rw nil (forget_vip-IsEvaluated m name m.world all)
        | inr (n, set) ↦ rw set (elim (Bool-cases (bgp.withdraw_vip n e.cfg.prefix).1) [
          | inl ok ↦ rw ok (
              forget_vip-IsEvaluated m name
                (record m.world { notifier = some (bgp.withdraw_vip n e.cfg.prefix).0 }) all)
          | inr failed ↦ rw failed all
        ])
      ])
    ]

    pub remove_vip-IsEvaluated :
        (m : Manager N P) (name : String)
        → AllVips lang (IsEvaluated lang) m
        → AllVips lang (IsEvaluated lang) (remove_vip lang bgp m name).0
    unfolding remove_vip
    remove_vip-IsEvaluated m name all = elim (Option-cases (lookup name m.vips)) [
      | inl missing ↦ rw (missing, remove_vip) all
      | inr (e, found) ↦ rw (found, remove_vip) (remove_entry-IsEvaluated m name e all)
    ]
