-- ===== src/Policy/Status/Reach.antt =====
-- The managers that a run of the daemon reaches, and what GetVIPStatuses reports of them.
use pathosd.Common.{
  String, ◌≡◌, refl, sym, ap, ◌∙◌, true, false, Option, none, some, List, [], ◌∷◌, ◌++◌, map, arith,
  eq_refl, contains, is_distinct, Bool-cases, Option-cases, inl, inr,
}
use pathosd.Common.Dict.{Dict, lookup, member}
use pathosd.Config.Vip.{VipConfig}
use pathosd.Config.ChecksPolicy.{ExprLang}
use pathosd.Checks.Result.{Result, HealthTransition}
use pathosd.Model.State.{withdrawn}
use pathosd.Model.Status.{VipStatusReport}
use pathosd.Policy.Notifier.{Notifier}
use pathosd.Policy.State.{Env, VipEntry, Manager, same_state}
use pathosd.Policy.Manager.{new_vip_entry, emit_registered}
use pathosd.Policy.Handlers.{register_all, new_manager, on_health_transition, on_check_result}
use pathosd.Policy.Commit.{CheckSeed, add_vip, remove_vip, remove_entry, commit_vip}
use pathosd.Policy.Status.{statuses_of, get_vip_statuses, vip_status}
use pathosd.Policy.Status.Order.{
  IsOrdered, distinct-head, snoc-append, no_names, store-IsOrdered, register-IsOrdered,
  forget_vip-IsOrdered,
}
use pathosd.Policy.Status.Commits.{commit_vip-IsOrdered}

contains-head : (name : String) (names : List String) → contains name (name ∷ names) ≡ true
unfolding contains
contains-head name names = rw (eq_refl name) refl

contains-tail :
    (k name : String) (names : List String)
    → contains k names ≡ true
    → contains k (name ∷ names) ≡ true
unfolding contains
contains-tail k name names h = ground arith

member-none : {V : Type 0} (k : String) (d : Dict V) → lookup k d ≡ none → member k d ≡ false
unfolding member
member-none k d h = ground arith

module _ {N R P : Type 0} (lang : ExprLang P) (bgp : Notifier N R) where
  -- A manager that NewManager makes of VIPs with different names, or that a method leaves behind.
  pub data IsReachable : Manager N P → Type 0 where
    started :
        (env : Env) (cfgs : List VipConfig) (n : Option N)
        → is_distinct (map (λ v. v.name) cfgs) ≡ true
        → IsReachable (new_manager lang env cfgs n)
    vip_added :
        (m : Manager N P) (env : Env) (cfg : VipConfig)
        → IsReachable m
        → IsReachable (add_vip lang env m cfg)
    vip_removed :
        (m : Manager N P) (name : String)
        → IsReachable m
        → IsReachable (remove_vip lang bgp m name).0
    vip_committed :
        (m : Manager N P) (env : Env) (cfg : VipConfig) (seeds : Dict CheckSeed)
        → IsReachable m
        → IsReachable (commit_vip lang bgp env m cfg seeds).0
    health_reported :
        (m : Manager N P) (env : Env) (t : HealthTransition)
        → IsReachable m
        → IsReachable (on_health_transition lang bgp env m t)
    result_reported :
        (m : Manager N P) (env : Env) (vip check : String) (r : Result)
        → IsReachable m
        → IsReachable (on_check_result lang bgp env m vip check r)

  register_all-IsOrdered :
      (env : Env) (cfgs : List VipConfig) (m : Manager N P)
      → IsOrdered m
      → is_distinct (m.order ++ map (λ v. v.name) cfgs) ≡ true
      → IsOrdered (register_all lang env cfgs m)
  unfolding register_all
  register_all-IsOrdered env [] m o d = o
  register_all-IsOrdered env (v ∷ vs) m o d =
      register_all-IsOrdered env vs _
        (register-IsOrdered m v.name (new_vip_entry lang env v) (emit_registered v m.world) o
          (distinct-head v.name m.order (map (λ w. w.name) vs) d))
        (ap is_distinct (snoc-append m.order (map (λ w. w.name) vs) v.name) ∙ d)

  add_vip-IsOrdered :
      (m : Manager N P) (env : Env) (cfg : VipConfig)
      → IsOrdered m
      → IsOrdered (add_vip lang env m cfg)
  unfolding add_vip
  add_vip-IsOrdered m env cfg o = elim (Bool-cases (member cfg.name m.vips)) [
    | inl known ↦ rw known o
    | inr new ↦ rw new (
        register-IsOrdered m cfg.name (new_vip_entry lang env cfg) (emit_registered cfg m.world) o
          (sym (o.names cfg.name) ∙ new))
  ]

  remove_entry-IsOrdered :
      (m : Manager N P) (name : String) (e : VipEntry P)
      → IsOrdered m
      → IsOrdered (remove_entry lang bgp m name e).0
  unfolding remove_entry
  remove_entry-IsOrdered m name e o = elim (Bool-cases (same_state e.state.state withdrawn)) [
    | inl idle ↦ rw idle (forget_vip-IsOrdered lang bgp m name m.world o)
    | inr routed ↦ rw routed (elim (Option-cases m.world.notifier) [
      | inl nil ↦ rw nil (forget_vip-IsOrdered lang bgp m name m.world o)
      | inr (n, set) ↦ rw set (elim (Bool-cases (bgp.withdraw_vip n e.cfg.prefix).1) [
        | inl ok ↦ rw ok (forget_vip-IsOrdered lang bgp m name _ o)
        | inr failed ↦ rw failed (record { distinct = o.distinct; names = o.names })
      ])
    ])
  ]

  remove_vip-IsOrdered :
      (m : Manager N P) (name : String) → IsOrdered m → IsOrdered (remove_vip lang bgp m name).0
  unfolding remove_vip
  remove_vip-IsOrdered m name o = elim (Option-cases (lookup name m.vips)) [
    | inl missing ↦ rw (missing, remove_vip) o
    | inr (e, found) ↦ rw (found, remove_vip) (remove_entry-IsOrdered m name e o)
  ]

  on_health_transition-IsOrdered :
      (m : Manager N P) (env : Env) (t : HealthTransition)
      → IsOrdered m
      → IsOrdered (on_health_transition lang bgp env m t)
  unfolding on_health_transition
  on_health_transition-IsOrdered m env t o = elim (Option-cases (lookup t.vip_name m.vips)) [
    | inl missing ↦ rw (missing, on_health_transition) o
    | inr (e, found) ↦
        rw (found, on_health_transition) (store-IsOrdered m t.vip_name e e _ _ o found)
  ]

  on_check_result-IsOrdered :
      (m : Manager N P) (env : Env) (vip check : String) (r : Result)
      → IsOrdered m
      → IsOrdered (on_check_result lang bgp env m vip check r)
  unfolding on_check_result
  on_check_result-IsOrdered m env vip check r o = elim (Option-cases (lookup vip m.vips)) [
    | inl missing ↦ rw (missing, on_check_result) o
    | inr (e, found) ↦ rw (found, on_check_result) (store-IsOrdered m vip e e _ _ o found)
  ]

  pub reachable-IsOrdered : {m : Manager N P} → IsReachable m → IsOrdered m
  unfolding new_manager
  reachable-IsOrdered (started env cfgs n d) =
      register_all-IsOrdered env cfgs _ (record { distinct = refl; names = no_names _ }) d
  reachable-IsOrdered (vip_added m env cfg r) = add_vip-IsOrdered m env cfg (reachable-IsOrdered r)
  reachable-IsOrdered (vip_removed m name r) = remove_vip-IsOrdered m name (reachable-IsOrdered r)
  reachable-IsOrdered (vip_committed m env cfg seeds r) =
      commit_vip-IsOrdered lang bgp m env cfg seeds (reachable-IsOrdered r)
  reachable-IsOrdered (health_reported m env t r) =
      on_health_transition-IsOrdered m env t (reachable-IsOrdered r)
  reachable-IsOrdered (result_reported m env vip check res r) =
      on_check_result-IsOrdered m env vip check res (reachable-IsOrdered r)

  statuses_of_total :
      (vips : Dict (VipEntry P)) (names : List String)
      → ((k : String) → contains k names ≡ true → member k vips ≡ true)
      → (l : List VipStatusReport) × (statuses_of lang vips names ≡ some l)
        × (map (λ s. s.name) l ≡ names)
  unfolding statuses_of contains vip_status
  statuses_of_total vips [] all = ([], refl, refl)
  statuses_of_total vips (name ∷ names) all = elim (Option-cases (lookup name vips)) [
    | inl missing ↦
        let absent : member name vips ≡ false = member-none name vips missing in
        let present : member name vips ≡ true = all name (contains-head name names) in cc
    | inr (e, found) ↦
        let (l, reported, named) =
          statuses_of_total vips names (λ k h. all k (contains-tail k name names h)) in
        (
          vip_status lang name e ∷ l,
          rw (found, statuses_of) (rw reported refl),
          ap (λ ns. name ∷ ns) named,
        )
  ]

  -- For a manager that NewManager makes of VIPs with different names, or that any sequence of AddVIP,
  -- RemoveVIP, CommitVIP, OnHealthTransition and OnCheckResult makes of such a manager, GetVIPStatuses
  -- finds an entry for each name, and reports the VIPs that are registered, each of them once, in order.
  pub get_vip_statuses_total :
      {m : Manager N P}
      → IsReachable m
      → (l : List VipStatusReport) × (get_vip_statuses lang m ≡ some l)
        × (map (λ s. s.name) l ≡ m.order)
        × (is_distinct m.order ≡ true)
        × ((k : String) → member k m.vips ≡ contains k m.order)
  unfolding get_vip_statuses
  get_vip_statuses_total {m} r =
      let o = reachable-IsOrdered r in
      let (l, found, names) = statuses_of_total m.vips m.order (λ k h. o.names k ∙ h) in
      (l, found, names, o.distinct, o.names)
