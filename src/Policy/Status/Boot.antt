-- ===== src/Policy/Status/Boot.antt =====
-- NewManager against AddVIP.
use pathosd.Common.{◌≡◌, refl, ap, ◌∙◌, true, false, Option, List, [], ◌∷◌, ◌++◌, map, is_distinct}
use pathosd.Common.Dict.{member}
use pathosd.Config.Vip.{VipConfig}
use pathosd.Config.ChecksPolicy.{ExprLang}
use pathosd.Policy.State.{Env, Manager}
use pathosd.Policy.Manager.{new_vip_entry, emit_registered}
use pathosd.Policy.Handlers.{register_all, new_manager}
use pathosd.Policy.Commit.{add_vip}
use pathosd.Policy.Status.Order.{
  IsOrdered, register-IsOrdered, distinct-head, snoc-append, no_names,
}

module _ {N P : Type 0} (lang : ExprLang P) where
  -- AddVIP for one VIP after another
  abbrev pub add_all : Env → List VipConfig → Manager N P → Manager N P
  add_all env [] m = m
  add_all env (v ∷ vs) m = add_all env vs (add_vip lang env m v)

  register_all_adds :
      (env : Env) (cfgs : List VipConfig) (m : Manager N P)
      → IsOrdered m
      → is_distinct (m.order ++ map (λ v. v.name) cfgs) ≡ true
      → register_all lang env cfgs m ≡ add_all env cfgs m
  unfolding register_all add_vip
  register_all_adds env [] m o d = refl
  register_all_adds env (v ∷ vs) m o d =
      let new = distinct-head v.name m.order (map (λ w. w.name) vs) d in
      let absent : member v.name m.vips ≡ false = o.names v.name ∙ new in
      rw absent (
        register_all_adds env vs _
          (register-IsOrdered m v.name (new_vip_entry lang env v) (emit_registered v m.world) o new)
          (ap is_distinct (snoc-append m.order (map (λ w. w.name) vs) v.name) ∙ d))

  -- NewManager of VIPs with different names is the same as AddVIP, one VIP after another, on a manager
  -- that has none.
  pub new_manager_adds :
      (env : Env) (cfgs : List VipConfig) (n : Option N)
      → is_distinct (map (λ v. v.name) cfgs) ≡ true
      → new_manager lang env cfgs n ≡ add_all env cfgs (new_manager lang env [] n)
  unfolding new_manager register_all
  new_manager_adds env cfgs n d =
      register_all_adds env cfgs _ (record { distinct = refl; names = no_names _ }) d
