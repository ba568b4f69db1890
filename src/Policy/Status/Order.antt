-- ===== src/Policy/Status/Order.antt =====
-- The names in order are those of the VIPs, so that GetVIPStatuses finds an entry for each.
use pathosd.Common.{
  refl, ap, String, ◌≡◌, true, false, not, some, List, [], ◌∷◌, ◌++◌, ◌&&◌, ◌||◌, ◌==◌, arith,
  eq_iff, contains, contains-append, delete_first, is_distinct, is_distinct-snoc,
}
use pathosd.Common.Dict.{Dict, lookup, insert, delete, member, lookup-insert, lookup-delete}
use pathosd.Config.ChecksPolicy.{ExprLang}
use pathosd.Policy.Notifier.{Notifier}
use pathosd.Policy.State.{VipStatus, VipEntry, World, Manager}
use pathosd.Policy.Handlers.{store}
use pathosd.Policy.Commit.{forget_vip}

member-insert :
    {V : Type 0} (k j : String) (v : V) (d : Dict V)
    → member j (insert k v d) ≡ (k == j || member j d)
unfolding member
member-insert k j v d = ground (arith, lookup-insert k j v d)

member-delete :
    {V : Type 0} (k j : String) (d : Dict V) → member j (delete k d) ≡ (not (k == j) && member j d)
unfolding member
member-delete k j d = ground (arith, lookup-delete k j d)

pub member-found :
    {V : Type 0} (k : String) (v : V) (d : Dict V) → lookup k d ≡ some v → member k d ≡ true
unfolding member
member-found k v d h = ground arith

contains-delete_first :
    (s t : String) (list : List String)
    → is_distinct list ≡ true
    → contains t (delete_first s list) ≡ (not (s == t) && contains t list)
unfolding contains delete_first
contains-delete_first s t [] d = ground arith
contains-delete_first s t (x ∷ xs) d =
    ground (arith, contains-delete_first s t xs, eq_iff s t, eq_iff x s, eq_iff x t)

delete_first-is_distinct :
    (s : String) (list : List String)
    → is_distinct list ≡ true
    → is_distinct (delete_first s list) ≡ true
unfolding delete_first
delete_first-is_distinct s [] d = d
delete_first-is_distinct s (x ∷ xs) d =
    ground (arith, delete_first-is_distinct s xs, contains-delete_first s x xs)

pub distinct-head :
    (name : String) (order names : List String)
    → is_distinct (order ++ name ∷ names) ≡ true
    → contains name order ≡ false
unfolding contains
distinct-head name [] names d = refl
distinct-head name (x ∷ order) names d = ground (
  arith,
  distinct-head name order names,
  contains-append x order (name ∷ names),
  eq_iff x name,
  eq_iff name x,
)

pub snoc-append :
    (order names : List String) (name : String)
    → (order ++ name ∷ []) ++ names ≡ order ++ name ∷ names
snoc-append [] names name = refl
snoc-append (x ∷ order) names name = ap (λ l. x ∷ l) (snoc-append order names name)

pub no_names : (V : Type 0) (k : String) → member {V = V} k [] ≡ contains k []
unfolding member lookup contains
no_names V k = refl

-- The names in order are exactly those of the VIPs, each of them once.
pub record IsOrdered {N P : Type 0} (m : Manager N P) : Type 0 where
  pub distinct : is_distinct m.order ≡ true
  pub names : (k : String) → member k m.vips ≡ contains k m.order

module _ {N P : Type 0} where
  pub store-IsOrdered :
      (m : Manager N P) (name : String) (old entry : VipEntry P) (w : World N) (vs : VipStatus)
      → IsOrdered m
      → lookup name m.vips ≡ some old
      → IsOrdered (store m name entry (w, vs))
  store-IsOrdered m name old entry w vs o found = record {
    distinct = o.distinct;
    names = λ k. ground (
      arith,
      member-insert name k (record entry { state = vs }) m.vips,
      o.names k,
      member-found name old m.vips,
      eq_iff name k,
    );
  }

  pub register-IsOrdered :
      (m : Manager N P) (name : String) (entry : VipEntry P) (w : World N)
      → IsOrdered m
      → contains name m.order ≡ false
      → IsOrdered
          (record { vips = insert name entry m.vips; order = m.order ++ name ∷ []; world = w })
  unfolding contains
  register-IsOrdered m name entry w o new = record {
    distinct = is_distinct-snoc name m.order o.distinct new;
    names = λ k. ground (
      arith,
      member-insert name k entry m.vips,
      o.names k,
      contains-append k m.order (name ∷ []),
    );
  }

  pub forget_vip-IsOrdered :
      {R : Type 0} (lang : ExprLang P) (bgp : Notifier N R) (m : Manager N P) (name : String)
      (w : World N)
      → IsOrdered m
      → IsOrdered (forget_vip lang bgp m name w)
  unfolding forget_vip
  forget_vip-IsOrdered lang bgp m name w o = record {
    distinct = delete_first-is_distinct name m.order o.distinct;
    names = λ k.
        ground
          (arith, member-delete name k m.vips, o.names k, contains-delete_first name k m.order);
  }
