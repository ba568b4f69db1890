-- ===== src/Policy/Sync/Attrs.antt =====
-- The comparison of route attributes in CommitVIP.
use pathosd.Common.{String, ◌≡◌, refl, true, List, [], ◌∷◌, arith, eq_iff}
use pathosd.Model.State.{RouteAttrs}
use pathosd.Policy.Commit.{same_texts, same_attrs}

same_texts-eq : (xs ys : List String) → same_texts xs ys ≡ true → xs ≡ ys
unfolding same_texts
same_texts-eq [] [] h = refl
same_texts-eq (x ∷ xs) (y ∷ ys) h = ground (arith, same_texts-eq xs ys, eq_iff x y)
same_texts-eq [] (y ∷ ys) h = cc
same_texts-eq (x ∷ xs) [] h = cc

-- Attributes that compare equal are equal.
pub same_attrs-eq : (a b : RouteAttrs) → same_attrs a b ≡ true → a ≡ b
unfolding same_attrs
same_attrs-eq a b h = ground (arith, same_texts-eq a.communities b.communities)
