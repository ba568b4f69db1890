-- ===== src/Config/Diff/Empty.antt =====
-- A difference that is empty, and what it says of the two lists of VIPs.
use pathosd.Common.{
  ◌≡◌, true, some, List, [], ◌∷◌, ◌++◌, arith, All, is_empty, Bool-cases, Option-cases, inl, inr,
}
use pathosd.Common.Dict.{Dict, lookup, member}
use pathosd.Config.Vip.{VipConfig}
use pathosd.Config.Equality.{deep_equal, deep_equal-eq, VipConfig-Discrete}
use pathosd.Config.Diff.{changes_is_empty, diff_candidates, unseen_vips, vips_by_name, diff_vips}

is_empty-append : {A : Type 0} → (xs ys : List A) → is_empty (xs ++ ys) ≡ true → is_empty ys ≡ true
is_empty-append [] ys h = h
is_empty-append (x ∷ xs) ys h = cc

-- A candidate VIP that the diff leaves out of Added and Changed is the running one of its name.
diff_candidates-none :
    (old : Dict VipConfig) (list : List VipConfig)
    → is_empty (diff_candidates old list).added ≡ true
    → is_empty (diff_candidates old list).changed ≡ true
    → All (λ nv. lookup nv.name old ≡ some nv) list
unfolding diff_candidates
diff_candidates-none old [] a c = tt
diff_candidates-none old (nv ∷ list) a c = elim (Option-cases (lookup nv.name old)) [
  | inl missing ↦ ground arith
  | inr (ov, found) ↦ elim (Bool-cases (deep_equal VipConfig-Discrete ov nv)) [
    | inl same ↦ (
      ground (arith, deep_equal-eq VipConfig-Discrete ov nv),
      diff_candidates-none old list (ground arith) (ground arith),
    )
    | inr other ↦ ground arith
  ]
]

unseen_vips-none :
    (seen : Dict VipConfig) (list : List VipConfig)
    → is_empty (unseen_vips seen list) ≡ true
    → All (λ v. member v.name seen ≡ true) list
unfolding unseen_vips
unseen_vips-none seen [] h = tt
unseen_vips-none seen (v ∷ list) h = elim (Bool-cases (member v.name seen)) [
  | inl hit ↦ (hit, unseen_vips-none seen list (ground arith))
  | inr miss ↦ ground arith
]

-- A difference that IsEmpty reports as empty leaves a reload nothing to do: each candidate VIP is the
-- running one of its name, and each running VIP has a candidate of its name.
pub diff_vips_nothing_to_do :
    (running candidate : List VipConfig)
    → changes_is_empty (diff_vips running candidate) ≡ true
    → All (λ nv. lookup nv.name (vips_by_name running []) ≡ some nv) candidate
      × All (λ ov. member ov.name (vips_by_name candidate []) ≡ true) running
unfolding changes_is_empty diff_vips
diff_vips_nothing_to_do running candidate h =
    let out = diff_candidates (vips_by_name running []) candidate in
    (
      diff_candidates-none (vips_by_name running []) candidate (ground arith) (ground arith),
      unseen_vips-none (vips_by_name candidate []) running (
          is_empty-append out.removed (unseen_vips (vips_by_name candidate []) running)
            (ground arith)),
    )
