-- ===== src/Policy/Engine/Communities.antt =====
-- `merge_communities` is the union of its lists, without repetitions.
use pathosd.Common.{
  String, ◌≡◌, refl, ap, ◌∙◌, true, List, [], ◌∷◌, ◌++◌, ◌||◌, arith, eq_iff, contains,
  contains-append, is_distinct, is_distinct-snoc, if◌then◌else◌,
}
use pathosd.Policy.Engine.{merge_into, merge_communities}

contains-merge_into :
    (s : String) (out cs : List String)
    → contains s (merge_into out cs) ≡ (contains s out || contains s cs)
unfolding merge_into contains
contains-merge_into s out [] = ground arith
contains-merge_into s out (c ∷ cs) = ground (
  arith,
  contains-merge_into s (if contains c out then out else out ++ c ∷ []) cs,
  contains-append s out (c ∷ []),
  eq_iff c s,
)

merge_into-is_distinct :
    (out cs : List String) → is_distinct out ≡ true → is_distinct (merge_into out cs) ≡ true
unfolding merge_into
merge_into-is_distinct out [] d = d
merge_into-is_distinct out (c ∷ cs) d =
    merge_into-is_distinct (if contains c out then out else out ++ c ∷ []) cs
      (ground (arith, is_distinct-snoc c out))

-- mergeCommunities gives exactly the communities of either list, each of them once.
pub merge_communities_union :
    (base extra : List String)
    → ((s : String)
        → contains s (merge_communities base extra) ≡ (contains s base || contains s extra))
      × (is_distinct (merge_communities base extra) ≡ true)
unfolding merge_communities contains
merge_communities_union [] [] = (λ s. refl, refl)
merge_communities_union [] (e ∷ extra) =
    (λ s. contains-merge_into s [] (e ∷ extra), merge_into-is_distinct [] (e ∷ extra) refl)
merge_communities_union (b ∷ base) extra = (
  λ s.
      contains-merge_into s (merge_into [] (b ∷ base)) extra
      ∙ ap (λ x. x || contains s extra) (contains-merge_into s [] (b ∷ base)),
  merge_into-is_distinct (merge_into [] (b ∷ base)) extra
      (merge_into-is_distinct [] (b ∷ base) refl),
)
