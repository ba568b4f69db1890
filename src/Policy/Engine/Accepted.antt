-- ===== src/Policy/Engine/Accepted.antt =====
-- The attributes of a route, for a policy that Validate accepts.
use pathosd.Common.{
  ℕ, suc, String, ◌≡◌, Bool, true, false, Option, none, some, List, [], ◌∷◌, ◌++◌, ◌&&◌, All,
  contains, if◌then◌else◌, arith, is_empty,
}
use pathosd.Common.Int.{ℤ, pos, ◌≤ℤ◌, +ℤ_parts}
use pathosd.Config.Vip.{PolicyConfig, AnnounceConfig, LowerPriorityConfig}
use pathosd.Config.Validate.Report.{concat-none, report-none, append-none}
use pathosd.Config.Validate.Policy.{
  is_bad_community, validate_communities, is_out_of_range, validate_lower_priority,
  validate_announce, validate_policy,
}
use pathosd.Model.State.{VipState, withdrawn, announced, pessimized}
use pathosd.Policy.Engine.{
  merge_into, merge_communities, announce_attrs, base_route_attrs, lower_prepend, lower_communities,
  route_attrs_for,
}

abbrev pub AreGood : List String → Type 0
AreGood = All (λ c. is_bad_community c ≡ false)

validate_communities-AreGood :
    (path : String) (i : ℕ) (cs : List String) → validate_communities path i cs ≡ [] → AreGood cs
unfolding validate_communities
validate_communities-AreGood path i [] h = tt
validate_communities-AreGood path i (c ∷ cs) h =
    let (here, later) = append-none _ _ h in
    (report-none _ _ here, validate_communities-AreGood path (suc i) cs later)

AreGood-snoc :
    (cs : List String) (c : String)
    → AreGood cs
    → is_bad_community c ≡ false
    → AreGood (cs ++ c ∷ [])
AreGood-snoc [] c g h = (h, tt)
AreGood-snoc (d ∷ cs) c (e, g) h = (e, AreGood-snoc cs c g h)

AreGood-either :
    (b : Bool) (xs ys : List String) → AreGood xs → AreGood ys → AreGood (if b then xs else ys)
AreGood-either true xs ys p q = p
AreGood-either false xs ys p q = q

merge_into-AreGood : (out cs : List String) → AreGood out → AreGood cs → AreGood (merge_into out cs)
unfolding merge_into
merge_into-AreGood out [] g h = g
merge_into-AreGood out (c ∷ cs) g (e, h) =
    merge_into-AreGood (if contains c out then out else out ++ c ∷ []) cs
      (AreGood-either (contains c out) out (out ++ c ∷ []) g (AreGood-snoc out c g e)) h

merge_communities-AreGood :
    (base extra : List String)
    → AreGood base
    → AreGood extra
    → AreGood (merge_communities base extra)
unfolding merge_communities
merge_communities-AreGood base extra g h =
    AreGood-either (is_empty base && is_empty extra) [] _ tt
      (merge_into-AreGood (merge_into [] base) extra (merge_into-AreGood [] base tt g) h)

-- a prepend that Validate accepts, and good communities
pub record Within (low high prepend : ℤ) (communities : List String) : Type 0 where
  pub above : low ≤ℤ prepend
  pub below : prepend ≤ℤ high
  pub good : AreGood communities

validate_announce-Within :
    (prefix : String) (a : Option AnnounceConfig)
    → validate_announce prefix a ≡ []
    → Within (pos 0) (pos 16) (announce_attrs a).as_path_prepend (announce_attrs a).communities
unfolding validate_announce is_out_of_range announce_attrs
validate_announce-Within prefix none h = record {
  above = ground arith;
  below = ground arith;
  good = tt;
}
validate_announce-Within prefix (some a) h =
    let (here, later) = append-none _ _ h in
    let inside = report-none _ _ here in
    record {
      above = ground arith;
      below = ground arith;
      good = validate_communities-AreGood _ 0 a.communities later;
    }

validate_lower_priority-Within :
    (prefix : String) (l : Option LowerPriorityConfig)
    → validate_lower_priority prefix l ≡ []
    → Within (pos 1) (pos 16) (lower_prepend l) (lower_communities l)
unfolding validate_lower_priority is_out_of_range lower_prepend lower_communities
validate_lower_priority-Within prefix none h = record {
  above = ground arith;
  below = ground arith;
  good = tt;
}
validate_lower_priority-Within prefix (some l) h =
    let (here, later) = append-none _ _ h in
    let inside = report-none _ _ here in
    record {
      above = ground arith;
      below = ground arith;
      good = validate_communities-AreGood _ 0 l.communities later;
    }

-- The attributes of a route, in any state, for a policy that Validate accepts: at most 32 prepends,
-- and no community that it reports.
pub route_attrs_for-Within :
    (prefix : String) (p : PolicyConfig) (st : VipState)
    → validate_policy prefix p ≡ []
    → Within
        (pos 0)
        (pos 32)
        (route_attrs_for p st).as_path_prepend
        (route_attrs_for p st).communities
unfolding validate_policy route_attrs_for base_route_attrs
route_attrs_for-Within prefix p withdrawn h = record {
  above = ground arith;
  below = ground arith;
  good = tt;
}
route_attrs_for-Within prefix p announced h =
    let base = validate_announce-Within prefix p.announce (concat-none _ h).1.1.0 in
    record { above = base.above; below = omega (arith, base.below); good = base.good }
route_attrs_for-Within prefix p pessimized h =
    let base = validate_announce-Within prefix p.announce (concat-none _ h).1.1.0 in
    let lower = validate_lower_priority-Within prefix p.lower_priority (concat-none _ h).1.0 in
    let parts =
      +ℤ_parts (announce_attrs p.announce).as_path_prepend (lower_prepend p.lower_priority) in
    record {
      above = omega (arith, parts, base.above, lower.above);
      below = omega (arith, parts, base.below, lower.below);
      good = merge_communities-AreGood _ _ base.good lower.good;
    }
