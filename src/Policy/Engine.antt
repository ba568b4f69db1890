-- ===== src/Policy/Engine.antt =====
-- internal/policy/engine.go: the state a VIP's health calls for, and the attributes of its route.
pub mod Decision
pub mod Communities
pub mod Accepted
use pathosd.Common.{
  ℕ, String, Bool, true, false, Option, none, some, List, [], ◌∷◌, ◌++◌, ◌&&◌, ◌==◌, contains,
  is_empty, if◌then◌else◌, get_or,
}
use pathosd.Common.Int.{ℤ, pos, ◌+ℤ◌}
use pathosd.Config.Vip.{PolicyConfig, AnnounceConfig, LowerPriorityConfig}
use pathosd.Model.State.{VipState, withdrawn, announced, pessimized, RouteAttrs, no_attrs}

-- the switch on `FailAction`
fail_state : String → VipState
fail_state action =
    if action == "withdraw"
    then withdrawn
    else if action == "lower_priority"
    then pessimized
    else withdrawn

-- func Evaluate
unfoldable pub evaluate : Bool → Bool → PolicyConfig → VipState
unfolding fail_state
evaluate healthy lower_priority_file_present p =
    if healthy
    then (if lower_priority_file_present then pessimized else announced)
    else fail_state p.fail_action

-- defaultLowerPriorityPrepend
abbrev pub default_lower_priority_prepend : ℤ
default_lower_priority_prepend = pos 6

announce_attrs : Option AnnounceConfig → RouteAttrs
announce_attrs none = no_attrs
announce_attrs (some a) = record {
  as_path_prepend = get_or a.as_path_prepend (pos 0);
  communities = a.communities;
}

-- func BaseRouteAttrs
unfoldable pub base_route_attrs : PolicyConfig → RouteAttrs
unfolding announce_attrs
base_route_attrs p = announce_attrs p.announce

-- One round of the loop. The keys of `seen` are the entries of `out`.
merge_into : List String → List String → List String
merge_into out [] = out
merge_into out (c ∷ cs) = merge_into (if contains c out then out else out ++ c ∷ []) cs

-- func mergeCommunities
unfoldable pub merge_communities : List String → List String → List String
unfolding merge_into
merge_communities base extra =
    if is_empty base && is_empty extra then [] else merge_into (merge_into [] base) extra

unfoldable pub lower_prepend : Option LowerPriorityConfig → ℤ
lower_prepend none = default_lower_priority_prepend
lower_prepend (some lp) = get_or lp.as_path_prepend default_lower_priority_prepend

lower_communities : Option LowerPriorityConfig → List String
lower_communities none = []
lower_communities (some lp) = lp.communities

-- func RouteAttrsFor
unfoldable pub route_attrs_for : PolicyConfig → VipState → RouteAttrs
unfolding lower_prepend lower_communities
route_attrs_for p announced = base_route_attrs p
route_attrs_for p pessimized =
    let attrs = base_route_attrs p in
    record {
      as_path_prepend = attrs.as_path_prepend +ℤ lower_prepend p.lower_priority;
      communities = merge_communities attrs.communities (lower_communities p.lower_priority);
    }
route_attrs_for p withdrawn = no_attrs

-- func priorityFor (internal/policy/manager.go)
unfoldable pub priority_for : PolicyConfig → VipState → ℤ
unfolding route_attrs_for base_route_attrs
priority_for p pessimized = (route_attrs_for p pessimized).as_path_prepend
priority_for p announced = (base_route_attrs p).as_path_prepend
priority_for p withdrawn = (base_route_attrs p).as_path_prepend
