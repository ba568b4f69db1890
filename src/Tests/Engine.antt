-- ===== src/Tests/Engine.antt =====
-- The policy engine at concrete inputs.
use pathosd.Common.{is_distinct, ◌≡◌, ◌↔◌, true, false, [], ◌∷◌, String, ◌||◌, contains}
use pathosd.Model.State.{announced}
use pathosd.Policy.Engine.{evaluate, merge_communities}
use pathosd.Policy.Engine.Decision.{evaluate-announced}
use pathosd.Policy.Engine.Communities.{merge_communities_union}
use pathosd.Tests.Fixtures.{withdraw_policy}

evaluate-announced_example :
    (evaluate true false withdraw_policy ≡ announced) ↔ ((true ≡ true) × (false ≡ false))
evaluate-announced_example = evaluate-announced true false withdraw_policy

merge_communities_union_example :
    ((s : String)
      → contains s (merge_communities ("65000:1" ∷ []) ("65000:2" ∷ "65000:1" ∷ []))
        ≡ (contains s ("65000:1" ∷ []) || contains s ("65000:2" ∷ "65000:1" ∷ [])))
    × (is_distinct (merge_communities ("65000:1" ∷ []) ("65000:2" ∷ "65000:1" ∷ [])) ≡ true)
merge_communities_union_example =
    merge_communities_union ("65000:1" ∷ []) ("65000:2" ∷ "65000:1" ∷ [])
