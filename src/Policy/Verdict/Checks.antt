-- ===== src/Policy/Verdict/Checks.antt =====
-- The combined health reads the health of the checks, and nothing else of them.
use pathosd.Common.{String, ◌≡◌, true, false, some, [], ◌∷◌, arith, eq_iff, eq_refl}
use pathosd.Common.Dict.{Dict, lookup, insert}
use pathosd.Config.ChecksPolicy.{ExprLang, ChecksEvaluator}
use pathosd.Model.State.{unknown}
use pathosd.Policy.State.{CheckState, same_health}
use pathosd.Policy.Manager.{any_known, healthy_map, combine_health, resolve_check}

healthy_map-insert :
    (k : String) (c d : CheckState) (cs : Dict CheckState)
    → lookup k cs ≡ some c
    → d.health ≡ c.health
    → healthy_map (insert k d cs) ≡ healthy_map cs
unfolding healthy_map insert lookup
healthy_map-insert k c d [] h e = cc
healthy_map-insert k c d ((j, x) ∷ cs) h e = ground (arith, healthy_map-insert k c d cs)

any_known-insert :
    (k : String) (c d : CheckState) (cs : Dict CheckState)
    → lookup k cs ≡ some c
    → d.health ≡ c.health
    → any_known (insert k d cs) ≡ any_known cs
unfolding any_known insert lookup
any_known-insert k c d [] h e = cc
any_known-insert k c d ((j, x) ∷ cs) h e = ground (arith, any_known-insert k c d cs)

-- Replacing a check by one of the same health keeps the combined health.
pub combine_health-insert :
    {P : Type 0} (lang : ExprLang P) (ev : ChecksEvaluator P) (k : String) (c d : CheckState)
    (cs : Dict CheckState)
    → lookup k cs ≡ some c
    → d.health ≡ c.health
    → combine_health lang ev (insert k d cs) ≡ combine_health lang ev cs
unfolding combine_health
combine_health-insert lang ev k c d cs h e =
    rw (healthy_map-insert k c d cs h e, any_known-insert k c d cs h e)

-- The key that an event of a check resolves to is a key of the checks.
pub resolve_check-lookup :
    (name key : String) (c : CheckState) (cs : Dict CheckState)
    → resolve_check name cs ≡ some (key, c)
    → lookup key cs ≡ some c
unfolding resolve_check lookup
resolve_check-lookup name key c [] h = cc
resolve_check-lookup name key c ((j, x) ∷ []) h =
    ground (arith, eq_refl key, eq_refl j, eq_iff j name, eq_iff j key)
resolve_check-lookup name key c ((j, x) ∷ y ∷ cs) h = ground (arith, eq_iff j key, eq_iff name key)

any_known-insert_known :
    (k : String) (c : CheckState) (cs : Dict CheckState)
    → same_health c.health unknown ≡ false
    → any_known (insert k c cs) ≡ true
unfolding any_known insert
any_known-insert_known k c [] h = ground arith
any_known-insert_known k c ((j, x) ∷ cs) h = ground (arith, any_known-insert_known k c cs)

-- Once a check has reported, the combined health is known.
pub combine_health-known :
    {P : Type 0} (lang : ExprLang P) (ev : ChecksEvaluator P) (k : String) (c : CheckState)
    (cs : Dict CheckState)
    → same_health c.health unknown ≡ false
    → same_health (combine_health lang ev (insert k c cs)) unknown ≡ false
unfolding combine_health
combine_health-known lang ev k c cs h = ground (arith, any_known-insert_known k c cs)
