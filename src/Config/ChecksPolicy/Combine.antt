-- ===== src/Config/ChecksPolicy/Combine.antt =====
-- What "all" and "any" decide.
use pathosd.Common.{
  String, ◌≡◌, refl, ◌≢◌, Bool, true, false, Option, some, none, not, List, [], ◌∷◌, ◌&&◌, ◌||◌,
  arith, eq_iff, contains, if◌then◌else◌, is_empty, get_or,
}
use pathosd.Common.Dict.{Dict, lookup, lookup-insert}
use pathosd.Config.ChecksPolicy.{
  ExprLang, is_healthy, fold_names, compile_checks_policy, eval, env_of,
}

-- every name is healthy
abbrev pub every : Dict Bool → List String → Bool
every healthy [] = true
every healthy (n ∷ ns) = is_healthy healthy n && every healthy ns

-- some name is healthy
abbrev pub some_of : Dict Bool → List String → Bool
some_of healthy [] = false
some_of healthy (n ∷ ns) = is_healthy healthy n || some_of healthy ns

fold_names_lem :
    (healthy : Dict Bool) (ns : List String) (all any_ok : Bool)
    → fold_names healthy ns all any_ok ≡ (all && every healthy ns, any_ok || some_of healthy ns)
unfolding fold_names
fold_names_lem healthy [] all any_ok = ground arith
fold_names_lem healthy (n ∷ ns) all any_ok = ground (
  arith,
  fold_names_lem healthy ns (all && is_healthy healthy n) (any_ok || is_healthy healthy n),
)

lookup-env_of :
    (healthy : Dict Bool) (names : List String) (n : String)
    → lookup n (env_of healthy names)
      ≡ (if contains n names then some (is_healthy healthy n) else none)
unfolding contains lookup
lookup-env_of healthy [] n = refl
lookup-env_of healthy (m ∷ ms) n = ground (
  arith,
  lookup-insert m n (is_healthy healthy m) (env_of healthy ms),
  lookup-env_of healthy ms n,
  eq_iff m n,
)

module _ {Program : Type 0} (lang : ExprLang Program) where
  -- Compiles the policy, and evaluates it on the reports.
  abbrev pub outcome : String → List String → Dict Bool → Option Bool
  outcome policy names healthy = elim (compile_checks_policy lang policy names) [
    | none ↦ none
    | some e ↦ some (eval lang e healthy)
  ]

  -- "all", and a policy that is left out, compile, and are true exactly when there is a check and every
  -- check is reported healthy. "any" compiles, and is true exactly when some check is reported healthy.
  -- A check with no report counts as unhealthy.
  pub eval_all_any :
      (names : List String) (healthy : Dict Bool)
      → (outcome "all" names healthy ≡ some (not (is_empty names) && every healthy names))
        × (outcome "" names healthy ≡ some (not (is_empty names) && every healthy names))
        × (outcome "any" names healthy ≡ some (some_of healthy names))
  unfolding compile_checks_policy eval
  eval_all_any names healthy = (
    ground (arith, fold_names_lem healthy names true false),
    ground (arith, fold_names_lem healthy names true false),
    ground (arith, fold_names_lem healthy names true false),
  )

  -- Any other policy that compiles is run on an environment that binds exactly the names of the checks,
  -- each to its report or else to false; an error of the run counts as unhealthy.
  pub eval_expression :
      (policy : String) (names : List String) (healthy : Dict Bool) (prog : Program)
      → policy ≢ ""
      → policy ≢ "all"
      → policy ≢ "any"
      → lang.compile policy names ≡ some prog
      → (outcome policy names healthy ≡ some (get_or (lang.run prog (env_of healthy names)) false))
        × ((n : String)
            → lookup n (env_of healthy names)
              ≡ (if contains n names then some (is_healthy healthy n) else none))
  unfolding compile_checks_policy eval
  eval_expression policy names healthy prog a b c h = (
    ground (arith, eq_iff policy "", eq_iff policy "all", eq_iff policy "any"),
    lookup-env_of healthy names,
  )
