-- ===== src/Config/ChecksPolicy.antt =====
-- internal/config/checkspolicy.go: how the checks of a VIP combine into its health.
-- The expression language (expr-lang) is a parameter: it compiles a text over the check names to a
-- program, and runs a program on the health of each check. Either may fail.
pub mod Combine
use pathosd.Common.{
  ℕ, String, Bool, true, false, not, Option, none, some, List, [], ◌∷◌, ◌&&◌, ◌||◌, ◌==◌, is_empty,
  if◌then◌else◌, get_or, leb, nat_eq, codes,
}
use pathosd.Common.Dict.{Dict, lookup, insert}
use pathosd.Config.Vip.{checks_policy_all, checks_policy_any}

pub record ExprLang (Program : Type 0) : Type 0 where
  -- expr.Compile(policy, expr.Env(env), expr.AsBool())
  pub compile : String → List String → Option Program
  -- expr.Run(program, env)
  pub run : Program → Dict Bool → Option Bool

unfoldable pub is_name_start : ℕ → Bool
is_name_start c = (leb b'A' c && leb c b'Z') || (leb b'a' c && leb c b'z') || nat_eq c b'_'

unfoldable pub is_name_rest : ℕ → Bool
unfolding is_name_start
is_name_rest c = is_name_start c || (leb b'0' c && leb c b'9')

unfoldable pub all_name_rest : List ℕ → Bool
unfolding is_name_rest
all_name_rest [] = true
all_name_rest (c ∷ cs) = is_name_rest c && all_name_rest cs

-- checkNameRe.MatchString on the code points of the name
unfoldable pub matches_check_name : List ℕ → Bool
unfolding is_name_start all_name_rest
matches_check_name [] = false
matches_check_name (c ∷ cs) = is_name_start c && all_name_rest cs

-- The two errors of ValidateCheckName.
pub data NameError : Type 0 where
  bad_shape reserved : NameError

-- func ValidateCheckName; `none` is a nil error
unfoldable pub validate_check_name : String → Option NameError
unfolding matches_check_name
validate_check_name name =
    if not (matches_check_name (codes name))
    then some bad_shape
    else if name == checks_policy_all || name == checks_policy_any
    then some reserved
    else none

-- type ChecksEvaluator; `program` is nil for "all" and "any"
pub record ChecksEvaluator (Program : Type 0) : Type 0 where
  pub policy : String
  pub names : List String
  pub program : Option Program

-- `healthy[n]`: a missing key reads as false
abbrev pub is_healthy : Dict Bool → String → Bool
is_healthy healthy n = get_or (lookup n healthy) false

-- the loop over the names, with its two variables
fold_names : Dict Bool → List String → Bool → Bool → Bool × Bool
fold_names healthy [] all any_ok = (all, any_ok)
fold_names healthy (n ∷ ns) all any_ok =
    fold_names healthy ns (all && is_healthy healthy n) (any_ok || is_healthy healthy n)

-- the environment of an expression: every name of the evaluator, and no other
abbrev pub env_of : Dict Bool → List String → Dict Bool
env_of healthy [] = []
env_of healthy (n ∷ ns) = insert n (is_healthy healthy n) (env_of healthy ns)

module _ {Program : Type 0} (lang : ExprLang Program) where
  compile_expr : String → List String → Option (ChecksEvaluator Program)
  compile_expr policy names = elim (lang.compile policy names) [
    | none ↦ none
    | some prog ↦ some (record { policy = policy; names = names; program = some prog })
  ]

  compile_policy : String → List String → Option (ChecksEvaluator Program)
  unfolding compile_expr
  compile_policy policy names =
      if policy == checks_policy_all || policy == checks_policy_any
      then some (record { policy = policy; names = names; program = none })
      else compile_expr policy names

  -- func CompileChecksPolicy; `none` is an error
  unfoldable pub compile_checks_policy : String → List String → Option (ChecksEvaluator Program)
  unfolding compile_policy
  compile_checks_policy policy names =
      compile_policy (if policy == "" then checks_policy_all else policy) names

  eval_names : String → List String → Dict Bool → Bool
  unfolding fold_names
  eval_names policy names healthy =
      let (all, any_ok) = fold_names healthy names true false in
      if policy == checks_policy_any then any_ok else (all && not (is_empty names))

  -- func (e *ChecksEvaluator) Eval
  unfoldable pub eval : ChecksEvaluator Program → Dict Bool → Bool
  unfolding eval_names
  eval e healthy = elim e.program [
    | none ↦ eval_names e.policy e.names healthy
    | some prog ↦ get_or (lang.run prog (env_of healthy e.names)) false
  ]
