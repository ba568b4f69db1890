-- ===== src/Config/Validate/Report.antt =====
-- The problems that Validate (internal/config/validate.go) collects. A problem is the path of its field;
-- the message is left out.
use pathosd.Common.{
  ℕ, String, append, ◌≡◌, refl, Bool, true, false, not, none, some, List, [], ◌∷◌, ◌++◌, ◌&&◌, ◌||◌,
  ◌==◌, All, if◌then◌else◌, print_nat, nat_eq, arith,
}
use pathosd.Config.Stdlib.{Stdlib}

abbrev pub Problem : Type 0
Problem = String

-- `if test { add(path, …) }`
unfoldable pub report : Bool → String → List Problem
report test path = if test then path ∷ [] else []

-- the problems of one statement after another
unfoldable pub concat : List (List Problem) → List Problem
concat [] = []
concat (p ∷ ps) = p ++ concat ps

-- fmt.Sprintf("%s[%d]", path, i)
unfoldable pub at_index : String → ℕ → String
at_index path i = append path (append "[" (print_nat i "]"))

-- `ip == nil`, after net.ParseIP
unfoldable pub is_bad_ip : Stdlib → String → Bool
is_bad_ip std s = elim (std.parse_ip s) [ none ↦ true | some family ↦ false ]

-- func isSingleHost
unfoldable pub is_single_host : Stdlib → String → Bool
is_single_host std prefix = elim (std.parse_cidr prefix) [
  | none ↦ false
  | some c ↦ (nat_eq c.bits 32 && nat_eq c.ones 32) || (nat_eq c.bits 128 && nat_eq c.ones 128)
]

-- `host == "" && !isSingleHost(vipPrefix)`, a condition of most check types
unfoldable pub lacks_host : Stdlib → String → String → Bool
lacks_host std host vip_prefix = host == "" && not (is_single_host std vip_prefix)

pub append-none : (xs ys : List Problem) → xs ++ ys ≡ [] → (xs ≡ []) × (ys ≡ [])
append-none [] ys h = (refl, h)
append-none (x ∷ xs) ys h = cc

-- No problem at all: no problem of any statement.
pub concat-none : (ps : List (List Problem)) → concat ps ≡ [] → All (λ p. p ≡ []) ps
unfolding concat
concat-none [] h = tt
concat-none (p ∷ ps) h =
    let (here, later) = append-none p (concat ps) h in (here, concat-none ps later)

pub report-none : (test : Bool) (path : String) → report test path ≡ [] → test ≡ false
unfolding report
report-none test path h = ground arith
