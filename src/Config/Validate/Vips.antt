-- ===== src/Config/Validate/Vips.antt =====
-- internal/config/validate.go: the rules of one VIP, given the names and prefixes of those before it.
use pathosd.Common.{
  ℕ, suc, length, String, append, Bool, true, false, not, Option, none, some, List, [], ◌∷◌, ◌++◌,
  ◌&&◌, ◌||◌, ◌==◌, if◌then◌else◌, nat_eq, contains, is_empty,
}
use pathosd.Common.Int.{ℤ, pos, ltb_ℤ, leb_ℤ}
use pathosd.Config.Stdlib.{Stdlib}
use pathosd.Config.Checks.{CheckConfig, effective_name}
use pathosd.Config.Vip.{VipConfig, check_list, checks_policy_all, checks_policy_any}
use pathosd.Config.ChecksPolicy.{ExprLang, validate_check_name, compile_checks_policy}
use pathosd.Config.Validate.Report.{Problem, report, concat, at_index}
use pathosd.Config.Validate.CheckTypes.{validate_check}
use pathosd.Config.Validate.Policy.{validate_policy}

unfoldable pub is_set {ℓ} : {A : Type ℓ} → Option A → Bool
is_set none = false
is_set (some a) = true

-- the variable `single`: the VIP has a `check`
unfoldable pub has_single : CheckConfig → Bool
unfolding is_set
has_single c =
    not (c.type == "")
    || is_set c.http
    || is_set c.dns
    || is_set c.ping
    || is_set c.tcp
    || is_set c.udp
    || is_set c.grpc
    || is_set c.listen
    || is_set c.sql
    || is_set c.kafka

-- the closure checkPath
unfoldable pub check_path : String → VipConfig → ℕ → String
check_path prefix v i =
    if is_empty v.checks then append prefix ".check" else at_index (append prefix ".checks") i

-- `c.Timeout.Duration >= c.Interval.Duration`, where both are set
unfoldable pub is_slow : Option ℤ → Option ℤ → Bool
is_slow (some interval) (some timeout) = leb_ℤ interval timeout
is_slow _ _ = false

-- `p != nil && *p < 1`
unfoldable pub is_below_one : Option ℤ → Bool
is_below_one none = false
is_below_one (some n) = ltb_ℤ n (pos 1)

-- `err != nil`, after ValidateCheckName
unfoldable pub is_bad_name : String → Bool
is_bad_name name = elim (validate_check_name name) [ none ↦ false | some e ↦ true ]

-- names[name] = true, of a set of names
unfoldable pub add_name : String → List String → List String
add_name name names = if contains name names then names else name ∷ names

-- the first switch of validateVIP
unfoldable pub validate_one_of : String → VipConfig → List Problem
validate_one_of prefix v =
    if has_single v.check && not (is_empty v.checks)
    then append prefix ".checks" ∷ []
    else report (not (has_single v.check) && is_empty v.checks) (append prefix ".check")

module _ {P : Type 0} (lang : ExprLang P) (std : Stdlib) where
  -- one round of the loop over the checks
  unfoldable pub validate_entry : String → VipConfig → List String → CheckConfig → List Problem
  unfolding is_slow is_below_one is_bad_name
  validate_entry path v names c = concat (
      report (not (c.name == "") && is_bad_name c.name) (append path ".name")
      ∷ report (contains (effective_name c) names) (append path ".name")
      ∷ report (is_slow c.interval c.timeout) (append path ".timeout")
      ∷ report (is_below_one c.rise) (append path ".rise")
      ∷ report (is_below_one c.fall) (append path ".fall")
      ∷ validate_check std path c v.prefix
      ∷ [])

  -- the loop: the problems, and the names of the checks
  unfoldable pub validate_entries :
      String → VipConfig → ℕ → List String → List CheckConfig → List Problem × List String
  unfolding validate_entry add_name check_path
  validate_entries prefix v i names [] = ([], names)
  validate_entries prefix v i names (c ∷ list) =
      let (later, all) =
        validate_entries prefix v (suc i) (add_name (effective_name c) names) list in
      (validate_entry (check_path prefix v i) v names c ++ later, all)

  -- the loop, which ends at once if there is no check at all
  unfoldable pub validate_checks : String → VipConfig → List Problem × List String
  unfolding validate_entries
  validate_checks prefix v =
      if not (has_single v.check) && is_empty v.checks
      then ([], [])
      else validate_entries prefix v 0 [] (check_list v)

  unfoldable pub compiles : String → List String → Bool
  compiles policy names = elim (compile_checks_policy lang policy names) [
    | none ↦ false
    | some e ↦ true
  ]

  -- the rule of an expression, given the names of the checks
  unfoldable pub validate_expression : String → VipConfig → List String → List Problem
  unfolding compiles
  validate_expression path v names =
      if v.checks_policy == ""
        || v.checks_policy == checks_policy_all
        || v.checks_policy == checks_policy_any
      then []
      else if is_empty v.checks
      then path ∷ []
      else report (nat_eq (length names) (length v.checks) && not (compiles v.checks_policy names))
          path

  -- the rules of the name, and the names with this one
  unfoldable pub validate_name : String → String → List String → List Problem × List String
  validate_name path name names =
      if name == "" || contains name names then (path ∷ [], names) else ([], name ∷ names)

  -- the rules of the prefix, and the canonical prefixes with this one
  unfoldable pub validate_prefix : String → String → List String → List Problem × List String
  validate_prefix path prefix prefixes =
      if prefix == "" then (path ∷ [], prefixes) else elim (std.parse_cidr prefix) [
        | none ↦ (path ∷ [], prefixes)
        | some c ↦
            if contains c.network prefixes
            then (path ∷ [], prefixes)
            else ([], c.network ∷ prefixes)
      ]

  -- what validateVIP reports behind the name and the prefix
  unfoldable pub validate_vip_rest : String → VipConfig → List Problem
  unfolding validate_one_of validate_checks validate_expression
  validate_vip_rest prefix v =
      let (problems, names) = validate_checks prefix v in
      concat (
        report (not (v.local_interface == "") && not v.require_local_address)
          (append prefix ".local_interface")
        ∷ validate_one_of prefix v
        ∷ problems
        ∷ validate_expression (append prefix ".checks_policy") v names
        ∷ validate_policy (append prefix ".policy") v.policy
        ∷ [])

  -- func validateVIP: the problems, and the two maps that it writes to
  unfoldable pub validate_vip :
      String → VipConfig → List String → List String → List Problem × List String × List String
  unfolding validate_name validate_prefix
  validate_vip prefix v names prefixes =
      let (a, names') = validate_name (append prefix ".name") v.name names in
      let (b, prefixes') = validate_prefix (append prefix ".prefix") v.prefix prefixes in
      (a ++ (b ++ validate_vip_rest prefix v), names', prefixes')

  -- the loop of Validate over the VIPs
  unfoldable pub validate_vips : ℕ → List String → List String → List VipConfig → List Problem
  unfolding validate_vip
  validate_vips i names prefixes [] = []
  validate_vips i names prefixes (v ∷ vips) =
      let (problems, names', prefixes') = validate_vip (at_index "vips" i) v names prefixes in
      problems ++ validate_vips (suc i) names' prefixes' vips
