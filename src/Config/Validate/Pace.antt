-- ===== src/Config/Validate/Pace.antt =====
-- What Validate accepts of the pace of a check: its timeout below its interval, and its thresholds.
use pathosd.Common.{
  ℕ, suc, String, ◌≡◌, ◌≢◌, true, false, not, List, [], ◌∷◌, ◌&&◌, All, is_empty, arith, Bool-cases,
  inl, inr,
}
use pathosd.Config.Stdlib.{Stdlib}
use pathosd.Config.Checks.{CheckConfig, effective_name}
use pathosd.Config.Vip.{VipConfig, Config, check_list}
use pathosd.Config.ChecksPolicy.{ExprLang}
use pathosd.Config.Validate.Report.{report, at_index, concat-none, report-none, append-none}
use pathosd.Config.Validate.CheckTypes.{validate_check}
use pathosd.Config.Validate.Vips.{
  has_single, is_slow, is_below_one, add_name, check_path, validate_one_of, validate_entry,
  validate_entries, validate_checks, validate_vip_rest, validate_vip, validate_vips,
}
use pathosd.Config.Validate.Sections.{validate}

-- what the rules of Validate on one check let through
pub record IsAccepted (c : CheckConfig) : Type 0 where
  pub quick : is_slow c.interval c.timeout ≡ false
  pub rises : is_below_one c.rise ≡ false
  pub falls : is_below_one c.fall ≡ false
  pub typed : c.type ≢ ""

module _ {P : Type 0} (lang : ExprLang P) (std : Stdlib) where
  validate_check-typed :
      (path : String) (c : CheckConfig) (prefix : String)
      → validate_check std path c prefix ≡ []
      → c.type ≢ ""
  unfolding validate_check
  validate_check-typed path c prefix h e = cc (rw (e, validate_check) at h)

  validate_entry-IsAccepted :
      (path : String) (v : VipConfig) (names : List String) (c : CheckConfig)
      → validate_entry lang std path v names c ≡ []
      → IsAccepted c
  unfolding validate_entry
  validate_entry-IsAccepted path v names c h =
      let all = concat-none _ h in
      record {
        quick = report-none _ _ all.1.1.0;
        rises = report-none _ _ all.1.1.1.0;
        falls = report-none _ _ all.1.1.1.1.0;
        typed = validate_check-typed path c v.prefix all.1.1.1.1.1.0;
      }

  validate_entries-IsAccepted :
      (prefix : String) (v : VipConfig) (i : ℕ) (names : List String) (list : List CheckConfig)
      → (validate_entries lang std prefix v i names list).0 ≡ []
      → All IsAccepted list
  unfolding validate_entries
  validate_entries-IsAccepted prefix v i names [] h = tt
  validate_entries-IsAccepted prefix v i names (c ∷ list) h =
      let (here, later) = append-none _ _ h in
      (
        validate_entry-IsAccepted (check_path prefix v i) v names c here,
        validate_entries-IsAccepted prefix v (suc i) (add_name (effective_name c) names) list later,
      )

  one_of-some :
      (prefix : String) (v : VipConfig)
      → validate_one_of prefix v ≡ []
      → (not (has_single v.check) && is_empty v.checks) ≡ true
      → ⊥
  unfolding validate_one_of report
  one_of-some prefix v h e = ground arith

  validate_vip_rest-IsAccepted :
      (prefix : String) (v : VipConfig)
      → validate_vip_rest lang std prefix v ≡ []
      → All IsAccepted (check_list v)
  unfolding validate_vip_rest validate_checks
  validate_vip_rest-IsAccepted prefix v h =
      let all = concat-none _ h in
      elim (Bool-cases (not (has_single v.check) && is_empty v.checks)) [
        | inl no_check ↦ absurd (one_of-some prefix v all.1.0 no_check)
        | inr some_check ↦
            validate_entries-IsAccepted prefix v 0 [] (check_list v) (rw some_check at all.1.1.0)
      ]

  validate_vips-IsAccepted :
      (i : ℕ) (names prefixes : List String) (vips : List VipConfig)
      → validate_vips lang std i names prefixes vips ≡ []
      → All (λ v. All IsAccepted (check_list v)) vips
  unfolding validate_vips validate_vip
  validate_vips-IsAccepted i names prefixes [] h = tt
  validate_vips-IsAccepted i names prefixes (v ∷ vips) h =
      let (here, later) = append-none _ _ h in
      let (a, b) = append-none _ _ here in
      let (c, rest) = append-none _ _ b in
      (
        validate_vip_rest-IsAccepted (at_index "vips" i) v rest,
        validate_vips-IsAccepted (suc i) _ _ vips later,
      )

  -- The checks of the VIPs of a config that Validate accepts keep its rules.
  pub validate-IsAccepted :
      (cfg : Config)
      → validate std lang cfg ≡ []
      → All (λ v. All IsAccepted (check_list v)) cfg.vips
  unfolding validate
  validate-IsAccepted cfg h =
      validate_vips-IsAccepted 0 [] [] cfg.vips ((concat-none _ h).1.1.1.1.1.1.0)
