-- ===== src/Reload/Pace.antt =====
-- The schedulers that are built from a loaded config.
use pathosd.Common.{
  String, ◌≡◌, true, Option, none, some, List, [], ◌∷◌, map, All, is_empty, arith, inl, inr, ◌⊎◌,
  Option-cases, Bool-cases,
}
use pathosd.Common.Int.{pos, ◌≤ℤ◌, ◌<ℤ◌}
use pathosd.Config.Stdlib.{Stdlib}
use pathosd.Config.Checks.{CheckConfig}
use pathosd.Config.Vip.{VipConfig, Config, check_list}
use pathosd.Config.ChecksPolicy.{ExprLang}
use pathosd.Config.Validate.Vips.{is_set, is_slow, is_below_one}
use pathosd.Config.Validate.Sections.{validate}
use pathosd.Config.Validate.Pace.{IsAccepted, validate-IsAccepted}
use pathosd.Config.Defaults.{apply_vip_defaults, apply_defaults, apply_paths_defaults}
use pathosd.Config.Defaults.Filled.{is_filled, apply_vip_defaults-is_filled}
use pathosd.Config.Load.{Decoders, load_bytes, load_bytes-some}
use pathosd.Checks.Scheduler.{Scheduler, new_scheduler}
use pathosd.Reload.Build.{
  guard_fails, new_schedulers, build_checks, scheduler_config, cons_scheduler,
}

-- a scheduler that can change its mind both ways, and whose check ends before the next one is due
pub record IsPaced {C : Type 0} (s : Scheduler C) : Type 0 where
  pub rises : pos 1 ≤ℤ s.rise
  pub falls : pos 1 ≤ℤ s.fall
  pub quick : s.timeout <ℤ s.interval

-- nothing was built, or each scheduler is paced
abbrev pub AllPaced : {C : Type 0} → Option (List (Scheduler C)) → Type 0
AllPaced none = Unit
AllPaced (some scheds) = All IsPaced scheds

module _ (C : Type 0) where
  scheduler-IsPaced :
      (v : VipConfig) (c : CheckConfig) (type : String)
      → IsAccepted c
      → is_filled c ≡ true
      → IsPaced {C = C} (new_scheduler (scheduler_config v c type))
  unfolding new_scheduler scheduler_config is_filled is_set is_slow is_below_one
  scheduler-IsPaced v c type a f = ground (arith, a.quick, a.rises, a.falls)

  cons_scheduler-AllPaced :
      (s : Scheduler C) (rest : Option (List (Scheduler C)))
      → IsPaced s
      → AllPaced rest
      → AllPaced (cons_scheduler s rest)
  unfolding cons_scheduler
  cons_scheduler-AllPaced s none p ps = tt
  cons_scheduler-AllPaced s (some rest) p ps = (p, ps)

  build_checks-AllPaced :
      (new_checker : CheckConfig → Option String) (v : VipConfig) (list : List CheckConfig)
      → All IsAccepted list
      → All (λ c. is_filled c ≡ true) list
      → AllPaced {C = C} (build_checks new_checker v list)
  unfolding build_checks
  build_checks-AllPaced new_checker v [] a f = tt
  build_checks-AllPaced new_checker v (c ∷ list) (a, later) (f, fs) =
      elim (Option-cases (new_checker c)) [
        | inl bad ↦ rw (bad, build_checks) tt
        | inr (type, good) ↦
            rw (good, build_checks)
              (cons_scheduler-AllPaced _ (build_checks new_checker v list)
                (scheduler-IsPaced v c type a f)
                (build_checks-AllPaced new_checker v list later fs))
      ]

  new_schedulers-AllPaced :
      (std : Stdlib) (new_checker : CheckConfig → Option String) (v : VipConfig)
      (list : List CheckConfig)
      → All IsAccepted list
      → All (λ c. is_filled c ≡ true) list
      → AllPaced {C = C} (new_schedulers std new_checker v list)
  unfolding new_schedulers
  new_schedulers-AllPaced std new_checker v list a f = elim (Bool-cases (guard_fails std v)) [
    | inl bad ↦ rw (bad, new_schedulers) tt
    | inr good ↦ rw (good, new_schedulers) (build_checks-AllPaced new_checker v list a f)
  ]

check_list-single : (v : VipConfig) → is_empty v.checks ≡ true → check_list v ≡ v.check ∷ []
unfolding check_list
check_list-single v h = ground arith

filled_of_accepted :
    (v : VipConfig)
    → All IsAccepted (check_list v)
    → ((is_empty v.checks ≡ true) × (v.check.type ≡ ""))
      ⊎ All (λ c. is_filled c ≡ true) (check_list v)
    → All (λ c. is_filled c ≡ true) (check_list v)
filled_of_accepted v a (inr f) = f
filled_of_accepted v a (inl (none_listed, untyped)) =
    absurd ((rw (check_list-single v none_listed) at a).0.typed untyped)

module _ (C : Type 0) (std : Stdlib) (new_checker : CheckConfig → Option String) where
  -- the schedulers of every VIP are paced
  abbrev pub BuildsPaced : VipConfig → Type 0
  BuildsPaced v = AllPaced {C = C} (new_schedulers std new_checker v (check_list v))

  vips-BuildsPaced :
      (procfs : String) (vips : List VipConfig)
      → All (λ v. All IsAccepted (check_list v)) (map (apply_vip_defaults std procfs) vips)
      → All BuildsPaced (map (apply_vip_defaults std procfs) vips)
  vips-BuildsPaced procfs [] a = tt
  vips-BuildsPaced procfs (v ∷ vips) (a, later) =
      let v' = apply_vip_defaults std procfs v in
      (
        new_schedulers-AllPaced C std new_checker v' (check_list v') a
            (filled_of_accepted v' a (apply_vip_defaults-is_filled std procfs v)),
        vips-BuildsPaced procfs vips later,
      )

  defaults-BuildsPaced :
      {P : Type 0} (lang : ExprLang P) (cfg : Config)
      → validate std lang (apply_defaults std cfg) ≡ []
      → All BuildsPaced (apply_defaults std cfg).vips
  unfolding apply_defaults
  defaults-BuildsPaced lang cfg h =
      vips-BuildsPaced (apply_paths_defaults cfg.paths).procfs cfg.vips
        (validate-IsAccepted lang std (apply_defaults std cfg) h)

  -- What a config file that loads makes NewSchedulers build for any of its VIPs is paced: each scheduler
  -- has thresholds of at least 1, and a timeout below its interval.
  pub load_bytes-BuildsPaced :
      {P : Type 0} (lang : ExprLang P) (decoders : Decoders) (raw path : String) (cfg : Config)
      → load_bytes std lang decoders raw path ≡ some cfg
      → All BuildsPaced cfg.vips
  load_bytes-BuildsPaced lang decoders raw path cfg h =
      let (parsed, valid, same) = load_bytes-some std lang decoders raw path cfg h in
      rw same (defaults-BuildsPaced lang parsed valid)
