-- ===== src/Checks/Scheduler/Callbacks.antt =====
-- Which callbacks the runs of a check fire, and in what order.
use pathosd.Common.{
  ap, String, ◌≡◌, refl, ◌∙◌, Bool, true, false, Option, none, some, List, [], ◌∷◌, ◌++◌, arith,
  if◌then◌else◌,
}
use pathosd.Checks.Result.{Result, HealthTransition}
use pathosd.Checks.Scheduler.{Scheduler, run_check, run_checks}

-- two Booleans differ
abbrev pub differ : Bool → Bool → Bool
differ true b = if b then false else true
differ false b = b

-- the transition that reports the new health of a scheduler
abbrev pub report : {C : Type 0} → Scheduler C → Result → HealthTransition
report t r = record {
  vip_name = t.vip_name;
  check_name = t.check_name;
  healthy = t.healthy;
  reason = if t.healthy then "rise threshold reached" else "fall threshold reached";
  check_result = r;
}

-- A run, with both callbacks set, calls the result callback with the result, and then, exactly if the
-- health changed, the transition callback with the new health.
pub run_check_fires :
    {C : Type 0} (s : Scheduler C) (r : Result) (f : String → String → Result → C)
    (g : HealthTransition → C)
    → s.on_check_result ≡ some f
    → s.on_transition ≡ some g
    → (run_check s r).1
      ≡ f s.vip_name s.check_name r
        ∷ (if differ s.healthy (run_check s r).0.healthy
            then g (report (run_check s r).0 r) ∷ []
            else [])
unfolding run_check
run_check_fires s r f g a b = ground arith

-- Follows reports of health from a first one; `none` as soon as a report repeats the one before.
abbrev pub follow : Bool → List Bool → Option Bool
follow h [] = some h
follow h (b ∷ bs) = if differ h b then follow b bs else none

follow-append :
    (h k : Bool) (xs ys : List Bool) → follow h xs ≡ some k → follow h (xs ++ ys) ≡ follow k ys
follow-append h k [] ys e = ground arith
follow-append h k (x ∷ xs) ys e = ground (arith, follow-append x k xs ys)

abbrev push : Option Bool → List Bool → List Bool
push none bs = bs
push (some b) bs = b ∷ bs

push-append : (o : Option Bool) (xs ys : List Bool) → push o (xs ++ ys) ≡ push o xs ++ ys
push-append none xs ys = refl
push-append (some b) xs ys = refl

-- the healths that the calls of callbacks report, where `health` reads them
abbrev pub reported : {C : Type 0} → (C → Option Bool) → List C → List Bool
reported health [] = []
reported health (c ∷ calls) = push (health c) (reported health calls)

reported-append :
    {C : Type 0} (health : C → Option Bool) (xs ys : List C)
    → reported health (xs ++ ys) ≡ reported health xs ++ reported health ys
reported-append health [] ys = refl
reported-append health (x ∷ xs) ys =
    ap (push (health x)) (reported-append health xs ys)
    ∙ push-append (health x) (reported health xs) (reported health ys)

module _ {C : Type 0} (f : String → String → Result → C) (g : HealthTransition → C)
    (health : C → Option Bool)
    (results_silent : (v c : String) (r : Result) → health (f v c r) ≡ none)
    (transitions_read : (t : HealthTransition) → health (g t) ≡ some t.healthy) where
  run_check-follows :
      (s : Scheduler C) (r : Result)
      → s.on_check_result ≡ some f
      → s.on_transition ≡ some g
      → ((run_check s r).0.on_check_result ≡ some f)
        × ((run_check s r).0.on_transition ≡ some g)
        × (follow s.healthy (reported health (run_check s r).1) ≡ some (run_check s r).0.healthy)
  unfolding run_check
  run_check-follows s r a b = (
    ground arith,
    ground arith,
    rw (run_check_fires s r f g a b) (
        ground (
          arith,
          results_silent s.vip_name s.check_name r,
          transitions_read (report (run_check s r).0 r),
        )),
  )

  -- Over any runs of a scheduler with both callbacks set, whose calls can be told apart: the healths
  -- that the calls of the transition callback report alternate, and applying them one after another to
  -- the first health of the scheduler gives its last.
  pub run_checks_alternate :
      (s : Scheduler C) (rs : List Result)
      → s.on_check_result ≡ some f
      → s.on_transition ≡ some g
      → follow s.healthy (reported health (run_checks s rs).1) ≡ some (run_checks s rs).0.healthy
  unfolding run_checks
  run_checks_alternate s [] a b = refl
  run_checks_alternate s (r ∷ rs) a b =
      let (a', b', step) = run_check-follows s r a b in
      rw (reported-append health (run_check s r).1 (run_checks (run_check s r).0 rs).1) (
        follow-append s.healthy (run_check s r).0.healthy (reported health (run_check s r).1)
          (reported health (run_checks (run_check s r).0 rs).1) step
        ∙ run_checks_alternate (run_check s r).0 rs a' b')
