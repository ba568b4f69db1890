-- ===== src/Checks/Registry/Startup.antt =====
-- Registry.Start: what is listed runs.
use pathosd.Common.{
  ℕ, ◌≡◌, refl, ◌∙◌, Bool, true, false, List, [], ◌∷◌, arith, nat_eq, ◌||◌, Bool-cases, inl, inr,
  if◌then◌else◌,
}
use pathosd.Common.Dict.{Dict}
use pathosd.Checks.Registry.{
  SchedulerRef, RunningScheduler, Registry, is_running, launch, launch_all, launch_lists, start,
}
use pathosd.Checks.Registry.Listed.{has_address, is_listed, is_running-delete_running}

is_running-launch :
    (s : SchedulerRef) (shadow : Bool) (a : ℕ) (rs : List RunningScheduler)
    → is_running a (launch s shadow rs) ≡ (nat_eq s.address a || is_running a rs)
unfolding launch is_running
is_running-launch s shadow a rs = ground (arith, is_running-delete_running s.address a rs)

nat_eq-eq : (a b : ℕ) → nat_eq a b ≡ true → a ≡ b
nat_eq-eq a b h = ground arith

is_running_same :
    (a b : ℕ) (rs : List RunningScheduler)
    → nat_eq a b ≡ true
    → is_running a rs ≡ true
    → is_running b rs ≡ true
is_running_same a b rs h e = rw (← nat_eq-eq a b h) e

launch_once :
    (s : SchedulerRef) (a : ℕ) (rs : List RunningScheduler)
    → is_running a (if is_running s.address rs then rs else launch s false rs)
      ≡ (nat_eq s.address a || is_running a rs)
launch_once s a rs = elim (Bool-cases (is_running s.address rs)) [
  | inl runs ↦ rw runs (ground (arith, is_running_same s.address a rs))
  | inr idle ↦ rw idle (is_running-launch s false a rs)
]

is_running-launch_all :
    (a : ℕ) (list : List SchedulerRef) (rs : List RunningScheduler)
    → is_running a (launch_all list rs) ≡ (has_address a list || is_running a rs)
unfolding launch_all
is_running-launch_all a [] rs = refl
is_running-launch_all a (s ∷ list) rs =
    is_running-launch_all a list _ ∙ ground (arith, launch_once s a rs)

is_running-launch_lists :
    (a : ℕ) (d : Dict (List SchedulerRef)) (rs : List RunningScheduler)
    → is_running a (launch_lists d rs) ≡ (is_listed a d || is_running a rs)
unfolding launch_lists
is_running-launch_lists a [] rs = refl
is_running-launch_lists a ((vip, list) ∷ d) rs =
    is_running-launch_lists a d _ ∙ ground (arith, is_running-launch_all a list rs)

-- After Start the schedulers that run are exactly those that are listed, and those that ran before; the
-- lists stay as they are, and the registry is started.
pub start_runs :
    (r : Registry) (a : ℕ)
    → (is_running a (start r).running ≡ (is_listed a r.visible || is_running a r.running))
      × ((start r).visible ≡ r.visible)
      × ((start r).started ≡ true)
unfolding start
start_runs r a = (is_running-launch_lists a r.visible r.running, refl, refl)
