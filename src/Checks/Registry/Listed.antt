-- ===== src/Checks/Registry/Listed.antt =====
-- Which addresses stand in the lists of a registry, and which of them run.
use pathosd.Common.{ℕ, ◌≡◌, Bool, false, List, [], ◌∷◌, ◌||◌, nat_eq, arith, if◌then◌else◌}
use pathosd.Common.Dict.{Dict}
use pathosd.Checks.Registry.{SchedulerRef, RunningScheduler, is_running, delete_running}

-- the address of some scheduler of a list
abbrev pub has_address : ℕ → List SchedulerRef → Bool
has_address a [] = false
has_address a (s ∷ list) = nat_eq s.address a || has_address a list

-- the address of some scheduler of some list
abbrev pub is_listed : ℕ → Dict (List SchedulerRef) → Bool
is_listed a [] = false
is_listed a ((vip, list) ∷ d) = has_address a list || is_listed a d

pub is_running-delete_running :
    (a b : ℕ) (rs : List RunningScheduler)
    → is_running b (delete_running a rs) ≡ (if nat_eq a b then false else is_running b rs)
unfolding is_running delete_running
is_running-delete_running a b [] = ground arith
is_running-delete_running a b (x ∷ xs) = ground (arith, is_running-delete_running a b xs)
