-- ===== src/Checks/Registry.antt =====
-- internal/checks/registry.go: the schedulers that run, and those that the HTTP API lists.
-- A *Scheduler is a `SchedulerRef`: its address, and the two names that the registry asks it for. Each
-- method holds the lock while it changes the maps, and returns once the goroutine that it cancels has
-- exited, so an entry of `running` is a goroutine.
pub mod Listed
pub mod Removal
pub mod Promotion
pub mod Startup
use pathosd.Common.{
  ℕ, zero, suc, String, Bool, true, false, not, Option, none, some, List, [], ◌∷◌, ◌++◌, ◌&&◌, ◌||◌,
  ◌==◌, nat_eq, length, is_empty, get_or, if◌then◌else◌,
}
use pathosd.Common.Dict.{Dict, lookup, insert, delete}

pub record SchedulerRef : Type 0 where
  pub address : ℕ
  pub vip_name : String
  pub check_name : String

-- type runningScheduler
pub record RunningScheduler : Type 0 where
  pub scheduler : SchedulerRef
  pub shadow : Bool

-- type Registry
pub record Registry : Type 0 where
  pub started : Bool
  pub visible : Dict (List SchedulerRef)
  pub running : List RunningScheduler

-- func NewRegistry
abbrev pub new_registry : Registry
new_registry = record { started = false; visible = []; running = [] }

-- r.visible[vip], which is nil for a missing key
unfoldable pub listed : Registry → String → List SchedulerRef
listed r vip = get_or (lookup vip r.visible) []

-- list[i]; `none` stands for the nil that slices.Delete leaves behind the end of the list
unfoldable pub nth {ℓ} : {A : Type ℓ} → ℕ → List A → Option A
nth i [] = none
nth zero (x ∷ xs) = some x
nth (suc i) (x ∷ xs) = nth i xs

-- slices.Index with slices.Delete
unfoldable pub delete_ref : ℕ → List SchedulerRef → List SchedulerRef
delete_ref a [] = []
delete_ref a (x ∷ xs) = if nat_eq x.address a then xs else x ∷ delete_ref a xs

-- r.running[s] and delete(r.running, s)
unfoldable pub is_running : ℕ → List RunningScheduler → Bool
is_running a [] = false
is_running a (x ∷ xs) = nat_eq x.scheduler.address a || is_running a xs

unfoldable pub delete_running : ℕ → List RunningScheduler → List RunningScheduler
delete_running a [] = []
delete_running a (x ∷ xs) =
    let rest = delete_running a xs in if nat_eq x.scheduler.address a then rest else x ∷ rest

-- func (r *Registry) launchLocked
unfoldable pub launch : SchedulerRef → Bool → List RunningScheduler → List RunningScheduler
launch s shadow rs = record { scheduler = s; shadow = shadow } ∷ delete_running s.address rs

-- func (r *Registry) Add
unfoldable pub add : Registry → SchedulerRef → Registry
add r s = record r {
  visible = insert s.vip_name (listed r s.vip_name ++ s ∷ []) r.visible;
  running = if r.started then launch s false r.running else r.running;
}

-- func (r *Registry) AddShadow
unfoldable pub add_shadow : Registry → SchedulerRef → Registry
add_shadow r s = record r { running = launch s true r.running }

-- the scheduler of a check in a list: slices.IndexFunc
unfoldable pub find_check : String → List SchedulerRef → Option SchedulerRef
find_check check [] = none
find_check check (x ∷ xs) = if x.check_name == check then some x else find_check check xs

-- `list[idx] = s`, or `append(list, s)` if there is none
unfoldable pub put_check : SchedulerRef → List SchedulerRef → List SchedulerRef
put_check s [] = s ∷ []
put_check s (x ∷ xs) = if x.check_name == s.check_name then s ∷ xs else x ∷ put_check s xs

-- run.shadow = false
unfoldable pub unshadow : ℕ → List RunningScheduler → List RunningScheduler
unshadow a [] = []
unshadow a (x ∷ xs) =
    (if nat_eq x.scheduler.address a then record x { shadow = false } else x) ∷ unshadow a xs

-- func (r *Registry) Promote: the registry, and the scheduler that was replaced
unfoldable pub promote : Registry → SchedulerRef → Registry × Option SchedulerRef
promote r s =
    let old = find_check s.check_name (listed r s.vip_name) in
    let run = unshadow s.address r.running in
    (
      record r {
        visible = insert s.vip_name (put_check s (listed r s.vip_name)) r.visible;
        running = elim old [ none ↦ run | some x ↦ delete_running x.address run ];
      },
      old,
    )

-- func (r *Registry) Remove
unfoldable pub remove : Registry → SchedulerRef → Registry
remove r s =
    let list = delete_ref s.address (listed r s.vip_name) in
    record r {
      visible =
          if is_empty list then delete s.vip_name r.visible else insert s.vip_name list r.visible;
      running = delete_running s.address r.running;
    }

-- The loop of RemoveVIP: `n` elements are left, from index `i` on. The loop reads the array which Remove
-- changes in place, and slices.Delete sets what is behind the new end to nil. Remove of nil
-- dereferences it: the result is then `none`, a panic.
unfoldable pub remove_each : ℕ → ℕ → String → Registry → Option Registry
remove_each zero i vip r = some r
remove_each (suc n) i vip r = elim (nth i (listed r vip)) [
  | none ↦ none
  | some s ↦ remove_each n (suc i) vip (remove r s)
]

-- func (r *Registry) RemoveVIP
unfoldable pub remove_vip_schedulers : Registry → String → Option Registry
remove_vip_schedulers r vip = remove_each (length (listed r vip)) 0 vip r

-- the loop of Start over one list
unfoldable pub launch_all : List SchedulerRef → List RunningScheduler → List RunningScheduler
launch_all [] rs = rs
launch_all (s ∷ list) rs =
    launch_all list (if is_running s.address rs then rs else launch s false rs)

unfoldable pub launch_lists :
    Dict (List SchedulerRef) → List RunningScheduler → List RunningScheduler
launch_lists [] rs = rs
launch_lists ((vip, list) ∷ d) rs = launch_lists d (launch_all list rs)

-- func (r *Registry) Start
unfoldable pub start : Registry → Registry
start r = record r { started = true; running = launch_lists r.visible r.running }

-- whether every goroutine has exited when the context of Stop ends
unfoldable pub all_done : (ℕ → Bool) → List RunningScheduler → Bool
all_done exits [] = true
all_done exits (x ∷ xs) = exits x.scheduler.address && all_done exits xs

-- func (r *Registry) Stop: the registry, and whether the error is nil; `exits` tells which goroutines
-- exit before the context ends
unfoldable pub stop : (ℕ → Bool) → Registry → Registry × Bool
unfolding all_done
stop exits r = (record r { started = false; running = [] }, all_done exits r.running)

-- func (r *Registry) Schedulers
abbrev pub schedulers : Registry → Dict (List SchedulerRef)
schedulers r = r.visible
