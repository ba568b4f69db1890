-- ===== src/Tests/Registry.antt =====
-- A registry of the schedulers of two VIPs.
use pathosd.Common.{
  not, ◌||◌, [], String, ℕ, ◌≡◌, refl, true, false, none, some, arith, ◌==◌, nat_eq, if◌then◌else◌,
  ◌&&◌,
}
use pathosd.Common.Dict.{lookup, insert}
use pathosd.Checks.Registry.{
  SchedulerRef, Registry, new_registry, listed, add, add_shadow, promote, remove_vip_schedulers,
  start, is_running, delete_running, launch, launch_all, launch_lists,
}
use pathosd.Checks.Registry.Startup.{start_runs}
use pathosd.Checks.Registry.Removal.{remove_vip_panics, remove_vip_stops}
use pathosd.Checks.Registry.Promotion.{promote_replaces, Places}
use pathosd.Checks.Registry.Listed.{has_address, is_listed}

abbrev ref : ℕ → String → String → SchedulerRef
ref address vip check = record { address = address; vip_name = vip; check_name = check }

-- "web" has the checks "http" and "tcp", and "dns" has one; a new "tcp" runs in shadow.
abbrev two_vips : Registry
two_vips =
    add_shadow
      (start
        (add (add (add new_registry (ref 1 "web" "http")) (ref 2 "web" "tcp")) (ref 3 "dns" "tcp")))
      (ref 4 "web" "tcp")

two_vips_run : is_running 2 two_vips.running ≡ true
unfolding add add_shadow start listed insert lookup is_running delete_running launch launch_all
    launch_lists
two_vips_run = refl

remove_vip_panics_example : remove_vip_schedulers two_vips "web" ≡ none
unfolding add add_shadow start listed insert lookup
remove_vip_panics_example = remove_vip_panics two_vips "web" (refl, (refl, tt)) (omega arith)

remove_vip_stops_example :
    (r' : Registry) × (remove_vip_schedulers two_vips "dns" ≡ some r')
    × (listed r' "web" ≡ (if "dns" == "web" then [] else listed two_vips "web"))
    × (is_running 3 r'.running
        ≡ (not (has_address 3 (listed two_vips "dns")) && is_running 3 two_vips.running))
unfolding add add_shadow start listed insert lookup
remove_vip_stops_example = remove_vip_stops two_vips "dns" 3 "web" (refl, tt) (omega arith)

promote_replaces_example :
    Places
      (ref 4 "web" "tcp")
      (listed two_vips "web")
      (listed (promote two_vips (ref 4 "web" "tcp")).0 "web")
      (promote two_vips (ref 4 "web" "tcp")).1
    × (listed (promote two_vips (ref 4 "web" "tcp")).0 "dns" ≡ (
        if "web" == "dns"
        then listed (promote two_vips (ref 4 "web" "tcp")).0 "web"
        else listed two_vips "dns"))
    × (is_running 2 (promote two_vips (ref 4 "web" "tcp")).0.running
        ≡ elim ((promote two_vips (ref 4 "web" "tcp")).1) [
          | none ↦ is_running 2 two_vips.running
          | some old ↦ if nat_eq old.address 2 then false else is_running 2 two_vips.running
        ])
promote_replaces_example = promote_replaces two_vips (ref 4 "web" "tcp") "dns" 2

-- "http" is listed, and nothing runs yet.
abbrev waiting : Registry
waiting = add new_registry (ref 1 "web" "http")

start_runs_example :
    (is_running 1 (start waiting).running
      ≡ (is_listed 1 waiting.visible || is_running 1 waiting.running))
    × ((start waiting).visible ≡ waiting.visible)
    × ((start waiting).started ≡ true)
start_runs_example = start_runs waiting 1

-- it runs after Start
http_starts : is_running 1 (start waiting).running ≡ true
unfolding add start listed insert lookup is_running delete_running launch launch_all launch_lists
http_starts = refl
