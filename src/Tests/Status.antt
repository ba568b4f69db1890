-- ===== src/Tests/Status.antt =====
-- What the API reports of a manager that a run reaches.
use pathosd.Common.{
  String, ◌≡◌, refl, Bool, true, false, some, List, [], ◌∷◌, map, contains, is_distinct,
}
use pathosd.Common.Dict.{member}
use pathosd.Model.Status.{VipStatusReport}
use pathosd.Policy.Handlers.{new_manager, on_health_transition}
use pathosd.Policy.Status.{get_vip_statuses}
use pathosd.Policy.Status.Reach.{IsReachable, started, health_reported, get_vip_statuses_total}
use pathosd.Policy.State.{Manager}
use pathosd.Tests.Fixtures.{Table, table, constants, host, web, up}

abbrev booted : Manager Table Bool
booted = new_manager constants host (web ∷ []) (some (record { routes = []; failing = false }))

abbrev reported : Manager Table Bool
reported = on_health_transition constants table host booted (up "a")

booted-IsReachable : IsReachable constants table booted
unfolding contains
booted-IsReachable = started host (web ∷ []) (some (record { routes = []; failing = false })) refl

get_vip_statuses_total_example :
    (l : List VipStatusReport) × (get_vip_statuses constants reported ≡ some l)
    × (map (λ s. s.name) l ≡ reported.order)
    × (is_distinct reported.order ≡ true)
    × ((k : String) → member k reported.vips ≡ contains k reported.order)
get_vip_statuses_total_example =
    get_vip_statuses_total constants table (health_reported booted host (up "a") booted-IsReachable)
