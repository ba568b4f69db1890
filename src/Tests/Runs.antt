-- ===== src/Tests/Runs.antt =====
-- A run of a manager with one VIP.
use pathosd.Common.{◌≡◌, refl, Bool, false, some, [], ◌∷◌, contains}
use pathosd.Common.Dict.{lookup}
use pathosd.Policy.State.{Manager}
use pathosd.Policy.Handlers.{new_manager, register_all, on_health_transition}
use pathosd.Policy.Commit.{add_vip}
use pathosd.Policy.Sync.Managers.{IsSynced}
use pathosd.Policy.Verdict.{IsEvaluated, AllVips}
use pathosd.Policy.Status.Boot.{add_all, new_manager_adds}
use pathosd.Policy.Runs.{IsRun, booted, joined, reported, runs_in_step}
use pathosd.Tests.Fixtures.{Table, table, constants, host, web, up}

abbrev empty_table : Table
empty_table = record { routes = []; failing = false }

abbrev at_boot : Manager Table Bool
at_boot = new_manager constants host [] (some empty_table)

abbrev announcing : Manager Table Bool
announcing = on_health_transition constants table host (add_vip constants host at_boot web) (up "a")

joined-IsRun : IsRun constants table (add_vip constants host at_boot web)
unfolding new_manager register_all lookup
joined-IsRun = joined at_boot host web (booted host (some empty_table)) refl (λ k x h. cc)

runs_in_step_example :
    IsSynced table announcing × AllVips constants (IsEvaluated constants) announcing
runs_in_step_example =
    runs_in_step constants table
      (reported (add_vip constants host at_boot web) host (up "a") joined-IsRun)

new_manager_adds_example :
    new_manager constants host
      (web ∷ record web { name = "dns"; prefix = "10.0.0.2/32" } ∷ [])
      (some empty_table)
    ≡ add_all constants host
        (web ∷ record web { name = "dns"; prefix = "10.0.0.2/32" } ∷ [])
        at_boot
unfolding contains
new_manager_adds_example =
    new_manager_adds constants host (web ∷ record web { name = "dns"; prefix = "10.0.0.2/32" } ∷ [])
      (some empty_table) refl
