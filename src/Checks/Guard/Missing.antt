-- ===== src/Checks/Guard/Missing.antt =====
-- What a scheduler makes of a guarded check while the address of the VIP is missing.
use pathosd.Common.{
  ◌≢◌, eq_iff, arith, ℕ, ◌+◌, ◌≤◌, ◌<◌, String, ◌≡◌, ◌⊎◌, refl, Bool, true, false, List, [], ◌∷◌,
  All, length, suc, ap, ◌∙◌, Option, some,
}
use pathosd.Common.Int.{ℤ, pos}
use pathosd.Checks.Result.{Result}
use pathosd.Checks.Scheduler.{Scheduler, run_checks}
use pathosd.Checks.Scheduler.Streaks.{Fails, fall_reached}
use pathosd.Checks.Guard.{
  LocalAddressGuard, LocalAddress, Reply, listed, list_failed, Round, is_assigned, check_address,
  guarded_check, guarded_results,
}

-- an address other than that of the VIP, or one on another interface than the guard's
abbrev pub IsElsewhere : String → String → LocalAddress → Type 0
IsElsewhere addr iface a = (a.addr ≢ addr) ⊎ ((iface ≢ "") × (a.iface ≢ iface))

-- The listing fails, or the address is not on it.
abbrev pub Misses : String → String → Reply LocalAddress → Type 0
Misses addr iface (list_failed err) = true ≡ true
Misses addr iface (listed addrs) = All (IsElsewhere addr iface) addrs

is_assigned-elsewhere :
    (addr iface : String) (addrs : List LocalAddress)
    → All (IsElsewhere addr iface) addrs
    → is_assigned addr iface addrs ≡ false
unfolding is_assigned
is_assigned-elsewhere addr iface [] h = refl
is_assigned-elsewhere addr iface (a ∷ addrs) (h, hs) = ground (
  arith,
  is_assigned-elsewhere addr iface addrs hs,
  eq_iff a.addr addr,
  eq_iff iface "",
  eq_iff a.iface iface,
  h,
)

-- what one listing makes of a guard and a result
abbrev Refuses : LocalAddressGuard → LocalAddressGuard × List Bool × Option Result → Type 0
Refuses g (g', calls, failure) =
    (g'.addr ≡ g.addr) × (g'.iface ≡ g.iface) × ((r : Result) × (failure ≡ some r) × Fails r)

check_address-Refuses :
    (g : LocalAddressGuard) (duration : ℤ) (listing : Reply LocalAddress)
    → Misses g.addr g.iface listing
    → Refuses g (check_address g duration listing)
unfolding check_address
check_address-Refuses g duration (list_failed err) h = (refl, refl, (_, refl, refl))
check_address-Refuses g duration (listed addrs) h =
    rw (is_assigned-elsewhere g.addr g.iface addrs h) (refl, refl, (_, refl, refl))

guarded_results-Fails :
    (addr iface : String) (g : LocalAddressGuard) (rounds : List Round)
    → g.addr ≡ addr
    → g.iface ≡ iface
    → All (λ round. Misses addr iface round.listing) rounds
    → All Fails (guarded_results g rounds)
unfolding guarded_results guarded_check
guarded_results-Fails addr iface g [] a i h = tt
guarded_results-Fails addr iface g (round ∷ rounds) a i (h, hs) =
    let (a', i', (r, e, f)) = check_address-Refuses g round.duration round.listing (rw (a, i) h) in
    (
      rw (e, guarded_check) f,
      guarded_results-Fails addr iface (guarded_check g round).0 rounds (a' ∙ a) (i' ∙ i) hs,
    )

length-guarded_results :
    (g : LocalAddressGuard) (rounds : List Round)
    → length (guarded_results g rounds) ≡ length rounds
unfolding guarded_results
length-guarded_results g [] = refl
length-guarded_results g (round ∷ rounds) =
    ap suc (length-guarded_results (guarded_check g round).0 rounds)

-- While the address of a VIP cannot be listed or is missing, on the interface of the guard if it has one,
-- a guarded check fails, whatever the inner check would return: from any state of its scheduler, as many
-- rounds as make up the rest of `fall` end in an unhealthy check.
pub missing_falls :
    {C : Type 0} (g : LocalAddressGuard) (s : Scheduler C) (rounds : List Round) (fall : ℕ)
    → s.fall ≡ pos fall
    → All (λ round. Misses g.addr g.iface round.listing) rounds
    → (s.healthy ≡ false) ⊎ ((0 < length rounds) × (fall ≤ s.consecutive_fail + length rounds))
    → (run_checks s (guarded_results g rounds)).0.healthy ≡ false
missing_falls g s rounds fall a m d =
    fall_reached s (guarded_results g rounds) fall a
      (guarded_results-Fails g.addr g.iface g rounds refl refl m)
      (rw (length-guarded_results g rounds) d)
