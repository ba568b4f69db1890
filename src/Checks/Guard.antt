-- ===== src/Checks/Guard.antt =====
-- internal/checks/localaddr.go: the guard that fails the checks of a VIP while its address is not on a
-- local interface. The interfaces of the host, and the time that a listing takes, are arguments.
pub mod Missing
use pathosd.Common.{
  String, append, Bool, true, false, not, Option, none, some, List, [], ◌∷◌, ◌++◌, ◌&&◌, ◌||◌, ◌==◌,
  if◌then◌else◌,
}
use pathosd.Common.Int.{ℤ}
use pathosd.Config.Stdlib.{Stdlib, Addr, Prefix}
use pathosd.Checks.Result.{Result, zero_result}
use pathosd.Checks.Scheduler.{Scheduler, run_check}

-- One address of an interface: a *net.IPNet or a *net.IPAddr, with what netip.AddrFromSlice makes of its
-- IP, or another net.Addr.
pub data HostAddr : Type 0 where
  ip_addr : Option Addr → HostAddr
  other_addr : HostAddr

-- What a call of net returns: a list, or an error, which is its text.
pub data Reply {ℓ} (A : Type ℓ) : Type ℓ where
  listed : List A → Reply A
  list_failed : String → Reply A

pub record Interface : Type 0 where
  pub name : String
  pub addrs : Reply HostAddr

-- type LocalAddress; the text of an address stands for it
pub record LocalAddress : Type 0 where
  pub iface : String
  pub addr : String

-- the loop of ListLocalAddresses over the addresses of an interface
unfoldable pub addresses_of : Stdlib → String → List HostAddr → List LocalAddress
addresses_of std name [] = []
addresses_of std name (other_addr ∷ addrs) = addresses_of std name addrs
addresses_of std name (ip_addr none ∷ addrs) = addresses_of std name addrs
addresses_of std name (ip_addr (some a) ∷ addrs) =
    record { iface = name; addr = (std.unmap a).text } ∷ addresses_of std name addrs

-- what is listed for an interface, in front of what is listed for the others
unfoldable pub add_interface :
    Stdlib → String → Reply HostAddr → Reply LocalAddress → Reply LocalAddress
unfolding addresses_of
add_interface std name (list_failed err) rest =
    list_failed (append "interface " (append name (append ": " err)))
add_interface std name (listed addrs) (list_failed err) = list_failed err
add_interface std name (listed addrs) (listed rest) = listed (addresses_of std name addrs ++ rest)

-- the loop of ListLocalAddresses over the interfaces
unfoldable pub list_interfaces : Stdlib → List Interface → Reply LocalAddress
unfolding add_interface
list_interfaces std [] = listed []
list_interfaces std (i ∷ list) = add_interface std i.name i.addrs (list_interfaces std list)

-- func ListLocalAddresses
unfoldable pub list_local_addresses : Stdlib → Reply Interface → Reply LocalAddress
unfolding list_interfaces
list_local_addresses std (list_failed err) = list_failed err
list_local_addresses std (listed list) = list_interfaces std list

-- type LocalAddressGuard; onState is always set here, and its calls are the Booleans of a run
pub record LocalAddressGuard : Type 0 where
  pub vip_name : String
  pub prefix : String
  pub addr : String
  pub iface : String
  pub known : Bool
  pub assigned : Bool

-- func NewLocalAddressGuard; `none` is an error
unfoldable pub new_local_address_guard :
    Stdlib → String → String → String → Option LocalAddressGuard
new_local_address_guard std vip_name prefix iface = elim (std.parse_prefix prefix) [
  | none ↦ none
  | some p ↦ some (record {
    vip_name = vip_name;
    prefix = prefix;
    addr = (std.unmap p.addr).text;
    iface = iface;
    known = false;
    assigned = false;
  })
]

-- the loop of check: whether the address is listed, on the interface if there is one
unfoldable pub is_assigned : String → String → List LocalAddress → Bool
is_assigned addr iface [] = false
is_assigned addr iface (a ∷ addrs) =
    let rest = is_assigned addr iface addrs in
    (a.addr == addr) && (iface == "" || (a.iface == iface)) || rest

-- func (g *LocalAddressGuard) missingDetail
unfoldable pub missing_detail : LocalAddressGuard → String
missing_detail g = append "VIP address " (
    append g.addr (
      if not (g.iface == "")
      then append " is not configured on interface " g.iface
      else " is not configured on any interface"))

-- func (g *LocalAddressGuard) observe
unfoldable pub observe : LocalAddressGuard → Bool → LocalAddressGuard × List Bool
observe g assigned =
    let differs : Bool = if assigned then not g.assigned else g.assigned in
    let changed = not g.known || differs in
    (record g { known = true; assigned = assigned }, if changed then assigned ∷ [] else [])

-- a result that fails with its detail as the error
unfoldable pub failed_with : String → String → ℤ → Result
failed_with detail err duration = record zero_result {
  detail = detail;
  duration = duration;
  err = some err;
}

-- func (g *LocalAddressGuard) check; `none` lets the inner check run
unfoldable pub check_address :
    LocalAddressGuard → ℤ → Reply LocalAddress → LocalAddressGuard × List Bool × Option Result
unfolding is_assigned missing_detail observe failed_with
check_address g duration (list_failed err) =
    (g, [], some (failed_with (append "listing local addresses: " err) err duration))
check_address g duration (listed addrs) =
    let assigned = is_assigned g.addr g.iface addrs in
    let (g', calls) = observe g assigned in
    (
      g',
      calls,
      if assigned then none else some (failed_with (missing_detail g) (missing_detail g) duration),
    )

-- One round of a guarded check: the listing and the time it takes, and what the inner check would return.
pub record Round : Type 0 where
  pub listing : Reply LocalAddress
  pub duration : ℤ
  pub inner : Result

-- func (c *guardedChecker) Check
unfoldable pub guarded_check : LocalAddressGuard → Round → LocalAddressGuard × List Bool × Result
unfolding check_address
guarded_check g round =
    let (g', calls, failure) = check_address g round.duration round.listing in
    (g', calls, elim failure [ none ↦ round.inner | some r ↦ r ])

-- the results of a guarded check, round after round
unfoldable pub guarded_results : LocalAddressGuard → List Round → List Result
unfolding guarded_check
guarded_results g [] = []
guarded_results g (round ∷ rounds) =
    let (g', calls, result) = guarded_check g round in result ∷ guarded_results g' rounds
