-- ===== src/Checks/Registry/Promotion.antt =====
-- Registry.Promote: the scheduler takes the place of the one it replaces, and that one stops.
use pathosd.Common.{
  All, ◌++◌, eq_refl, true, ℕ, String, ◌≡◌, refl, false, ap, Option, none, some, List, [], ◌∷◌,
  arith, ◌==◌, nat_eq, get_or, if◌then◌else◌, Bool-cases, inl, inr,
}
use pathosd.Common.Dict.{lookup, lookup-insert}
use pathosd.Checks.Registry.Listed.{is_running-delete_running}
use pathosd.Checks.Registry.{
  SchedulerRef, RunningScheduler, Registry, listed, find_check, put_check, is_running,
  delete_running, unshadow, promote,
}

is_running-unshadow :
    (a b : ℕ) (rs : List RunningScheduler) → is_running b (unshadow a rs) ≡ is_running b rs
unfolding is_running unshadow
is_running-unshadow a b [] = refl
is_running-unshadow a b (x ∷ xs) = ground (arith, is_running-unshadow a b xs)

is_running_old :
    (old : Option SchedulerRef) (s a : ℕ) (rs : List RunningScheduler)
    → is_running a
        (elim old [ none ↦ unshadow s rs | some x ↦ delete_running x.address (unshadow s rs) ])
      ≡ elim old [
        | none ↦ is_running a rs
        | some x ↦ if nat_eq x.address a then false else is_running a rs
      ]
is_running_old none s a rs = is_running-unshadow s a rs
is_running_old (some x) s a rs =
    rw (is_running-delete_running x.address a (unshadow s rs), is_running-unshadow s a rs) refl

abbrev Others : String → List SchedulerRef → Type 0
Others check = All (λ x. (x.check_name == check) ≡ false)

-- What Promote may do to the list of a VIP. If it reports that nothing was replaced, no scheduler of the
-- check was there, and the new one is appended; otherwise the new one stands where the replaced one, the
-- first of the check, stood.
abbrev pub Places :
    SchedulerRef → List SchedulerRef → List SchedulerRef → Option SchedulerRef → Type 0
Places s xs ys none = Others s.check_name xs × (ys ≡ xs ++ s ∷ [])
Places s xs ys (some old) =
    (pre : List SchedulerRef) × (post : List SchedulerRef) × (xs ≡ pre ++ old ∷ post)
    × (ys ≡ pre ++ s ∷ post)
    × ((old.check_name == s.check_name) ≡ true)
    × Others s.check_name pre

Places-cons :
    (s x : SchedulerRef) (xs ys : List SchedulerRef) (old : Option SchedulerRef)
    → (x.check_name == s.check_name) ≡ false
    → Places s xs ys old
    → Places s (x ∷ xs) (x ∷ ys) old
Places-cons s x xs ys none other (absent, at_end) = ((other, absent), ap (λ l. x ∷ l) at_end)
Places-cons s x xs ys (some old) other (pre, post, before, after, same, first) =
    (x ∷ pre, post, ap (λ l. x ∷ l) before, ap (λ l. x ∷ l) after, same, (other, first))

put_check-Places :
    (s : SchedulerRef) (xs : List SchedulerRef)
    → Places s xs (put_check s xs) (find_check s.check_name xs)
unfolding put_check find_check
put_check-Places s [] = (tt, refl)
put_check-Places s (x ∷ xs) = elim (Bool-cases (x.check_name == s.check_name)) [
  | inl same ↦ rw same ([], xs, refl, refl, same, tt)
  | inr other ↦ rw other (
      Places-cons s x xs (put_check s xs) (find_check s.check_name xs) other
        (put_check-Places s xs))
]

-- Promote puts the scheduler where the scheduler of its VIP and check stood that it reports as replaced,
-- the first one, or behind the list if there was none, and changes the list of no other VIP. It stops
-- the replaced scheduler, and no other.
pub promote_replaces :
    (r : Registry) (s : SchedulerRef) (vip : String) (a : ℕ)
    → Places s (listed r s.vip_name) (listed (promote r s).0 s.vip_name) (promote r s).1
      × (listed (promote r s).0 vip
          ≡ (if s.vip_name == vip then listed (promote r s).0 s.vip_name else listed r vip))
      × (is_running a (promote r s).0.running ≡ elim ((promote r s).1) [
        | none ↦ is_running a r.running
        | some old ↦ if nat_eq old.address a then false else is_running a r.running
      ])
unfolding promote listed
promote_replaces r s vip a =
    let list = put_check s (get_or (lookup s.vip_name r.visible) []) in
    (
      rw (lookup-insert s.vip_name s.vip_name list r.visible, eq_refl s.vip_name)
          (put_check-Places s (get_or (lookup s.vip_name r.visible) [])),
      ground (
        arith,
        lookup-insert s.vip_name s.vip_name list r.visible,
        lookup-insert s.vip_name vip list r.visible,
        eq_refl s.vip_name,
      ),
      is_running_old (find_check s.check_name (listed r s.vip_name)) s.address a r.running,
    )
