-- ===== src/Checks/Registry/Removal.antt =====
-- Registry.RemoveVIP: what it does to a VIP with one check, and to a VIP with more.
use pathosd.Common.{
  not, ◌&&◌, ◌==◌, ℕ, zero, suc, ◌≤◌, ◌<◌, ◌+◌, String, ◌≡◌, refl, sym, ap, subst, ◌∙◌, none, some,
  List, [], ◌∷◌, All, arith, eq_refl, eq_iff, nat_eq, length, is_empty, get_or, if◌then◌else◌,
  Bool-cases, Option-cases, inl, inr,
}
use pathosd.Common.Dict.{lookup, insert, delete, lookup-insert, lookup-delete}
use pathosd.Checks.Registry.Listed.{has_address, is_running-delete_running}
use pathosd.Checks.Registry.{
  is_running, SchedulerRef, RunningScheduler, Registry, listed, nth, delete_ref, delete_running,
  remove, remove_each, remove_vip_schedulers,
}

listed_after :
    (r : Registry) (s : SchedulerRef) (list : List SchedulerRef)
    → get_or
        (lookup s.vip_name
          (if is_empty list then delete s.vip_name r.visible else insert s.vip_name list r.visible))
        []
      ≡ list
listed_after r s [] = rw (lookup-delete s.vip_name s.vip_name r.visible, eq_refl) refl
listed_after r s (x ∷ xs) =
    rw (lookup-insert s.vip_name s.vip_name (x ∷ xs) r.visible, eq_refl) refl

listed-remove :
    (r : Registry) (s : SchedulerRef)
    → listed (remove r s) s.vip_name ≡ delete_ref s.address (listed r s.vip_name)
unfolding listed remove
listed-remove r s = listed_after r s (delete_ref s.address (listed r s.vip_name))

nth_beyond : {A : Type 0} → (i : ℕ) (xs : List A) → length xs ≤ i → nth i xs ≡ none
unfolding nth
nth_beyond i [] h = refl
nth_beyond zero (x ∷ xs) h = ground arith
nth_beyond (suc i) (x ∷ xs) h = nth_beyond i xs (omega arith)

-- Deleting an element of a list makes it one shorter.
length-delete_ref :
    (i : ℕ) (s : SchedulerRef) (xs : List SchedulerRef)
    → nth i xs ≡ some s
    → suc (length (delete_ref s.address xs)) ≡ length xs
unfolding nth delete_ref
length-delete_ref i s [] h = ground arith
length-delete_ref zero s (x ∷ xs) h = ground arith
length-delete_ref (suc i) s (x ∷ xs) h = ground (arith, length-delete_ref i s xs h)

All-delete_ref :
    (Q : SchedulerRef → Type 0) (a : ℕ) (xs : List SchedulerRef)
    → All Q xs
    → All Q (delete_ref a xs)
unfolding delete_ref
All-delete_ref Q a [] h = h
All-delete_ref Q a (x ∷ xs) (p, h) = elim (Bool-cases (nat_eq x.address a)) [
  | inl hit ↦ rw hit h
  | inr miss ↦ rw miss (p, All-delete_ref Q a xs h)
]

All-nth :
    (Q : SchedulerRef → Type 0) (i : ℕ) (s : SchedulerRef) (xs : List SchedulerRef)
    → All Q xs
    → nth i xs ≡ some s
    → Q s
unfolding nth
All-nth Q i s [] h e = cc
All-nth Q zero s (x ∷ xs) (p, h) e = subst Q (cc) p
All-nth Q (suc i) s (x ∷ xs) (p, h) e = All-nth Q i s xs h e

-- every scheduler of this list is one of the VIP
abbrev pub IsListed : Registry → String → Type 0
IsListed r vip = All (λ s. s.vip_name ≡ vip) (listed r vip)

listed-remove_at :
    (i : ℕ) (vip : String) (r : Registry) (s : SchedulerRef)
    → IsListed r vip
    → nth i (listed r vip) ≡ some s
    → listed (remove r s) vip ≡ delete_ref s.address (listed r vip)
listed-remove_at i vip r s own found =
    subst (λ v. listed (remove r s) v ≡ delete_ref s.address (listed r v))
      (All-nth (λ x. x.vip_name ≡ vip) i s (listed r vip) own found) (listed-remove r s)

-- From the second element on, the array holds fewer elements than the loop has left to read.
remove_each_panics :
    (n i : ℕ) (vip : String) (r : Registry)
    → length (listed r vip) ≡ suc n
    → 1 ≤ n + i
    → IsListed r vip
    → remove_each (suc n) i vip r ≡ none
unfolding remove_each
remove_each_panics zero i vip r len pos own =
    rw (remove_each, nth_beyond i (listed r vip) (omega (arith, len))) refl
remove_each_panics (suc n) i vip r len pos own = elim (Option-cases (nth i (listed r vip))) [
  | inl beyond ↦ rw (remove_each, beyond) refl
  | inr (s, found) ↦
      let e = listed-remove_at i vip r s own found in
      rw (remove_each, found)
        (remove_each_panics n (suc i) vip (remove r s)
          (ap length e ∙ omega (arith, length-delete_ref i s (listed r vip) found)) (omega arith)
          (subst (All (λ x. x.vip_name ≡ vip)) (sym e)
            (All-delete_ref (λ x. x.vip_name ≡ vip) s.address (listed r vip) own)))
]

-- Registry.RemoveVIP panics for a VIP under which more than one scheduler is listed, each of them a
-- scheduler of that VIP.
pub remove_vip_panics :
    (r : Registry) (vip : String)
    → IsListed r vip
    → 1 < length (listed r vip)
    → remove_vip_schedulers r vip ≡ none
unfolding remove_vip_schedulers
remove_vip_panics r vip own many = go (length (listed r vip)) refl many
  where
    go : (n : ℕ) → length (listed r vip) ≡ n → 1 < n → remove_each n 0 vip r ≡ none
    go zero e h = ground arith
    go (suc n) e h = remove_each_panics n 0 vip r e (omega arith) own

delete_ref_only : (s : SchedulerRef) → delete_ref s.address (s ∷ []) ≡ []
unfolding delete_ref
delete_ref_only s = ground arith

remove_each_one :
    (r : Registry) (vip : String) (s : SchedulerRef)
    → listed r vip ≡ s ∷ []
    → remove_each 1 0 vip r ≡ some (remove r s)
unfolding remove_each nth
remove_each_one r vip s e = rw (e, remove_each) refl

remove_each_nil : (r : Registry) (vip : String) → remove_each 0 0 vip r ≡ some r
unfolding remove_each
remove_each_nil r vip = refl

-- Registry.RemoveVIP panics only where more than one scheduler is listed.
pub remove_vip-many :
    (r : Registry) (vip : String) → remove_vip_schedulers r vip ≡ none → 1 < length (listed r vip)
unfolding remove_vip_schedulers
remove_vip-many r vip panic = go (listed r vip) refl
  where
    go : (list : List SchedulerRef) → listed r vip ≡ list → 1 < length (listed r vip)
    go [] e = absurd (cc (rw e at panic, remove_each_nil r vip))
    go (s ∷ []) e = absurd (cc (rw e at panic, remove_each_one r vip s e))
    go (s ∷ t ∷ list) e = rw e (omega arith)

listed-delete :
    (r : Registry) (rs : List RunningScheduler) (vip k : String)
    → listed (record r { visible = delete vip r.visible; running = rs }) k
      ≡ (if vip == k then [] else listed r k)
unfolding listed
listed-delete r rs vip k = ground (arith, lookup-delete vip k r.visible)

-- what is left of the lists and of the running schedulers by a removal of this list
abbrev Clears : Registry → String → List SchedulerRef → ℕ → String → Registry → Type 0
Clears r vip list a k r' =
    (listed r' k ≡ (if vip == k then [] else listed r k))
    × (is_running a r'.running ≡ (not (has_address a list) && is_running a r.running))

Clears-nothing :
    (r : Registry) (vip : String) (a : ℕ) (k : String) → listed r vip ≡ [] → Clears r vip [] a k r
Clears-nothing r vip a k e = elim (Bool-cases (vip == k)) [
  | inl hit ↦ rw hit (rw (← (eq_iff vip k).0 hit) e, refl)
  | inr miss ↦ rw miss (refl, refl)
]

remove-Clears :
    (r : Registry) (s : SchedulerRef) (a : ℕ) (k : String)
    → listed r s.vip_name ≡ s ∷ []
    → Clears r s.vip_name (s ∷ []) a k (remove r s)
unfolding remove
remove-Clears r s a k only = (
  rw (only, delete_ref_only s) (listed-delete r (delete_running s.address r.running) s.vip_name k),
  is_running-delete_running s.address a r.running ∙ ground arith,
)

-- Registry.RemoveVIP of a VIP with at most one listed scheduler, which is one of that VIP, does not
-- panic. It unlists this VIP and no other, and stops the listed scheduler and no other.
pub remove_vip_stops :
    (r : Registry) (vip : String) (a : ℕ) (k : String)
    → IsListed r vip
    → length (listed r vip) ≤ 1
    → (r' : Registry) × (remove_vip_schedulers r vip ≡ some r')
      × (listed r' k ≡ (if vip == k then [] else listed r k))
      × (is_running a r'.running ≡ (not (has_address a (listed r vip)) && is_running a r.running))
unfolding remove_vip_schedulers
remove_vip_stops r vip a k own few = go (listed r vip) refl
  where
    go :
        (list : List SchedulerRef)
        → listed r vip ≡ list
        → (r' : Registry) × (remove_each (length (listed r vip)) 0 vip r ≡ some r')
          × (listed r' k ≡ (if vip == k then [] else listed r k))
          × (is_running a r'.running
              ≡ (not (has_address a (listed r vip)) && is_running a r.running))
    go [] e = let c = Clears-nothing r vip a k e in (r, rw e (remove_each_nil r vip), c.0, rw e c.1)
    go (s ∷ []) e =
        let mine : s.vip_name ≡ vip = (rw e at own).0 in
        let c =
          subst (λ v. Clears r v (s ∷ []) a k (remove r s)) mine
            (remove-Clears r s a k (subst (λ v. listed r v ≡ s ∷ []) (sym mine) e)) in
        (remove r s, rw e (remove_each_one r vip s e), c.0, rw e c.1)
    go (s ∷ t ∷ list) e = absurd (omega (arith, rw e at few))
