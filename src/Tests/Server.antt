-- ===== src/Tests/Server.antt =====
-- A GoBGP server for the tests: the log of what was added and deleted, newest first. A UUID is the
-- length of the log when its path was added.
use pathosd.Common.{
  suc, String, ◌≡◌, refl, Bool, true, false, Option, none, some, List, [], ◌∷◌, ◌==◌, eq_iff,
  eq_refl, arith, if◌then◌else◌, nat_eq, nat_eq-eq, ltb, length, Option-cases, inl, inr,
}
use pathosd.Bgp.Gobgp.{Gobgp, BgpPath, Uuid, added, without_uuid}

pub data Event : Type 0 where
  put : BgpPath → Event
  drop : String → Event

unfoldable pub route_in : List Event → String → Option (Uuid × BgpPath)
route_in [] q = none
route_in (put p ∷ log) q = if p.nlri == q then some (length log, p) else route_in log q
route_in (drop n ∷ log) q = if n == q then none else route_in log q

-- the path that was added with a UUID
unfoldable pub path_with : List Event → Uuid → Option BgpPath
path_with [] u = none
path_with (put p ∷ log) u = if nat_eq u (length log) then some p else path_with log u
path_with (drop n ∷ log) u = if nat_eq u (length log) then none else path_with log u

unfoldable pub has_uuid : Uuid → Option (Uuid × BgpPath) → Bool
has_uuid u none = false
has_uuid u (some (v, p)) = nat_eq u v

-- the deletion of a path, if it is still the route of its NLRI
unfoldable pub drop_path : List Event → Uuid → BgpPath → List Event × Bool
unfolding has_uuid
drop_path log u p =
    if has_uuid u (route_in log p.nlri) then (drop p.nlri ∷ log, true) else (log, false)

unfoldable pub drop_uuid : List Event → Uuid → List Event × Bool
unfolding drop_path
drop_uuid log u = elim (path_with log u) [ none ↦ (log, false) | some p ↦ drop_path log u p ]

abbrev pub issued_in : List Event → Uuid → Bool
issued_in log u = ltb u (length log)

pub route_in-issued :
    (log : List Event) (q : String) (u : Uuid) (p : BgpPath)
    → route_in log q ≡ some (u, p)
    → issued_in log u ≡ true
unfolding route_in
route_in-issued [] q u p h = cc
route_in-issued (put b ∷ log) q u p h = ground (arith, route_in-issued log q u p)
route_in-issued (drop n ∷ log) q u p h = ground (arith, route_in-issued log q u p)

route_in-path :
    (log : List Event) (q : String) (u : Uuid) (p : BgpPath)
    → route_in log q ≡ some (u, p)
    → (path_with log u ≡ some p) × (p.nlri ≡ q)
unfolding route_in path_with
route_in-path [] q u p h = cc
route_in-path (put b ∷ log) q u p h =
    ground (arith, route_in-path log q u p, route_in-issued log q u p, eq_iff b.nlri q)
route_in-path (drop n ∷ log) q u p h =
    ground (arith, route_in-path log q u p, route_in-issued log q u p)

pub drop_uuid-found :
    (log : List Event) (u : Uuid)
    → (drop_uuid log u).1 ≡ true
    → (q : String) × (p : BgpPath) × (route_in log q ≡ some (u, p))
unfolding drop_uuid
drop_uuid-found log u ok = elim (Option-cases (path_with log u)) [
  | inl gone ↦ absurd (ground arith)
  | inr (p, there) ↦ elim (Option-cases (route_in log p.nlri)) [
    | inl none_left ↦ absurd (ground arith)
    | inr ((v, b), left) ↦ (p.nlri, b, ground arith)
  ]
]

pub drop_uuid-removes :
    (log : List Event) (u : Uuid) (q : String)
    → (drop_uuid log u).1 ≡ true
    → route_in (drop_uuid log u).0 q ≡ without_uuid u (route_in log q)
unfolding drop_uuid route_in
drop_uuid-removes log u q ok = elim (Option-cases (path_with log u)) [
  | inl gone ↦ absurd (ground arith)
  | inr (p, there) ↦ elim (Option-cases (route_in log q)) [
    | inl none_left ↦ ground arith
    | inr ((v, b), left) ↦
        ground (arith, route_in-path log q v b left, eq_iff p.nlri q, nat_eq-eq u v)
  ]
]

pub drop_uuid-keeps :
    (log : List Event) (u : Uuid) (q : String)
    → (drop_uuid log u).1 ≡ false
    → route_in (drop_uuid log u).0 q ≡ route_in log q
unfolding drop_uuid
drop_uuid-keeps log u q bad = ground arith

pub drop_uuid-remembers :
    (log : List Event) (u v : Uuid)
    → issued_in log v ≡ true
    → issued_in (drop_uuid log u).0 v ≡ true
unfolding drop_uuid
drop_uuid-remembers log u v h = ground arith

pub put_event-installs :
    (log : List Event) (p : BgpPath) (u : Uuid)
    → added (length log) ≡ added u
    → route_in (put p ∷ log) p.nlri ≡ some (u, p)
unfolding route_in
put_event-installs log p u e = ground (arith, eq_refl p.nlri)

pub drop_event-removes : (log : List Event) (n : String) → route_in (drop n ∷ log) n ≡ none
unfolding route_in
drop_event-removes log n = ground (arith, eq_refl n)

pub event-leaves :
    (log : List Event) (p : BgpPath) (q : String)
    → (p.nlri == q) ≡ false
    → (route_in (put p ∷ log) q ≡ route_in log q)
      × (route_in (drop p.nlri ∷ log) q ≡ route_in log q)
unfolding route_in
event-leaves log p q other = ground arith

pub fresh :
    (log : List Event) (u : Uuid)
    → added (length log) ≡ added u
    → (issued_in log u ≡ false) × (ltb u (suc (length log)) ≡ true)
fresh log u e = ground arith

pub issued_later :
    (log : List Event) (u : Uuid) → issued_in log u ≡ true → ltb u (suc (length log)) ≡ true
issued_later log u h = ground arith

pub kept_when_false :
    (log log' : List Event) (q : String) → true ≡ false → route_in log' q ≡ route_in log q
kept_when_false log log' q bad = cc

abbrev pub server : Gobgp (List Event)
server = record {
  nlri_builds = λ s. true;
  next_hop_builds = λ s. true;
  add_path = λ log p. (put p ∷ log, added (length log));
  delete_uuid = drop_uuid;
  delete_path = λ log p. (drop p.nlri ∷ log, true);
  route = route_in;
  issued = issued_in;
  add_installs = put_event-installs;
  add_leaves = λ log p q other. (event-leaves log p q other).0;
  add_fresh = λ log p u e. (fresh log u e).0;
  add_issues = λ log p u e. (fresh log u e).1;
  add_remembers = λ log p u h. issued_later log u h;
  add_keeps = λ log p h. absurd (h (length log) refl);
  route_issued = route_in-issued;
  uuid_found = drop_uuid-found;
  uuid_removes = drop_uuid-removes;
  uuid_keeps = drop_uuid-keeps;
  uuid_remembers = drop_uuid-remembers;
  path_removes = λ log p ok. drop_event-removes log p.nlri;
  path_leaves = λ log p q other. (event-leaves log p q other).1;
  path_keeps = λ log p q bad. kept_when_false log (drop p.nlri ∷ log) q bad;
  path_remembers = λ log p v h. issued_later log v h;
}
