-- ===== src/Bgp/Gobgp.antt =====
-- The embedded GoBGP server (github.com/osrg/gobgp), as far as the BGP manager calls it: a parameter, with
-- the behaviour that the manager relies on. `S` is the state of a server.
use pathosd.Common.{
  ℕ, String, ◌≡◌, Bool, true, false, Option, none, some, List, ◌==◌, nat_eq, if◌then◌else◌,
}

-- bgppacket.Family, of the two that are used
pub data Family : Type 0 where
  ipv4_unicast ipv6_unicast : Family

-- *apiutil.Path: its family, the text of its NLRI, and its attributes
pub record BgpPath : Type 0 where
  pub family : Family
  pub nlri : String
  pub next_hop : String
  pub as_path : List ℕ
  pub communities : List ℕ

-- uuid.UUID
abbrev pub Uuid : Type 0
Uuid = ℕ

-- What AddPath gives for one path: the UUID, or an error, no response, or a response with an error.
pub data AddReply : Type 0 where
  added : Uuid → AddReply
  refused no_response path_error : AddReply

-- what is left of a route when the path of a UUID is gone
abbrev pub without_uuid : Uuid → Option (Uuid × BgpPath) → Option (Uuid × BgpPath)
without_uuid u none = none
without_uuid u (some (v, path)) = if nat_eq u v then none else some (v, path)

pub record Gobgp (S : Type 0) : Type 0 where
  -- bgppacket.NewIPAddrPrefix and NewPathAttributeNextHop have no error
  pub nlri_builds : String → Bool
  pub next_hop_builds : String → Bool
  pub add_path : S → BgpPath → S × AddReply
  -- DeletePath by UUID, and by path; the Boolean is whether the error is nil
  pub delete_uuid : S → Uuid → S × Bool
  pub delete_path : S → BgpPath → S × Bool
  -- the local route of an NLRI, and whether a UUID has been given out
  pub route : S → String → Option (Uuid × BgpPath)
  pub issued : S → Uuid → Bool
  -- a path that is added replaces the one of its NLRI, and has a new UUID
  pub add_installs :
      (s : S) (p : BgpPath) (u : Uuid)
      → (add_path s p).1 ≡ added u
      → route (add_path s p).0 p.nlri ≡ some (u, p)
  pub add_leaves :
      (s : S) (p : BgpPath) (q : String)
      → (p.nlri == q) ≡ false
      → route (add_path s p).0 q ≡ route s q
  pub add_fresh : (s : S) (p : BgpPath) (u : Uuid) → (add_path s p).1 ≡ added u → issued s u ≡ false
  pub add_issues :
      (s : S) (p : BgpPath) (u : Uuid)
      → (add_path s p).1 ≡ added u
      → issued (add_path s p).0 u ≡ true
  pub add_remembers :
      (s : S) (p : BgpPath) (u : Uuid) → issued s u ≡ true → issued (add_path s p).0 u ≡ true
  -- a path that is not added leaves its NLRI alone too
  pub add_keeps :
      (s : S) (p : BgpPath)
      → ((u : Uuid) → (add_path s p).1 ≡ added u → ⊥)
      → route (add_path s p).0 p.nlri ≡ route s p.nlri
  pub route_issued :
      (s : S) (q : String) (u : Uuid) (p : BgpPath) → route s q ≡ some (u, p) → issued s u ≡ true
  -- a deletion by UUID finds the path, or it fails and changes nothing
  pub uuid_found :
      (s : S) (u : Uuid)
      → (delete_uuid s u).1 ≡ true
      → (q : String) × (p : BgpPath) × (route s q ≡ some (u, p))
  pub uuid_removes :
      (s : S) (u : Uuid) (q : String)
      → (delete_uuid s u).1 ≡ true
      → route (delete_uuid s u).0 q ≡ without_uuid u (route s q)
  pub uuid_keeps :
      (s : S) (u : Uuid) (q : String)
      → (delete_uuid s u).1 ≡ false
      → route (delete_uuid s u).0 q ≡ route s q
  pub uuid_remembers :
      (s : S) (u v : Uuid) → issued s v ≡ true → issued (delete_uuid s u).0 v ≡ true
  pub path_removes :
      (s : S) (p : BgpPath) → (delete_path s p).1 ≡ true → route (delete_path s p).0 p.nlri ≡ none
  pub path_leaves :
      (s : S) (p : BgpPath) (q : String)
      → (p.nlri == q) ≡ false
      → route (delete_path s p).0 q ≡ route s q
  pub path_keeps :
      (s : S) (p : BgpPath) (q : String)
      → (delete_path s p).1 ≡ false
      → route (delete_path s p).0 q ≡ route s q
  pub path_remembers :
      (s : S) (p : BgpPath) (v : Uuid) → issued s v ≡ true → issued (delete_path s p).0 v ≡ true
