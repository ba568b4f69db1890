-- ===== src/Bgp/Accepted.antt =====
-- The routes of an accepted config are within what the BGP manager can originate.
use pathosd.Common.{
  ℕ, suc, ◌+◌, ◌*◌, ◌%◌, ◌^◌, ◌<◌, String, ◌≡◌, refl, ap, false, some, List, [], ◌∷◌, All, length,
  codes, parse_uint16, split_colon, arith, Option-cases, inl, inr,
}
use pathosd.Common.Int.{pos, ◌≤ℤ◌}
use pathosd.Config.Stdlib.{Stdlib}
use pathosd.Config.Vip.{VipConfig, Config}
use pathosd.Config.ChecksPolicy.{ExprLang}
use pathosd.Config.Validate.Report.{concat-none, append-none, at_index}
use pathosd.Config.Validate.Policy.{is_bad_half, is_bad_community}
use pathosd.Config.Validate.Vips.{validate_vip_rest, validate_vip, validate_vips}
use pathosd.Config.Validate.Sections.{validate}
use pathosd.Model.State.{VipState, RouteAttrs}
use pathosd.Policy.Engine.{route_attrs_for}
use pathosd.Policy.Engine.Accepted.{AreGood, route_attrs_for-Within}
use pathosd.Bgp.Communities.{
  parse_community, cons_community, parse_communities, parse_community-halves,
}

halves_of_good :
    (c : String)
    → is_bad_community c ≡ false
    → (a : List ℕ) × (b : List ℕ) × (split_colon (codes c) ≡ some (a, b))
      × (is_bad_half a ≡ false)
      × (is_bad_half b ≡ false)
unfolding is_bad_community
halves_of_good c h = elim (Option-cases (split_colon (codes c))) [
  | inl bad ↦ absurd (ground arith)
  | inr ((a, b), good) ↦ (a, b, good, ground arith, ground arith)
]

value_of_good : (part : List ℕ) → is_bad_half part ≡ false → (n : ℕ) × (parse_uint16 part ≡ some n)
unfolding is_bad_half
value_of_good part h = elim (Option-cases (parse_uint16 part)) [
  | inl bad ↦ absurd (ground arith)
  | inr good ↦ good
]

parse_community_of_good :
    (c : String)
    → is_bad_community c ≡ false
    → (n : ℕ) × (parse_community c ≡ some n) × (n < 2 ^ 32)
parse_community_of_good c h =
    let (a, b, split, p, q) = halves_of_good c h in
    let (high, e) = value_of_good a p in
    let (low, f) = value_of_good b q in
    ((high * 2 ^ 16 + low) % 2 ^ 32, parse_community-halves c a b high low split e f, omega arith)

-- the numbers that parseCommunities reads: as many as there are texts, each of 32 bits
pub record Parsed (cs : List String) : Type 0 where
  pub numbers : List ℕ
  pub parsed : parse_communities cs ≡ some numbers
  pub as_many : length numbers ≡ length cs
  pub bounded : All (λ n. n < 2 ^ 32) numbers

parse_communities_of_good : (cs : List String) → AreGood cs → Parsed cs
unfolding parse_communities cons_community
parse_communities_of_good [] h = record {
  numbers = [];
  parsed = refl;
  as_many = refl;
  bounded = tt;
}
parse_communities_of_good (c ∷ cs) (h, hs) =
    let (n, e, lt) = parse_community_of_good c h in
    let rest = parse_communities_of_good cs hs in
    record {
      numbers = n ∷ rest.numbers;
      parsed = rw (e, rest.parsed) refl;
      as_many = ap suc rest.as_many;
      bounded = (lt, rest.bounded);
    }

-- what the BGP manager can originate: up to 32 prepends, and communities that it reads
pub record CanOriginate (a : RouteAttrs) : Type 0 where
  pub above : pos 0 ≤ℤ a.as_path_prepend
  pub below : a.as_path_prepend ≤ℤ pos 32
  pub communities : Parsed a.communities

module _ {P : Type 0} (lang : ExprLang P) (std : Stdlib) where
  vip-CanOriginate :
      (prefix : String) (v : VipConfig)
      → validate_vip_rest lang std prefix v ≡ []
      → (st : VipState) → CanOriginate (route_attrs_for v.policy st)
  unfolding validate_vip_rest
  vip-CanOriginate prefix v h st =
      let w = route_attrs_for-Within _ v.policy st (concat-none _ h).1.1.1.1.0 in
      record { above = w.above; below = w.below; communities = parse_communities_of_good _ w.good }

  vips-CanOriginate :
      (i : ℕ) (names prefixes : List String) (vips : List VipConfig)
      → validate_vips lang std i names prefixes vips ≡ []
      → All (λ v. (st : VipState) → CanOriginate (route_attrs_for v.policy st)) vips
  unfolding validate_vips validate_vip
  vips-CanOriginate i names prefixes [] h = tt
  vips-CanOriginate i names prefixes (v ∷ vips) h =
      let (here, later) = append-none _ _ h in
      let rest = (append-none _ _ (append-none _ _ here).1).1 in
      (vip-CanOriginate (at_index "vips" i) v rest, vips-CanOriginate (suc i) _ _ vips later)

  -- Each VIP of a config that Validate accepts has, in every state, attributes that can be originated:
  -- from 0 to 32 prepends, and communities that parseCommunities reads, all of them, as 32-bit numbers.
  pub validate-CanOriginate :
      (cfg : Config)
      → validate std lang cfg ≡ []
      → All (λ v. (st : VipState) → CanOriginate (route_attrs_for v.policy st)) cfg.vips
  unfolding validate
  validate-CanOriginate cfg h = vips-CanOriginate 0 [] [] cfg.vips ((concat-none _ h).1.1.1.1.1.1.0)
