-- ===== src/Config/Validate/Distinct.antt =====
-- An accepted config has no two VIPs of one name or of one network.
use pathosd.Common.{
  ℕ, suc, String, append, ◌≡◌, refl, Bool, true, false, not, none, some, List, [], ◌∷◌, map, ◌&&◌,
  ◌==◌, contains, is_distinct, All, arith, eq_iff, Bool-cases, inl, inr,
}
use pathosd.Config.Stdlib.{Stdlib}
use pathosd.Config.Vip.{VipConfig, Config}
use pathosd.Config.ChecksPolicy.{ExprLang}
use pathosd.Config.Validate.Report.{at_index, concat-none, append-none}
use pathosd.Config.Validate.Vips.{validate_name, validate_prefix, validate_vip, validate_vips}
use pathosd.Config.Validate.Sections.{validate}

-- the network of a prefix, or the empty text if it does not parse
unfoldable pub network : Stdlib → String → String
network std prefix = elim (std.parse_cidr prefix) [ none ↦ "" | some c ↦ c.network ]

-- net.ParseCIDR has no error
unfoldable pub is_cidr : Stdlib → String → Bool
is_cidr std prefix = elim (std.parse_cidr prefix) [ none ↦ false | some c ↦ true ]

-- each key is new: neither among those seen, nor among those before it
unfoldable pub all_new : List String → List String → Bool
all_new seen [] = true
all_new seen (k ∷ ks) = not (contains k seen) && all_new (k ∷ seen) ks

pub all_new-mem :
    (x : String) (seen ks : List String)
    → all_new seen ks ≡ true
    → contains x seen ≡ true
    → contains x ks ≡ false
unfolding all_new contains
all_new-mem x seen [] h m = refl
all_new-mem x seen (k ∷ ks) h m = elim (Bool-cases (k == x)) [
  | inl same ↦ ground (arith, eq_iff k x)
  | inr other ↦ ground (arith, all_new-mem x (k ∷ seen) ks)
]

pub all_new-is_distinct : (seen ks : List String) → all_new seen ks ≡ true → is_distinct ks ≡ true
unfolding all_new contains
all_new-is_distinct seen [] h = refl
all_new-is_distinct seen (k ∷ ks) h =
    ground (arith, all_new-mem k (k ∷ seen) ks, all_new-is_distinct (k ∷ seen) ks, eq_iff k k)

module _ {P : Type 0} (lang : ExprLang P) (std : Stdlib) where
  validate_name-new :
      (path name : String) (names : List String)
      → (validate_name lang std path name names).0 ≡ []
      → (contains name names ≡ false) × ((validate_name lang std path name names).1 ≡ name ∷ names)
  unfolding validate_name
  validate_name-new path name names h = ground arith

  validate_prefix-new :
      (path prefix : String) (seen : List String)
      → (validate_prefix lang std path prefix seen).0 ≡ []
      → (contains (network std prefix) seen ≡ false)
        × ((validate_prefix lang std path prefix seen).1 ≡ network std prefix ∷ seen)
        × (is_cidr std prefix ≡ true)
  unfolding validate_prefix network is_cidr
  validate_prefix-new path prefix seen h = ground arith

  validate_vips-all_new :
      (i : ℕ) (names prefixes : List String) (vips : List VipConfig)
      → validate_vips lang std i names prefixes vips ≡ []
      → (all_new names (map VipConfig.name vips) ≡ true)
        × (all_new prefixes (map (λ v. network std v.prefix) vips) ≡ true)
        × All (λ v. is_cidr std v.prefix ≡ true) vips
  unfolding validate_vips validate_vip all_new
  validate_vips-all_new i names prefixes [] h = (refl, refl, tt)
  validate_vips-all_new i names prefixes (v ∷ vips) h =
      let path = at_index "vips" i in
      let (here, later) = append-none _ _ h in
      let (a, b) = append-none _ _ here in
      let (c, d) = append-none _ _ b in
      let (fresh, names') = validate_name-new (append path ".name") v.name names a in
      let (fresh', prefixes', good) =
        validate_prefix-new (append path ".prefix") v.prefix prefixes c in
      let (e, f, g) =
        validate_vips-all_new (suc i) (v.name ∷ names) (network std v.prefix ∷ prefixes) vips
          (rw (← names', ← prefixes') later) in
      (rw (fresh, e) refl, rw (fresh', f) refl, (good, g))

  -- Of a config that Validate accepts, no two VIPs have one name, the prefix of each VIP is a CIDR
  -- prefix, and no two VIPs have one network.
  pub validate-is_distinct :
      (cfg : Config)
      → validate std lang cfg ≡ []
      → (is_distinct (map VipConfig.name cfg.vips) ≡ true)
        × (is_distinct (map (λ v. network std v.prefix) cfg.vips) ≡ true)
        × All (λ v. is_cidr std v.prefix ≡ true) cfg.vips
  unfolding validate
  validate-is_distinct cfg h =
      let vips = (concat-none _ h).1.1.1.1.1.1.0 in
      let (names, networks, good) = validate_vips-all_new 0 [] [] cfg.vips vips in
      (all_new-is_distinct [] _ names, all_new-is_distinct [] _ networks, good)
