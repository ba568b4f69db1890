-- ===== src/Bgp/Communities.antt =====
-- Communities as numbers: parseCommunities (internal/bgp/manager.go) and stringifyCommunities
-- (internal/bgp/route_state_metrics.go).
use pathosd.Common.{
  ℕ, ◌+◌, ◌*◌, ◌/◌, ◌%◌, ◌^◌, ◌<◌, String, ◌≡◌, refl, Option, none, some, List, [], ◌∷◌, map, All,
  codes, parse_uint16, split_colon, print_nat, arith, parse_uint16-print_nat, split_colon-print_nat,
  ap, ◌∙◌, true, false, is_empty, if◌then◌else◌, Bool-cases, inl, inr, has_code, has_code-print_nat,
  join, is_before, insert_sorted, sorted, is_ascending, sorted-ascending, split_commas,
  split_commas-join, sym,
}
use mathlib.Core.List.{Perm, cons≢nil}
use mathlib.Core.List.Perm as Perm
use Prim.Native.String as NativeString

-- `uint32(high<<16|low)` of two halves that have been read; the low half has 16 bits, so `|` adds
unfoldable pub join_halves : Option ℕ → Option ℕ → Option ℕ
join_halves (some high) (some low) = some ((high * 2 ^ 16 + low) % 2 ^ 32)
join_halves _ _ = none

-- one round of the loop of parseCommunities; `none` is an error
unfoldable pub parse_community : String → Option ℕ
unfolding join_halves
parse_community s = elim (split_colon (codes s)) [
  | none ↦ none
  | some (high, low) ↦ join_halves (parse_uint16 high) (parse_uint16 low)
]

unfoldable pub cons_community : Option ℕ → Option (List ℕ) → Option (List ℕ)
cons_community (some c) (some rest) = some (c ∷ rest)
cons_community _ _ = none

-- func parseCommunities
unfoldable pub parse_communities : List String → Option (List ℕ)
unfolding parse_community cons_community
parse_communities [] = some []
parse_communities (s ∷ strs) = cons_community (parse_community s) (parse_communities strs)

-- `fmt.Sprintf("%d:%d", high, low)` in the loop of stringifyCommunities
unfoldable pub print_community : ℕ → String
print_community c = print_nat (c / 2 ^ 16) (NativeString.◌∷◌ ":" (print_nat (c % 2 ^ 16) ""))

-- func stringifyCommunities; the loop is the `map`
unfoldable pub stringify_communities : List ℕ → String
stringify_communities comms =
    if is_empty comms then "" else join "," (sorted (map print_community comms))

pub parse_community-halves :
    (s : String) (a b : List ℕ) (high low : ℕ)
    → split_colon (codes s) ≡ some (a, b)
    → parse_uint16 a ≡ some high
    → parse_uint16 b ≡ some low
    → parse_community s ≡ some ((high * 2 ^ 16 + low) % 2 ^ 32)
unfolding parse_community
parse_community-halves s a b high low h p q = ground arith

halves : (c : ℕ) → c < 2 ^ 32 → (c / 2 ^ 16 * 2 ^ 16 + c % 2 ^ 16) % 2 ^ 32 ≡ c
halves c h = omega arith

parse-print_community : (c : ℕ) → c < 2 ^ 32 → parse_community (print_community c) ≡ some c
unfolding print_community
parse-print_community c h =
    parse_community-halves _ _ _ _ _
      (split_colon-print_nat (c / 2 ^ 16) (print_nat (c % 2 ^ 16) ""))
      (parse_uint16-print_nat (c / 2 ^ 16) (omega arith))
      (parse_uint16-print_nat (c % 2 ^ 16) (omega arith))
    ∙ ap some (halves c h)

parse-print_communities :
    (comms : List ℕ)
    → All (λ c. c < 2 ^ 32) comms
    → parse_communities (map print_community comms) ≡ some comms
unfolding parse_communities
parse-print_communities [] h = refl
parse-print_communities (c ∷ comms) (h, hs) =
    rw (parse-print_community c h, parse-print_communities comms hs) refl

has_comma-print_community : (c : ℕ) → has_code b',' (print_community c) ≡ false
unfolding print_community has_code
has_comma-print_community c =
    has_code-print_nat b',' (c / 2 ^ 16) _ (omega arith)
    ∙ has_code-print_nat b',' (c % 2 ^ 16) "" (omega arith)

has_comma-print_communities :
    (comms : List ℕ) → All (λ t. has_code b',' t ≡ false) (map print_community comms)
has_comma-print_communities [] = tt
has_comma-print_communities (c ∷ comms) =
    (has_comma-print_community c, has_comma-print_communities comms)

-- What a list of texts prints: a rearrangement of 32-bit communities.
abbrev Prints : List ℕ → List String → Type 0
Prints comms texts =
    (ds : List ℕ) × (texts ≡ map print_community ds) × Perm comms ds × All (λ c. c < 2 ^ 32) ds

insert_sorted-Prints :
    (c : ℕ) (ds : List ℕ)
    → c < 2 ^ 32
    → All (λ c. c < 2 ^ 32) ds
    → Prints (c ∷ ds) (insert_sorted (print_community c) (map print_community ds))
unfolding insert_sorted
insert_sorted-Prints c [] h hs = (c ∷ [], refl, Perm.refl (c ∷ []), (h, tt))
insert_sorted-Prints c (d ∷ ds) h (g, hs) =
    let (es, e, p, all) = insert_sorted-Prints c ds h hs in
    elim (Bool-cases (is_before (print_community d) (print_community c))) [
      | inl before ↦
          (d ∷ es, rw (before, e) refl, Perm.trans (Perm.swap d c ds) (Perm.cons d p), (g, all))
      | inr not_before ↦ (c ∷ d ∷ ds, rw not_before refl, Perm.refl (c ∷ d ∷ ds), (h, (g, hs)))
    ]

sorted-Prints :
    (comms : List ℕ)
    → All (λ c. c < 2 ^ 32) comms
    → Prints comms (sorted (map print_community comms))
unfolding sorted
sorted-Prints [] h = ([], refl, Perm.refl [], tt)
sorted-Prints (c ∷ comms) (h, hs) =
    let (ds, e, p, all) = sorted-Prints comms hs in
    let (es, f, q, every) = insert_sorted-Prints c ds h all in
    (es, rw e f, Perm.trans (Perm.cons c p) q, every)

split_commas-printed :
    (ds comms : List ℕ) (c : ℕ)
    → Perm (c ∷ comms) ds
    → split_commas (join "," (map print_community ds)) ≡ map print_community ds
split_commas-printed [] comms c p = absurd (cons≢nil (Perm.eq-nil p))
split_commas-printed (d ∷ ds) comms c p =
    split_commas-join (print_community d) (map print_community ds)
      (has_comma-print_communities (d ∷ ds))

-- The text that stringifyCommunities makes of 32-bit communities, at least one, is a row of texts
-- with commas between them. The texts are in ascending order, and parseCommunities reads the same
-- communities from them, each as often as it stood in the list, in an order that may differ.
pub parse-stringify_communities :
    (c : ℕ) (comms : List ℕ)
    → All (λ c. c < 2 ^ 32) (c ∷ comms)
    → (is_ascending (split_commas (stringify_communities (c ∷ comms))) ≡ true)
      × (ds : List ℕ) × (parse_communities (split_commas (stringify_communities (c ∷ comms)))
          ≡ some ds)
      × Perm (c ∷ comms) ds
unfolding stringify_communities
parse-stringify_communities c comms h =
    let (ds, e, p, all) = sorted-Prints (c ∷ comms) h in
    let ascending = sorted-ascending (map print_community (c ∷ comms)) in
    rw (e, split_commas-printed ds comms c p)
      (rw (sym e) ascending, ds, parse-print_communities ds all, p)
