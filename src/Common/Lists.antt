-- ===== src/Common/Lists.antt =====
-- Lists measured by native numbers, and membership of texts, under the library's names.
use Prim.Native.Nat.{ℕ, zero, suc, ◌+◌}
use Prim.Native.String.{String}
use mathlib.Core.Path.{◌≡◌, refl, ap}
use mathlib.Core.Bool.{Bool, true, false, not, ◌&&◌, ◌||◌}
use mathlib.Core.Option.{Option, none, some}
use mathlib.Core.List.{List, [], ◌∷◌, ◌++◌}
use native.Mathlib.Omega.{arith}
use text.Mathlib.Text.{◌==◌}
use text.Mathlib.TextEquality.{eq_iff}
use pathosd.Common.Tests.{if◌then◌else◌}

module _ {ℓ} {A : Type ℓ} where
  abbrev pub length : List A → ℕ
  length [] = 0
  length (x ∷ xs) = suc (length xs)

  abbrev pub replicate : ℕ → A → List A
  replicate zero a = []
  replicate (suc n) a = a ∷ replicate n a

  abbrev pub is_empty : List A → Bool
  is_empty [] = true
  is_empty (x ∷ xs) = false

  abbrev pub get_or : Option A → A → A
  get_or none d = d
  get_or (some a) d = a

  pub is_empty-nil : (xs : List A) → is_empty xs ≡ true → xs ≡ []
  is_empty-nil [] h = refl
  is_empty-nil (x ∷ xs) h = cc

  pub length-append : (xs ys : List A) → length (xs ++ ys) ≡ length xs + length ys
  length-append [] ys = omega arith
  length-append (x ∷ xs) ys = omega (arith, length-append xs ys)

  pub length-replicate : (n : ℕ) (a : A) → length (replicate n a) ≡ n
  length-replicate zero a = refl
  length-replicate (suc n) a = ap suc (length-replicate n a)

-- A predicate of every element.
abbrev pub All {ℓ κ} : {A : Type ℓ} → (A → Type κ) → List A → Type κ
All P [] = Unit
All P (x ∷ xs) = P x × All P xs

-- slices.Contains on texts
unfoldable pub contains : String → List String → Bool
contains s [] = false
contains s (t ∷ ts) = t == s || contains s ts

-- Deletes the first occurrence: slices.Index with slices.Delete.
unfoldable pub delete_first : String → List String → List String
delete_first s [] = []
delete_first s (t ∷ ts) = if t == s then ts else t ∷ delete_first s ts

pub contains-append :
    (s : String) (xs ys : List String) → contains s (xs ++ ys) ≡ (contains s xs || contains s ys)
unfolding contains
contains-append s [] ys = refl
contains-append s (x ∷ xs) ys = ground (arith, contains-append s xs ys)

-- No text stands twice in the list.
abbrev pub is_distinct : List String → Bool
is_distinct [] = true
is_distinct (c ∷ cs) = not (contains c cs) && is_distinct cs

pub is_distinct-snoc :
    (c : String) (out : List String)
    → is_distinct out ≡ true
    → contains c out ≡ false
    → is_distinct (out ++ c ∷ []) ≡ true
unfolding contains
is_distinct-snoc c [] d n = refl
is_distinct-snoc c (x ∷ out) d n =
    ground (arith, is_distinct-snoc c out, contains-append x out (c ∷ []), eq_iff c x, eq_iff x c)
