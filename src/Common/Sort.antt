-- ===== src/Common/Sort.antt =====
-- Sorted lists of texts.
use Prim.Native.Nat.{ℕ, zero, suc, Ordering, compare as compare_ℕ}
use Prim.Native.Nat.compare as compare_ℕ
use Prim.Native.Char.{code}
use Prim.Native.String.{String, compare, then as and_then}
use Prim.Native.String.compare
use mathlib.Core.Path.{◌≡◌, refl, sym, ap, ◌∙◌}
use mathlib.Core.Bool.{Bool, true, false, not, ◌&&◌}
use mathlib.Core.Logic.{inl, inr}
use mathlib.Core.List.{List, [], ◌∷◌}
use native.Mathlib.Omega.{arith}
use pathosd.Common.Tests.{if◌then◌else◌, Bool-cases}

-- a < b, of the bytes of two texts
unfoldable pub is_before : String → String → Bool
is_before a b = elim (compare a b) [
  | Ordering.lt ↦ true
  | Ordering.eq ↦ false
  | Ordering.gt ↦ false
]

unfoldable pub insert_sorted : String → List String → List String
unfolding is_before
insert_sorted name [] = name ∷ []
insert_sorted name (n ∷ names) =
    let rest = insert_sorted name names in if is_before n name then n ∷ rest else name ∷ n ∷ names

-- slices.Sorted
unfoldable pub sorted : List String → List String
unfolding insert_sorted
sorted [] = []
sorted (name ∷ names) = insert_sorted name (sorted names)

abbrev flip : Ordering → Ordering
flip Ordering.lt = Ordering.gt
flip Ordering.eq = Ordering.eq
flip Ordering.gt = Ordering.lt

compare_ℕ-flip : (m n : ℕ) → compare_ℕ n m ≡ flip (compare_ℕ m n)
compare_ℕ-flip zero zero = compare_ℕ.zero-zero ∙ ap flip (sym compare_ℕ.zero-zero)
compare_ℕ-flip zero (suc n) = compare_ℕ.suc-zero n ∙ ap flip (sym (compare_ℕ.zero-suc n))
compare_ℕ-flip (suc m) zero = compare_ℕ.zero-suc m ∙ ap flip (sym (compare_ℕ.suc-zero m))
compare_ℕ-flip (suc m) (suc n) =
    compare_ℕ.suc-suc n m ∙ compare_ℕ-flip m n ∙ ap flip (sym (compare_ℕ.suc-suc m n))

and_then-flip : (o r : Ordering) → and_then (flip o) (flip r) ≡ flip (and_then o r)
and_then-flip Ordering.lt r = refl
and_then-flip Ordering.eq r = refl
and_then-flip Ordering.gt r = refl

compare-flip : (s t : String) → compare t s ≡ flip (compare s t)
compare-flip String.[] String.[] = compare.nil-nil ∙ ap flip (sym compare.nil-nil)
compare-flip String.[] (String.◌∷◌ d t) =
    compare.cons-nil d t ∙ ap flip (sym (compare.nil-cons d t))
compare-flip (String.◌∷◌ c s) String.[] =
    compare.nil-cons c s ∙ ap flip (sym (compare.cons-nil c s))
compare-flip (String.◌∷◌ c s) (String.◌∷◌ d t) =
    rw
      (
        compare.cons-cons d c t s,
        compare.cons-cons c d s t,
        compare_ℕ-flip (code c) (code d),
        compare-flip s t,
      )
      (and_then-flip (compare_ℕ (code c) (code d)) (compare s t))

is_before_asym : (s t : String) → is_before s t ≡ true → is_before t s ≡ false
unfolding is_before
is_before_asym s t h = go (compare s t) (compare t s) (compare-flip s t) h
  where
    go :
        (o r : Ordering)
        → r ≡ flip o
        → elim o as (λ _. Bool) [ Ordering.lt ↦ true | Ordering.eq ↦ false | Ordering.gt ↦ false ]
          ≡ true
        → elim r as (λ _. Bool) [ Ordering.lt ↦ true | Ordering.eq ↦ false | Ordering.gt ↦ false ]
          ≡ false
    go Ordering.lt r e h = rw e refl
    go Ordering.eq r e h = cc
    go Ordering.gt r e h = cc

-- no text stands behind one that should follow it
abbrev pub is_ascending_from : String → List String → Bool
is_ascending_from s [] = true
is_ascending_from s (t ∷ ts) = not (is_before t s) && is_ascending_from t ts

abbrev pub is_ascending : List String → Bool
is_ascending [] = true
is_ascending (s ∷ ts) = is_ascending_from s ts

insert_ascending_from :
    (s name : String) (ts : List String)
    → is_before name s ≡ false
    → is_ascending_from s ts ≡ true
    → is_ascending_from s (insert_sorted name ts) ≡ true
unfolding insert_sorted
insert_ascending_from s name [] h a = rw h refl
insert_ascending_from s name (t ∷ ts) h a = elim (Bool-cases (is_before t name)) [
  | inl before ↦ ground (arith, insert_ascending_from t name ts (is_before_asym t name before))
  | inr not_before ↦ ground arith
]

insert_ascending :
    (name : String) (ts : List String)
    → is_ascending ts ≡ true
    → is_ascending (insert_sorted name ts) ≡ true
unfolding insert_sorted
insert_ascending name [] a = refl
insert_ascending name (t ∷ ts) a = elim (Bool-cases (is_before t name)) [
  | inl before ↦ ground (arith, insert_ascending_from t name ts (is_before_asym t name before) a)
  | inr not_before ↦ ground arith
]

pub sorted-ascending : (names : List String) → is_ascending (sorted names) ≡ true
unfolding sorted
sorted-ascending [] = refl
sorted-ascending (name ∷ names) = insert_ascending name (sorted names) (sorted-ascending names)
