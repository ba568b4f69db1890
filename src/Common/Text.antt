-- ===== src/Common/Text.antt =====
-- What the source uses of Go's `strings`, `strconv` and `fmt`, over the code points of a text.
use Prim.Native.Nat.{ℕ, zero, suc, ◌+◌, ◌-◌, ◌*◌, ◌/◌, ◌%◌, ◌<◌}
use Prim.Native.Char.{Char, code}
use Prim.Native.String.{String, len, ◌++◌ as append}
use mathlib.Core.Path.{◌≡◌, refl}
use mathlib.Core.Logic.{inl, inr}
use mathlib.Core.Bool.{Bool, false, ◌&&◌, ◌||◌}
use mathlib.Core.Option.{Option, none, some}
use mathlib.Core.List.{List, [], ◌∷◌}
use text.Mathlib.Text.{starts_with}
use native.Mathlib.Omega.{arith}
use pathosd.Common.Tests.{if◌then◌else◌, ltb, leb, nat_eq, Bool-cases}
use pathosd.Common.Lists.{is_empty}

-- The code points of a text.
abbrev pub codes : String → List ℕ
codes String.[] = []
codes (String.◌∷◌ c s) = code c ∷ codes s

-- s[n:]; what is cut off is ASCII, so `n` characters are `n` bytes
unfoldable pub drop_chars : ℕ → String → String
drop_chars zero s = s
drop_chars (suc n) String.[] = String.[]
drop_chars (suc n) (String.◌∷◌ c s) = drop_chars n s

-- strings.ReplaceAll of an `old` that is not empty; the number counts the characters of a match that are
-- still to be skipped
unfoldable pub replace_from : String → String → ℕ → String → String
replace_from old new skip String.[] = String.[]
replace_from old new (suc skip) (String.◌∷◌ c s) = replace_from old new skip s
replace_from old new zero (String.◌∷◌ c s) =
    let found = starts_with (String.◌∷◌ c s) old in
    let rest = replace_from old new (if found then len old - 1 else 0) s in
    if found then append new rest else String.◌∷◌ c rest

unfoldable pub replace_all : String → String → String → String
unfolding replace_from
replace_all old new s = replace_from old new 0 s

unfoldable pub is_digit : ℕ → Bool
is_digit c = leb b'0' c && leb c b'9'

-- the value of the digits behind a number that has been read
unfoldable pub digits_value : ℕ → List ℕ → Option ℕ
unfolding is_digit
digits_value n [] = some n
digits_value n (c ∷ cs) =
    let rest = digits_value (n * 10 + (c - b'0')) cs in if is_digit c then rest else none

unfoldable pub below_65536 : Option ℕ → Option ℕ
below_65536 none = none
below_65536 (some n) = if ltb n 65536 then some n else none

-- strconv.ParseUint(s, 10, 16); `none` is an error
unfoldable pub parse_uint16 : List ℕ → Option ℕ
unfolding digits_value below_65536
parse_uint16 s = if is_empty s then none else below_65536 (digits_value 0 s)

pub parse_uint16-lt : (s : List ℕ) (n : ℕ) → parse_uint16 s ≡ some n → n < 65536
unfolding below_65536 parse_uint16
parse_uint16-lt s n h = ground arith

-- strings.SplitN(s, ":", 2): `none` if there is no colon, and one part
unfoldable pub split_colon : List ℕ → Option (List ℕ × List ℕ)
split_colon [] = none
split_colon (c ∷ cs) =
    let rest = split_colon cs in
    if nat_eq c b':'
    then some ([], cs)
    else elim rest [ none ↦ none | some (a, b) ↦ some (c ∷ a, b) ]

-- the digit of a number below ten
unfoldable pub digit : ℕ → Char
digit zero = "0"
digit (suc zero) = "1"
digit (suc (suc zero)) = "2"
digit (suc (suc (suc zero))) = "3"
digit (suc (suc (suc (suc zero)))) = "4"
digit (suc (suc (suc (suc (suc zero))))) = "5"
digit (suc (suc (suc (suc (suc (suc zero)))))) = "6"
digit (suc (suc (suc (suc (suc (suc (suc zero))))))) = "7"
digit (suc (suc (suc (suc (suc (suc (suc (suc zero)))))))) = "8"
digit (suc (suc (suc (suc (suc (suc (suc (suc (suc n))))))))) = "9"

-- the decimal digits of a number in front of a text; the fuel is no less than the count of digits
unfoldable pub print_digits : ℕ → ℕ → String → String
unfolding digit
print_digits zero n rest = rest
print_digits (suc fuel) n rest =
    let more = print_digits fuel (n / 10) (String.◌∷◌ (digit (n % 10)) rest) in
    if ltb n 10 then String.◌∷◌ (digit n) rest else more

-- the verb %d of fmt.Sprintf, with the text that follows; a number `n` has at most `n + 1` digits
unfoldable pub print_nat : ℕ → String → String
unfolding print_digits
print_nat n rest = print_digits (suc n) n rest

code-digit : (d : ℕ) → d < 10 → code (digit d) ≡ b'0' + d
unfolding digit
code-digit zero h = refl
code-digit (suc zero) h = refl
code-digit (suc (suc zero)) h = refl
code-digit (suc (suc (suc zero))) h = refl
code-digit (suc (suc (suc (suc zero)))) h = refl
code-digit (suc (suc (suc (suc (suc zero))))) h = refl
code-digit (suc (suc (suc (suc (suc (suc zero)))))) h = refl
code-digit (suc (suc (suc (suc (suc (suc (suc zero))))))) h = refl
code-digit (suc (suc (suc (suc (suc (suc (suc (suc zero)))))))) h = refl
code-digit (suc (suc (suc (suc (suc (suc (suc (suc (suc n))))))))) h = omega arith

-- Reading what is printed with a text behind it: the number, in front of that text.
digits_value-print_digits :
    (fuel n : ℕ) (rest : String)
    → n < fuel
    → digits_value 0 (codes (print_digits fuel n rest)) ≡ digits_value n (codes rest)
unfolding print_digits digits_value
digits_value-print_digits zero n rest h = absurd (omega arith)
digits_value-print_digits (suc fuel) n rest h = elim (Bool-cases (ltb n 10)) [
  | inl small ↦ ground (arith, code-digit n)
  | inr large ↦ ground (
    arith,
    code-digit (n % 10),
    digits_value-print_digits fuel (n / 10) (String.◌∷◌ (digit (n % 10)) rest),
  )
]

print_digits-nonempty :
    (fuel n : ℕ) (rest : String)
    → is_empty (codes rest) ≡ false
    → is_empty (codes (print_digits fuel n rest)) ≡ false
unfolding print_digits
print_digits-nonempty zero n rest h = h
print_digits-nonempty (suc fuel) n rest h =
    ground (arith, print_digits-nonempty fuel (n / 10) (String.◌∷◌ (digit (n % 10)) rest))

print_nat-nonempty : (n : ℕ) (rest : String) → is_empty (codes (print_nat n rest)) ≡ false
unfolding print_nat
print_nat-nonempty n rest =
    ground (arith, print_digits-nonempty n (n / 10) (String.◌∷◌ (digit (n % 10)) rest))

digits_value-print_nat : (n : ℕ) → digits_value 0 (codes (print_nat n "")) ≡ some n
unfolding print_nat digits_value
digits_value-print_nat n = digits_value-print_digits (suc n) n "" (omega arith)

pub parse_uint16-print_nat : (n : ℕ) → n < 65536 → parse_uint16 (codes (print_nat n "")) ≡ some n
unfolding parse_uint16 below_65536
parse_uint16-print_nat n h = ground (arith, print_nat-nonempty n "", digits_value-print_nat n)

split_colon-print_digits :
    (fuel n : ℕ) (rest before : String) (after : List ℕ)
    → split_colon (codes rest) ≡ some (codes before, after)
    → split_colon (codes (print_digits fuel n rest))
      ≡ some (codes (print_digits fuel n before), after)
unfolding print_digits split_colon
split_colon-print_digits zero n rest before after h = h
split_colon-print_digits (suc fuel) n rest before after h = elim (Bool-cases (ltb n 10)) [
  | inl small ↦ ground (arith, code-digit n)
  | inr large ↦ ground (
    arith,
    code-digit (n % 10),
    split_colon-print_digits fuel (n / 10) (String.◌∷◌ (digit (n % 10)) rest)
        (String.◌∷◌ (digit (n % 10)) before) after,
  )
]

pub split_colon-print_nat :
    (n : ℕ) (rest : String)
    → split_colon (codes (print_nat n (String.◌∷◌ ":" rest)))
      ≡ some (codes (print_nat n ""), codes rest)
unfolding print_nat split_colon
split_colon-print_nat n rest =
    split_colon-print_digits (suc n) n (String.◌∷◌ ":" rest) "" (codes rest) refl

-- whether a text has a character
unfoldable pub has_code : ℕ → String → Bool
has_code k String.[] = false
has_code k (String.◌∷◌ c s) = nat_eq (code c) k || has_code k s

has_code-print_digits :
    (k fuel n : ℕ) (rest : String)
    → k < b'0'
    → has_code k (print_digits fuel n rest) ≡ has_code k rest
unfolding print_digits has_code
has_code-print_digits k zero n rest h = refl
has_code-print_digits k (suc fuel) n rest h = elim (Bool-cases (ltb n 10)) [
  | inl small ↦ ground (arith, code-digit n)
  | inr large ↦ ground (
    arith,
    code-digit (n % 10),
    has_code-print_digits k fuel (n / 10) (String.◌∷◌ (digit (n % 10)) rest),
  )
]

pub has_code-print_nat :
    (k n : ℕ) (rest : String) → k < b'0' → has_code k (print_nat n rest) ≡ has_code k rest
unfolding print_nat
has_code-print_nat k n rest h = has_code-print_digits k (suc n) n rest h

-- strings.Join
unfoldable pub join : String → List String → String
join sep [] = ""
join sep (s ∷ ss) = let rest = join sep ss in if is_empty ss then s else append s (append sep rest)
