-- ===== src/Common/Commas.antt =====
-- Texts joined by commas, and taken apart again.
use Prim.Native.Char.{Char, code}
use Prim.Native.String.{String, ◌++◌ as append}
use Prim.Native.String.append as append
use mathlib.Core.Path.{◌≡◌, refl, ap, ◌∙◌}
use mathlib.Core.Bool.{false}
use mathlib.Core.List.{List, [], ◌∷◌}
use native.Mathlib.Omega.{arith}
use pathosd.Common.Tests.{if◌then◌else◌, nat_eq}
use pathosd.Common.Lists.{All}
use pathosd.Common.Text.{has_code, join}

-- a character in front of the first text
unfoldable pub cons_char : Char → List String → List String
cons_char c [] = String.◌∷◌ c "" ∷ []
cons_char c (s ∷ ss) = String.◌∷◌ c s ∷ ss

-- strings.Split at the commas
unfoldable pub split_commas : String → List String
unfolding cons_char
split_commas String.[] = "" ∷ []
split_commas (String.◌∷◌ c s) =
    let rest = split_commas s in if nat_eq (code c) b',' then "" ∷ rest else cons_char c rest

split_commas-none : (s : String) → has_code b',' s ≡ false → split_commas s ≡ s ∷ []
unfolding split_commas has_code
split_commas-none String.[] h = refl
split_commas-none (String.◌∷◌ c s) h = ground (arith, split_commas-none s)

split_commas-append :
    (s rest : String)
    → has_code b',' s ≡ false
    → split_commas (append s (append "," rest)) ≡ s ∷ split_commas rest
unfolding split_commas has_code
split_commas-append String.[] rest h =
    rw (append.nil (append "," rest), append.cons "," "" rest, append.nil rest) refl
split_commas-append (String.◌∷◌ c s) rest h =
    rw (append.cons c s (append "," rest)) (ground (arith, split_commas-append s rest))

pub split_commas-join :
    (s : String) (ss : List String)
    → All (λ t. has_code b',' t ≡ false) (s ∷ ss)
    → split_commas (join "," (s ∷ ss)) ≡ s ∷ ss
unfolding join
split_commas-join s [] (h, hs) = split_commas-none s h
split_commas-join s (t ∷ ts) (h, hs) =
    split_commas-append s (join "," (t ∷ ts)) h ∙ ap (λ rest. s ∷ rest) (split_commas-join t ts hs)
