-- ===== src/Config/Placeholders.antt =====
-- expandEnvPlaceholders (internal/config/load.go): environment variables in the text of a config file.
-- os.LookupEnv is an argument.
use Prim.Native.Char.{code}
use text.Mathlib.Text.{starts_with}
use Prim.Native.String.{len}
use pathosd.Common.{
  ℕ, zero, suc, ◌+◌, String, append, Option, none, some, List, [], ◌∷◌, ◌&&◌, codes, drop_chars,
  replace_all, is_empty, if◌then◌else◌,
}
use pathosd.Config.ChecksPolicy.{is_name_rest, matches_check_name}

-- escapedPrefixSentinel
abbrev pub escaped_prefix_sentinel : String
escaped_prefix_sentinel = "\0pathosd-escaped-percent-lbrace\0"

-- the longest run of characters of a name, and the text behind it
unfoldable pub take_name : String → String × String
take_name String.[] = ("", "")
take_name (String.◌∷◌ c s) =
    let (name, rest) = take_name s in
    if is_name_rest (code c) then (String.◌∷◌ c name, rest) else ("", String.◌∷◌ c s)

-- the name of a match of envPlaceholderRE that starts where the text does
unfoldable pub placeholder_at : String → Option String
unfolding take_name
placeholder_at s =
    let (name, rest) = take_name (drop_chars 2 s) in
    if starts_with s "%{" && (matches_check_name (codes name) && starts_with rest "}")
    then some name
    else none

-- the function that replaces a match, with the names that are missing
unfoldable pub replace_match :
    (String → Option String) → String → String × List String → String × List String
replace_match env name (rest, missing) = elim (env name) [
  | some value ↦ (append value rest, missing)
  | none ↦ (append "%{" (append name (append "}" rest)), name ∷ missing)
]

-- ReplaceAllStringFunc; the number counts the characters of a match that are still to be skipped
unfoldable pub replace_matches : (String → Option String) → ℕ → String → String × List String
unfolding placeholder_at replace_match
replace_matches env skip String.[] = ("", [])
replace_matches env (suc skip) (String.◌∷◌ c s) = replace_matches env skip s
replace_matches env zero (String.◌∷◌ c s) =
    let found = placeholder_at (String.◌∷◌ c s) in
    let skip : ℕ = elim found [ none ↦ 0 | some name ↦ len name + 2 ] in
    let (rest, missing) = replace_matches env skip s in
    elim found [
      | none ↦ (String.◌∷◌ c rest, missing)
      | some name ↦ replace_match env name (rest, missing)
    ]

-- func expandEnvPlaceholders; `none` is an error
unfoldable pub expand_env_placeholders : (String → Option String) → String → Option String
unfolding replace_matches
expand_env_placeholders env raw =
    let (output, missing) = replace_matches env 0 (replace_all "%%{" escaped_prefix_sentinel raw) in
    if is_empty missing then some (replace_all escaped_prefix_sentinel "%{" output) else none
