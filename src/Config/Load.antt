-- ===== src/Config/Load.antt =====
-- internal/config/load.go: the text of a config file is expanded, parsed, filled with defaults, and
-- accepted or refused.
use pathosd.Common.{
  String, Option, none, some, is_empty, is_empty-nil, if◌then◌else◌, ◌≡◌, ◌==◌, ◌||◌, [], arith,
  inl, inr, Option-cases, Bool-cases,
}
use pathosd.Config.Stdlib.{Stdlib}
use pathosd.Config.Vip.{Config}
use pathosd.Config.ChecksPolicy.{ExprLang}
use pathosd.Config.Placeholders.{expand_env_placeholders}
use pathosd.Config.Validate.Sections.{validate}
use pathosd.Config.Defaults.{apply_defaults}

-- the environment, and the decoders of the two formats
pub record Decoders : Type 0 where
  pub lookup_env : String → Option String  -- os.LookupEnv
  pub unmarshal_yaml : String → Option Config  -- yaml.Unmarshal
  pub unmarshal_toml : String → Option Config  -- toml.Unmarshal

-- func detectFormat
unfoldable pub detect_format : Stdlib → String → String
detect_format std path =
    let ext = std.to_lower (std.ext path) in
    if ext == ".yaml" || ext == ".yml" || ext == ".json"
    then "yaml"
    else if ext == ".toml"
    then "toml"
    else ext

-- func Parse; `none` is an error
unfoldable pub parse : Decoders → String → String → Option Config
parse decoders raw format =
    if format == "yaml"
    then decoders.unmarshal_yaml raw
    else if format == "toml"
    then decoders.unmarshal_toml raw
    else none

-- the first half of loadBytes
unfoldable pub decode : Stdlib → Decoders → String → String → Option Config
unfolding detect_format parse
decode std decoders raw path = elim (expand_env_placeholders decoders.lookup_env raw) [
  | none ↦ none
  | some expanded ↦ parse decoders expanded (detect_format std path)
]

-- func loadBytes; `none` is an error
unfoldable pub load_bytes :
    {P : Type 0} → Stdlib → ExprLang P → Decoders → String → String → Option Config
unfolding decode
load_bytes std lang decoders raw path = elim (decode std decoders raw path) [
  | none ↦ none
  | some cfg ↦
      let cfg' = apply_defaults std cfg in
      if is_empty (validate std lang cfg') then some cfg' else none
]

-- A file that loads has been parsed, filled and accepted.
pub load_bytes-some :
    {P : Type 0} (std : Stdlib) (lang : ExprLang P) (decoders : Decoders) (raw path : String)
    (cfg : Config)
    → load_bytes std lang decoders raw path ≡ some cfg
    → (parsed : Config) × (validate std lang (apply_defaults std parsed) ≡ [])
      × (cfg ≡ apply_defaults std parsed)
unfolding load_bytes
load_bytes-some std lang decoders raw path cfg h =
    elim (Option-cases (decode std decoders raw path)) [
      | inl bad ↦ absurd (ground arith)
      | inr (parsed, good) ↦
          elim (Bool-cases (is_empty (validate std lang (apply_defaults std parsed)))) [
            | inl valid ↦ (parsed, is_empty-nil _ valid, ground arith)
            | inr bad ↦ absurd (ground arith)
          ]
    ]
