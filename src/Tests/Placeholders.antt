-- ===== src/Tests/Placeholders.antt =====
-- Placeholders that are replaced, kept and refused.
use pathosd.Common.{
  String, ◌≡◌, refl, Option, none, some, ◌==◌, if◌then◌else◌, replace_all, drop_chars,
}
use pathosd.Config.ChecksPolicy.{is_name_rest, matches_check_name}
use pathosd.Config.Placeholders.{expand_env_placeholders}

abbrev env : String → Option String
env name = if name == "PASSWORD" then some "se%{cret}" else none

-- a value is not expanded again, and an escape is not expanded
replaced :
    expand_env_placeholders env "a: %{PASSWORD} %%{PASSWORD} %{} %{1} 5%"
    ≡ some "a: se%{cret} %{PASSWORD} %{} %{1} 5%"
unfolding expand_env_placeholders replace_all drop_chars is_name_rest matches_check_name
replaced = refl

missing : expand_env_placeholders env "%{PASSWORD} %{USER}" ≡ none
unfolding expand_env_placeholders replace_all drop_chars is_name_rest matches_check_name
missing = refl
