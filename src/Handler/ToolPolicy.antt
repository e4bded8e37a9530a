-- ===== src/Handler/ToolPolicy.antt =====
-- internal/handler/tool_policy.go, `Allows`, and the names of tool_registry.go. A set of tokens is a
-- list. `lower` stands for `strings.ToLower` on a character.
use koios.Prelude.{
  ℕ, zero, suc, Bool, true, false, not, ◌&&◌, ◌||◌, none, some, List, [], ◌∷◌, ◌++◌, map,
  if◌then◌else◌, length, some_of, Dict, lookup, Text, text, text_eqb, text_eq, is_empty, trim_space,
  has_prefix, has_suffix, trim_suffix,
}
use koios.Handler.ToolNamesData.{tool_profiles, tool_groups, tool_aliases, hidden_aliases}

pub record ToolPolicy : Type 0 where
  pub profile : Text
  pub allow : List Text
  pub deny : List Text

-- `plugin_names` is what `defaultPluginToolNames` gives.
pub record BuiltInToolRegistry : Type 0 where
  pub defs : List Text
  pub aliases : Dict Text Text
  pub hidden_names : List Text
  pub groups : Dict Text (List Text)
  pub profiles : Dict Text (List Text)
  pub plugin_names : List Text

unfoldable pub new_built_in_tool_registry : List Text → List Text → BuiltInToolRegistry
new_built_in_tool_registry defs plugin_names = record {
  defs = defs;
  aliases = tool_aliases;
  hidden_names = hidden_aliases;
  groups = tool_groups;
  profiles = tool_profiles;
  plugin_names = plugin_names;
}

-- The loop over the aliases; `seen` holds the names that were looked up.
unfoldable pub follow_aliases : ℕ → Dict Text Text → List Text → Text → Text
follow_aliases zero aliases seen name = name
follow_aliases (suc fuel) aliases seen name = elim (lookup name aliases) [
  | none ↦ name
  | some mapped ↦ elim (text_eqb mapped name || some_of (text_eqb name) seen) [
    | true ↦ name
    | false ↦ follow_aliases fuel aliases (name ∷ seen) (trim_space mapped)
  ]
]

unfoldable pub canonical_alias : BuiltInToolRegistry → Text → Text
canonical_alias r name = follow_aliases (suc (length r.aliases)) r.aliases [] (trim_space name)

unfoldable pub visible_names : List Text → List Text → List Text
visible_names hidden [] = []
visible_names hidden (d ∷ ds) =
    let rest = visible_names hidden ds in if some_of (text_eqb d) hidden then rest else d ∷ rest

-- What one token stands for.
unfoldable pub expand_token : BuiltInToolRegistry → Text → List Text
expand_token r raw =
    let token = trim_space raw in
    if is_empty token
    then []
    else if text_eqb token (text "group:openclaw")
    then visible_names r.hidden_names r.defs ++ r.plugin_names
    else elim (lookup token r.groups) [
      | some names ↦ map (canonical_alias r) names
      | none ↦ canonical_alias r token ∷ []
    ]

unfoldable pub expand_tokens : BuiltInToolRegistry → List Text → List Text
expand_tokens r [] = []
expand_tokens r (t ∷ ts) = expand_token r t ++ expand_tokens r ts

unfoldable pub profile_tokens : (ℕ → ℕ) → BuiltInToolRegistry → Text → List Text
profile_tokens lower r profile = elim (lookup (map lower (trim_space profile)) r.profiles) [
  | none ↦ []
  | some tokens ↦ tokens
]

unfoldable pub matches_wildcard : Text → Text → Bool
matches_wildcard name token =
    has_suffix token (text ".*") && has_prefix name (trim_suffix token (text "*"))

unfoldable pub matches_tool_token : List Text → Text → Bool
matches_tool_token tokens name =
    some_of (text_eqb name) tokens || some_of (matches_wildcard name) tokens

unfoldable pub allows_by_profile : (ℕ → ℕ) → BuiltInToolRegistry → Text → Text → Bool
allows_by_profile lower r raw name =
    let profile = map lower (trim_space raw) in
    if is_empty profile || text_eqb profile (text "full")
    then true
    else matches_tool_token (expand_tokens r (profile_tokens lower r profile)) name

unfoldable pub allows : (ℕ → ℕ) → BuiltInToolRegistry → ToolPolicy → Text → Bool
allows lower r p name =
    let allowed = expand_tokens r p.allow in
    if matches_tool_token (expand_tokens r p.deny) name
    then false
    else if not (is_empty allowed)
    then matches_tool_token allowed name
    else allows_by_profile lower r p.profile name

-- `ActiveDefs`, of definitions that are available.
unfoldable pub active_defs :
    (ℕ → ℕ) → BuiltInToolRegistry → (Text → Bool) → ToolPolicy → List Text → List Text
active_defs lower r available p [] = []
active_defs lower r available p (d ∷ ds) =
    let rest = active_defs lower r available p ds in
    if available d && allows lower r p d && not (some_of (text_eqb d) r.hidden_names)
    then d ∷ rest
    else rest
