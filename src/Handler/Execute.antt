-- ===== src/Handler/Execute.antt =====
-- internal/handler/chat_tools_catalog.go and chat_tools_execute.go: how a call names its tool, and what
-- the policy lets through. `tools` are the names of the peer's tool definitions of type "function".
use koios.Prelude.{
  ℕ, not, ◌&&◌, ◌||◌, Option, none, some, List, [], ◌∷◌, ◌++◌, if◌then◌else◌, keep, some_of, Text,
  text, text_eqb, is_empty, trim_space, contains, has_suffix,
}
use koios.Handler.ToolPolicy.{ToolPolicy, BuiltInToolRegistry, canonical_alias, allows}

-- The only tool whose name ends in the given one behind a dot, or else that name.
unfoldable pub only_match : Text → List Text → Text
only_match name [] = name
only_match name (t ∷ []) = t
only_match name (t ∷ u ∷ ts) = name

unfoldable pub normalize_tool_name : BuiltInToolRegistry → List Text → Text → Text
normalize_tool_name r tools raw =
    let name = canonical_alias r (trim_space raw) in
    if is_empty (trim_space raw)
    then trim_space raw
    else if some_of (text_eqb name) tools || contains name (text ".")
    then name
    else only_match name (keep (λ t. not (is_empty t) && has_suffix t (text "." ++ name)) tools)

-- `ExecuteTool`: the name that is dispatched, or `none` if the tool is not allowed.
unfoldable pub execute_tool :
    (ℕ → ℕ) → BuiltInToolRegistry → ToolPolicy → List Text → Text → Option Text
execute_tool lower r p tools raw =
    let name = normalize_tool_name r tools raw in if allows lower r p name then some name else none
