-- ===== src/Tools.antt =====
-- Which tools and actions clients see: the filtering of anki_mcp_server/tool_decorator.py. Names are
-- lists of code points; a set is a list; the map from a tool to its set of actions is the list of its
-- pairs.
pub mod Entries
pub mod Members
pub mod Gate
pub mod Examples
use anki_mcp_server_addon.Prelude.{
  ℕ, Bool, true, false, not, ◌&&◌, ◌⊎◌, inl, inr, Option, none, some, List, [], ◌∷◌, ◌++◌, any,
  filter, ◌==◌, if◌then◌else◌,
}
use anki_mcp_server_addon.Text.{text_eq}

abbrev pub colon : ℕ
colon = b':'

abbrev pub mem : List ℕ → List (List ℕ) → Bool
mem name names = any (text_eq name) names

-- A member of a tool's union of parameters: the literal of its action, if it has one, and its mark.
pub record ActionModel : Type 0 where
  pub action : Option (List ℕ)
  pub destructive : Bool

-- An entry of the registry; `union_members` is `none` for a tool of one action.
pub record Tool : Type 0 where
  pub name : List ℕ
  pub destructive : Bool
  pub union_members : Option (List ActionModel)
  pub has_base_description : Bool

abbrev pub longer : ℕ → List ℕ ⊎ (List ℕ × List ℕ) → List ℕ ⊎ (List ℕ × List ℕ)
longer c (inl name) = inl (c ∷ name)
longer c (inr (tool, action)) = inr (c ∷ tool, action)

-- The parts before and after the first colon, or the entry if it has none.
unfoldable pub split_entry : List ℕ → List ℕ ⊎ (List ℕ × List ℕ)
split_entry [] = inl []
split_entry (c ∷ entry) =
    let rest = split_entry entry in if c == colon then inr ([], entry) else longer c rest

abbrev pub add_entry :
    List ℕ ⊎ (List ℕ × List ℕ)
    → List (List ℕ) × List (List ℕ × List ℕ)
    → List (List ℕ) × List (List ℕ × List ℕ)
add_entry (inl name) (whole_tools, action_map) = (name ∷ whole_tools, action_map)
add_entry (inr pair) (whole_tools, action_map) = (whole_tools, pair ∷ action_map)

unfoldable pub parse_disabled : List (List ℕ) → List (List ℕ) × List (List ℕ × List ℕ)
unfolding split_entry
parse_disabled [] = ([], [])
parse_disabled (entry ∷ entries) = add_entry (split_entry entry) (parse_disabled entries)

-- `action_map.get(name, set())`
unfoldable pub actions_of : List ℕ → List (List ℕ × List ℕ) → List (List ℕ)
actions_of name [] = []
actions_of name ((tool, action) ∷ pairs) =
    let rest = actions_of name pairs in if text_eq name tool then action ∷ rest else rest

abbrev pub add_marked : ActionModel → Option (List ℕ) → List (List ℕ) → List (List ℕ)
add_marked m none names = names
add_marked m (some action) names = if m.destructive then action ∷ names else names

unfoldable pub marked_actions : List ActionModel → List (List ℕ)
marked_actions [] = []
marked_actions (m ∷ members) = add_marked m m.action (marked_actions members)

unfoldable pub get_destructive_actions : Option (List ActionModel) → List (List ℕ)
unfolding marked_actions
get_destructive_actions none = []
get_destructive_actions (some members) = marked_actions members

abbrev pub is_disabled : List (List ℕ) → Option (List ℕ) → Bool
is_disabled disabled none = false
is_disabled disabled (some action) = mem action disabled

unfoldable pub filter_union_type : List (List ℕ) → List ActionModel → List ActionModel
filter_union_type disabled members = filter (λ m. not (is_disabled disabled m.action)) members

-- What `_make_mcp_tool` does: it skips the tool, raises ValueError, or offers it, with the actions of
-- a tool of several.
pub data Made : Type 0 where
  skipped : Made
  missing_description : Made
  single_action : Made
  multi_action : List ActionModel → Made

abbrev pub described : Bool → List ActionModel → Made
described has_base members = if has_base then multi_action members else missing_description

abbrev pub offer_remaining : Bool → List ActionModel → Made
offer_remaining has_base [] = skipped
offer_remaining has_base (m ∷ members) = described has_base (m ∷ members)

abbrev pub make_multi : Bool → List ActionModel → List (List ℕ) → Made
make_multi has_base members [] = described has_base members
make_multi has_base members (action ∷ disabled) =
    offer_remaining has_base (filter_union_type (action ∷ disabled) members)

unfoldable pub make_mcp_tool : Tool → List (List ℕ) → Made
unfolding filter_union_type
make_mcp_tool tool disabled = elim tool.union_members [
  | none ↦ single_action
  | some members ↦ make_multi tool.has_base_description members disabled
]

abbrev pub effective_disabled : List (List ℕ) → List (List ℕ) → List (List ℕ) → List (List ℕ)
effective_disabled disabled_actions destructive opted_actions =
    disabled_actions ++ filter (λ a. not (mem a opted_actions)) destructive

-- The body of the loop of `register_tools`.
unfoldable pub register_tool : List (List ℕ) → List (List ℕ) → Tool → Made
unfolding parse_disabled actions_of get_destructive_actions make_mcp_tool
register_tool disabled_tools enabled_destructive_tools tool =
    let (disabled_whole, disabled_actions) = parse_disabled disabled_tools in
    let (opted_whole, opted_actions) = parse_disabled enabled_destructive_tools in
    if mem tool.name disabled_whole
    then skipped
    else if tool.destructive && not (mem tool.name opted_whole)
    then skipped
    else make_mcp_tool tool (
        effective_disabled (actions_of tool.name disabled_actions)
          (get_destructive_actions tool.union_members) (actions_of tool.name opted_actions))

abbrev pub add_made : Tool → Made → Option (List (Tool × Made)) → Option (List (Tool × Made))
add_made tool missing_description rest = none
add_made tool skipped rest = rest
add_made tool made none = none
add_made tool made (some offered) = some ((tool, made) ∷ offered)

-- The tools that are offered, in the registry's order; `none` is the ValueError.
unfoldable pub register_tools :
    List (List ℕ) → List (List ℕ) → List Tool → Option (List (Tool × Made))
unfolding register_tool
register_tools disabled_tools enabled_destructive_tools [] = some []
register_tools disabled_tools enabled_destructive_tools (tool ∷ tools) =
    add_made tool (register_tool disabled_tools enabled_destructive_tools tool)
      (register_tools disabled_tools enabled_destructive_tools tools)
