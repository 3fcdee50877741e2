-- ===== src/Tools/Examples.antt =====
-- Test data for the filtering of tools, and the theorem about it at that data.
use anki_mcp_server_addon.Prelude.{refl, true, false, none, some, List, [], ◌∷◌, All, codes}
use anki_mcp_server_addon.Tools.{
  ActionModel, Tool, Made, single_action, multi_action, register_tools,
}
use anki_mcp_server_addon.Tools.Gate.{MadeIsPermitted, register_tools-Permitted}

abbrev sync_tool : Tool
sync_tool = record {
  name = codes "sync";
  destructive = false;
  union_members = none;
  has_base_description = false;
}

abbrev wipe_tool : Tool
wipe_tool = record sync_tool { name = codes "wipe"; destructive = true }

abbrev rename_action : ActionModel
rename_action = record { action = some (codes "rename"); destructive = false }

abbrev delete_action : ActionModel
delete_action = record { action = some (codes "delete"); destructive = true }

abbrev purge_action : ActionModel
purge_action = record { action = some (codes "purge"); destructive = true }

abbrev deck_tool : Tool
deck_tool = record {
  name = codes "deck";
  destructive = false;
  union_members = some (rename_action ∷ delete_action ∷ purge_action ∷ []);
  has_base_description = true;
}

abbrev tools : List Tool
tools = sync_tool ∷ wipe_tool ∷ deck_tool ∷ []

-- The wiping tool and the purge are not opted in, and renaming is disabled.
abbrev offered_tools : List (Tool × Made)
offered_tools = (sync_tool, single_action) ∷ (deck_tool, multi_action (delete_action ∷ [])) ∷ []

register_tools-Permitted_example :
    All
      (λ (t : Tool × Made).
        MadeIsPermitted (codes "deck:rename" ∷ []) (codes "deck:delete" ∷ []) t.0 t.1)
      offered_tools
unfolding register_tools
register_tools-Permitted_example =
    register_tools-Permitted (codes "deck:rename" ∷ []) (codes "deck:delete" ∷ []) tools
      offered_tools (refl, (refl, (refl, tt))) refl
