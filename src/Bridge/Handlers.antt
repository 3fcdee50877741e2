-- ===== src/Bridge/Handlers.antt =====
-- anki_mcp_server/handler_registry.py, and the requests and responses of
-- anki_mcp_server/queue_bridge.py. The types of arguments and results are parameters.
pub mod Laws
use anki_mcp_server_addon.Prelude.{String, Bool, Option, none, some, ◌⊎◌, inl, inr}
use anki_mcp_server_addon.Prelude.Dict
use anki_mcp_server_addon.Prelude.Dict.{Dict}

pub record ToolRequest (Args : Type 0) : Type 0 where
  pub request_id : String
  pub tool_name : String
  pub arguments : Args

-- An exception of a tool call, or of the bridge; a response carries it in place of its text.
pub data Raised : Type 0 where
  unknown_handler : String → Raised
  handler_raised : String → Raised
  shutting_down : Raised

pub record ToolResponse (Value : Type 0) : Type 0 where
  pub request_id : String
  pub success : Bool
  pub outcome : Option Value
  pub failure : Option Raised

abbrev pub Handler : Type 0 → Type 0 → Type 0
Handler Args Value = Args → Raised ⊎ Value

module _ {Args Value : Type 0} where
  -- `none` is the ValueError of a name that is registered already.
  unfoldable pub register_handler :
      String → Handler Args Value → Dict (Handler Args Value) → Option (Dict (Handler Args Value))
  register_handler name handler handlers = elim (Dict.get name handlers) [
    | some old ↦ none
    | none ↦ some (Dict.put name handler handlers)
  ]

  unfoldable pub get_handler : String → Dict (Handler Args Value) → Raised ⊎ Handler Args Value
  get_handler name handlers = elim (Dict.get name handlers) [
    | none ↦ inl (unknown_handler name)
    | some handler ↦ inr handler
  ]

  unfoldable pub execute : Dict (Handler Args Value) → String → Args → Raised ⊎ Value
  unfolding get_handler
  execute handlers name arguments = elim (get_handler name handlers) [
    | inl raised ↦ inl raised
    | inr handler ↦ handler arguments
  ]
