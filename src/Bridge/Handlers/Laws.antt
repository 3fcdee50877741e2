-- ===== src/Bridge/Handlers/Laws.antt =====
-- Registration: a name is taken once, and later registrations leave it alone.
use anki_mcp_server_addon.Prelude.{String, ◌≡◌, ◌≢◌, arith, eq_iff, none, some}
use anki_mcp_server_addon.Prelude.Dict.{Dict, get-put}
use anki_mcp_server_addon.Bridge.Handlers.{Handler, register_handler, execute}

-- After a registration succeeds, a call of its name runs the new handler, a call of any other name
-- does what it did before, and a second registration of the name fails.
pub execute-register_handler :
    {Args Value : Type 0} (name other : String) (handler again : Handler Args Value)
    (before after : Dict (Handler Args Value)) (arguments : Args)
    → register_handler name handler before ≡ some after
    → other ≢ name
    → (execute after name arguments ≡ handler arguments)
      × (execute after other arguments ≡ execute before other arguments)
      × (register_handler name again after ≡ none)
unfolding execute register_handler
execute-register_handler name other handler again before after arguments ok apart = (
  ground (arith, get-put name name handler before, eq_iff name name),
  ground (arith, get-put name other handler before, eq_iff name other),
  ground (arith, get-put name name handler before, eq_iff name name),
)
