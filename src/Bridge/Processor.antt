-- ===== src/Bridge/Processor.antt =====
-- `RequestProcessor` of anki_mcp_server/request_processor.py, with the callbacks that it scheduled
-- on Qt's event loop and that have not run, and whether its drain loop is under way.
use anki_mcp_server_addon.Prelude.{
  ℕ, zero, suc, ◌+◌, Bool, true, false, Option, none, some, inl, inr, if◌then◌else◌,
}
use anki_mcp_server_addon.Prelude.Dict.{Dict}
use anki_mcp_server_addon.Bridge.Handlers.{ToolRequest, ToolResponse, Handler, execute}
use anki_mcp_server_addon.Bridge.Queues.{
  Bridge, set_waker, clear_waker, get_pending_request, send_response,
}

pub record Processor (Args Value : Type 0) : Type 0 where
  pub bridge : Bridge Args Value
  pub active : Bool
  pub scheduled : ℕ
  pub draining : Bool

module _ {Args Value : Type 0} where
  -- `_schedule(self._process_pending)`, which is also what `_wake` does.
  unfoldable pub schedule : Processor Args Value → Processor Args Value
  schedule p = record p { scheduled = p.scheduled + 1 }

  unfoldable pub start : Processor Args Value → Processor Args Value
  unfolding schedule set_waker
  start p =
      if p.active then p else schedule (record p { active = true; bridge = set_waker p.bridge })

  unfoldable pub stop : Processor Args Value → Processor Args Value
  unfolding clear_waker
  stop p = if p.active then record p { active = false; bridge = clear_waker p.bridge } else p

  unfoldable pub execute_tool : Dict (Handler Args Value) → ToolRequest Args → ToolResponse Value
  execute_tool handlers request = elim (execute handlers request.tool_name request.arguments) [
    | inl raised ↦ record {
      request_id = request.request_id;
      success = false;
      outcome = none;
      failure = some raised;
    }
    | inr value ↦ record {
      request_id = request.request_id;
      success = true;
      outcome = some value;
      failure = none;
    }
  ]

  abbrev pub begin_of : ℕ → Processor Args Value → Processor Args Value
  begin_of zero p = p
  begin_of (suc n) p = record p { scheduled = n; draining = p.active }

  -- Qt delivers a scheduled callback: `_process_pending` up to its loop.
  unfoldable pub begin_drain : Processor Args Value → Processor Args Value
  begin_drain p = begin_of p.scheduled p

  unfoldable pub answer :
      Dict (Handler Args Value)
      → Option (ToolRequest Args) × Bridge Args Value
      → Processor Args Value
      → Processor Args Value
  unfolding send_response
  answer handlers (none, bridge) p = record p { draining = false }
  answer handlers (some request, bridge) p = record p {
    bridge = send_response (execute_tool handlers request) bridge;
  }

  -- One round of the loop of `_process_pending`, as one event.
  unfoldable pub drain_round :
      Dict (Handler Args Value) → Processor Args Value → Processor Args Value
  unfolding answer get_pending_request
  drain_round handlers p =
      if p.draining then answer handlers (get_pending_request p.bridge) p else p
