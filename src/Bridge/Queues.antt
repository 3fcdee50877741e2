-- ===== src/Bridge/Queues.antt =====
-- `QueueBridge` of anki_mcp_server/queue_bridge.py. `send_request` runs in pieces, between which
-- other threads run: registering, putting, waking, and leaving. A request's private response queue
-- is the value of its key in `pending`.
use anki_mcp_server_addon.Prelude.{
  String, Bool, true, false, Option, none, some, List, [], ◌∷◌, ◌++◌,
}
use anki_mcp_server_addon.Prelude.Dict
use anki_mcp_server_addon.Prelude.Dict.{Dict}
use anki_mcp_server_addon.Bridge.Handlers.{ToolRequest, ToolResponse, shutting_down}

pub record Bridge (Args Value : Type 0) : Type 0 where
  pub request_queue : List (ToolRequest Args)
  pub pending : Dict (List (ToolResponse Value))
  pub is_shutdown : Bool
  pub has_waker : Bool

module _ {Value : Type 0} where
  -- A response to a request that is gone is dropped.
  unfoldable pub deliver :
      ToolResponse Value → Dict (List (ToolResponse Value)) → Dict (List (ToolResponse Value))
  deliver response pending = elim (Dict.get response.request_id pending) [
    | none ↦ pending
    | some responses ↦ Dict.put response.request_id (responses ++ response ∷ []) pending
  ]

  abbrev pub down_response : String → ToolResponse Value
  down_response id = record {
    request_id = id;
    success = false;
    outcome = none;
    failure = some shutting_down;
  }

  unfoldable pub answer_all : Dict (List (ToolResponse Value)) → Dict (List (ToolResponse Value))
  answer_all [] = []
  answer_all ((id, responses) ∷ pending) =
      (id, responses ++ down_response id ∷ []) ∷ answer_all pending

module _ {Args Value : Type 0} where
  abbrev pub empty : Bridge Args Value
  empty = record { request_queue = []; pending = []; is_shutdown = false; has_waker = false }

  unfoldable pub set_waker : Bridge Args Value → Bridge Args Value
  set_waker b = record b { has_waker = true }

  unfoldable pub clear_waker : Bridge Args Value → Bridge Args Value
  clear_waker b = record b { has_waker = false }

  -- The first locked part of `send_request`; `none` is the BridgeError.
  unfoldable pub register : ToolRequest Args → Bridge Args Value → Option (Bridge Args Value)
  register request b = elim b.is_shutdown [
    | true ↦ none
    | false ↦ some (record b { pending = Dict.put request.request_id [] b.pending })
  ]

  unfoldable pub put_request : ToolRequest Args → Bridge Args Value → Bridge Args Value
  put_request request b = record b { request_queue = b.request_queue ++ request ∷ [] }

  -- The `finally` of `send_request`.
  unfoldable pub unregister : String → Bridge Args Value → Bridge Args Value
  unregister id b = record b { pending = Dict.remove id b.pending }

  -- `response_q.get`: the first response, if one is there.
  unfoldable pub receive : String → Bridge Args Value → Option (ToolResponse Value)
  receive id b = elim (Dict.get id b.pending) [
    | none ↦ none
    | some [] ↦ none
    | some (response ∷ responses) ↦ some response
  ]

  abbrev pub take_first :
      List (ToolRequest Args) → Bridge Args Value → Option (ToolRequest Args) × Bridge Args Value
  take_first [] b = (none, b)
  take_first (request ∷ requests) b = (some request, record b { request_queue = requests })

  -- `request_queue.get_nowait`
  unfoldable pub get_pending_request :
      Bridge Args Value → Option (ToolRequest Args) × Bridge Args Value
  get_pending_request b = take_first b.request_queue b

  unfoldable pub send_response : ToolResponse Value → Bridge Args Value → Bridge Args Value
  unfolding deliver
  send_response response b = record b { pending = deliver response b.pending }

  unfoldable pub shutdown : Bridge Args Value → Bridge Args Value
  unfolding answer_all
  shutdown b = record b { is_shutdown = true; pending = answer_all b.pending }
