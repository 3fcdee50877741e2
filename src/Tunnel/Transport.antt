-- ===== src/Tunnel/Transport.antt =====
-- `InMemoryTransport` of anki_mcp_server/tunnel/in_memory_transport.py. A call of `handle_request` has
-- a name of its own, which stands for its future; a JSON-RPC id stands as its JSON text. Each event is
-- what runs between two awaits. The server behind the streams answers when and as it likes.
pub mod Calls
pub mod Collision
mod Examples
pub mod Settled
use anki_mcp_server_addon.Prelude.{
  ℕ, String, Bool, true, false, Option, none, some, List, [], ◌∷◌, if◌then◌else◌,
}
use anki_mcp_server_addon.Prelude.Dict
use anki_mcp_server_addon.Prelude.Dict.{Dict}

-- What `handle_request` returns or raises; a result is the text of the response.
pub data Phase : Type 0 where
  waiting : Phase
  result : List ℕ → Phase
  no_reply : Phase
  raised : Phase

pub record Call : Type 0 where
  pub request_id : String
  pub phase : Phase

-- `is_open` says that `_server_read_send` is set.
pub record Transport : Type 0 where
  pub is_open : Bool
  pub pending : Dict String
  pub calls : Dict Call

-- What a body decodes to: a request with its id, a notification, or nothing valid.
pub data Body : Type 0 where
  request : String → Body
  notification : Body
  invalid : Body

-- `answers` is a response or an error that the server writes; `gives_up` is a send or a wait that
-- raises, also by its timeout; `closes` and `rejects` are the first and the last part of `stop`.
pub data Event : Type 0 where
  starts : Event
  handles : String → Body → Event
  answers : String → List ℕ → Event
  gives_up : String → Event
  closes rejects : Event

abbrev pub initial : Transport
initial = record { is_open = false; pending = []; calls = [] }

abbrev pub set_phase : String → Call → Phase → Dict Call → Dict Call
set_phase name call phase calls = Dict.put name (record call { phase = phase }) calls

abbrev pub new_call : String → Phase → Call
new_call id phase = record { request_id = id; phase = phase }

unfoldable pub handle_open : String → Body → Transport → Transport
handle_open name invalid t = record t { calls = Dict.put name (new_call "" raised) t.calls }
handle_open name notification t = record t { calls = Dict.put name (new_call "" no_reply) t.calls }
handle_open name (request id) t = record t {
  pending = Dict.put id name t.pending;
  calls = Dict.put name (new_call id waiting) t.calls;
}

-- Names are fresh, so a call with a used one does not occur.
unfoldable pub handle_request : String → Body → Option Call → Transport → Transport
unfolding handle_open
handle_request name body (some used) t = t
handle_request name body none t =
    if t.is_open
    then handle_open name body t
    else record t { calls = Dict.put name (new_call "" raised) t.calls }

-- `fut.set_result`, on a future that is not done.
abbrev pub resolve : String → Option Call → Phase → Dict Call → Dict Call
resolve name none phase calls = calls
resolve name (some call) phase calls = elim call.phase [
  | waiting ↦ set_phase name call phase calls
  | _ ↦ calls
]

-- The body of the loop of `_read_responses`, for a message with an id.
unfoldable pub read_response : String → List ℕ → Option String → Transport → Transport
read_response id text none t = t
read_response id text (some name) t = record t {
  pending = Dict.remove id t.pending;
  calls = resolve name (Dict.get name t.calls) (result text) t.calls;
}

abbrev pub give_up_by : String → Call → Phase → Transport → Transport
give_up_by name call waiting t = record t {
  pending = Dict.remove call.request_id t.pending;
  calls = set_phase name call raised t.calls;
}
give_up_by name call _ t = t

-- The `except` of `handle_request`: it takes out whatever waits under its id. A call whose task is
-- cancelled, which leaves its entry, is no event here.
unfoldable pub give_up : String → Option Call → Transport → Transport
give_up name none t = t
give_up name (some call) t = give_up_by name call call.phase t

-- The loop of `stop` over the pending futures.
unfoldable pub reject_all : Dict String → Dict Call → Dict Call
reject_all [] calls = calls
reject_all ((id, name) ∷ pending) calls =
    reject_all pending (resolve name (Dict.get name calls) raised calls)

unfoldable pub step : Transport → Event → Transport
unfolding handle_request read_response give_up reject_all
step t starts = record t { is_open = true }
step t (handles name body) = handle_request name body (Dict.get name t.calls) t
step t (answers id text) = read_response id text (Dict.get id t.pending) t
step t (gives_up name) = give_up name (Dict.get name t.calls) t
step t closes = record t { is_open = false }
step t rejects = record t { pending = []; calls = reject_all t.pending t.calls }

unfoldable pub run : Transport → List Event → Transport
unfolding step
run t [] = t
run t (event ∷ events) = run (step t event) events
