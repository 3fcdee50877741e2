-- ===== src/Tunnel/Client.antt =====
-- `TunnelClient` of anki_mcp_server/tunnel/client.py: a relayed request, the receive loop, the health
-- check and the end of a connection. What an await does is an argument; texts are code points, and a
-- JSON-RPC error body stays the record of its fields.
pub mod Answers
mod Examples
pub mod Health
use anki_mcp_server_addon.Prelude.{
  ℕ, ◌+◌, ◌-◌, String, str_eq, Bool, true, false, Option, none, some, List, [], ◌∷◌, ◌++◌, codes,
  ◌&&◌, ltb, if◌then◌else◌,
}
use anki_mcp_server_addon.Text.{is_nil}
use anki_mcp_server_addon.Tunnel.CloseCodes
use anki_mcp_server_addon.Tunnel.Protocol.{ParseResult, message, value_error, type_error}

-- A body that `json.loads` gives: an object with or without an id, or anything else.
pub data ParsedBody : Type 0 where
  object_with : String → ParsedBody
  no_id : ParsedBody

module _ (loads : List ℕ → Option ParsedBody) where
  abbrev pub id_of : Option ParsedBody → Option String
  id_of none = none
  id_of (some no_id) = none
  id_of (some (object_with id)) = some id

  unfoldable pub extract_request_id : Option (List ℕ) → Option String
  extract_request_id none = none
  extract_request_id (some []) = none
  extract_request_id (some (c ∷ body)) = id_of (loads (c ∷ body))

-- A request with the keys that the protocol requires.
pub record TunnelRequest : Type 0 where
  pub request_id : String
  pub body : Option (List ℕ)

pub data ResponseBody : Type 0 where
  no_body : ResponseBody
  text : List ℕ → ResponseBody
  timeout_error : Option String → ResponseBody
  internal_error : ResponseBody

pub record TunnelResponse : Type 0 where
  pub request_id : String
  pub status_code : ℕ
  pub body : ResponseBody

-- How an await of the transport, and one of `ws.send`, ends.
pub data Processed : Type 0 where
  replied : List ℕ → Processed
  timed_out broke cancelled : Processed

-- `times_out` is a send that raises TimeoutError.
pub data Sent : Type 0 where
  sent fails times_out interrupted : Sent

-- The responses that were given to `ws.send`, with how it ended, and the status that is reported to
-- the callback; a task that is cancelled reports none.
pub record Handled : Type 0 where
  pub sends : List (TunnelResponse × Sent)
  pub reported : Option ℕ

abbrev pub ok_body : List ℕ → ResponseBody
ok_body [] = no_body
ok_body (c ∷ reply) = text (c ∷ reply)

abbrev pub error_answer : List (TunnelResponse × Sent) → TunnelResponse → Sent → Handled
error_answer before answer interrupted = record {
  sends = before ++ (answer, interrupted) ∷ [];
  reported = none;
}
error_answer before answer outcome = record {
  sends = before ++ (answer, outcome) ∷ [];
  reported = some answer.status_code;
}

abbrev pub internal_answer : TunnelRequest → TunnelResponse
internal_answer r = record { request_id = r.request_id; status_code = 500; body = internal_error }

abbrev pub ok_answer : TunnelRequest → List ℕ → TunnelResponse
ok_answer r reply = record { request_id = r.request_id; status_code = 200; body = ok_body reply }

-- A request with no body, or an empty one, does not reach the transport.
abbrev pub process : Option (List ℕ) → Processed → Processed
process none outcome = replied []
process (some []) outcome = replied []
process (some (c ∷ body)) outcome = outcome

module _ (loads : List ℕ → Option ParsedBody) where
  abbrev pub timeout_answer : TunnelRequest → TunnelResponse
  timeout_answer r = record {
    request_id = r.request_id;
    status_code = 504;
    body = timeout_error (extract_request_id loads r.body);
  }

  -- The first send; one that raises is answered like a request that failed, or timed out.
  abbrev pub ok_sent : TunnelRequest → TunnelResponse → Sent → Sent → Handled
  ok_sent r answer sent second = record {
    sends = (answer, sent) ∷ [];
    reported = some answer.status_code;
  }
  ok_sent r answer fails second = error_answer ((answer, fails) ∷ []) (internal_answer r) second
  ok_sent r answer times_out second =
      error_answer ((answer, times_out) ∷ []) (timeout_answer r) second
  ok_sent r answer interrupted second = record {
    sends = (answer, interrupted) ∷ [];
    reported = none;
  }

  unfoldable pub handle_processed : TunnelRequest → Processed → Sent → Sent → Handled
  unfolding extract_request_id
  handle_processed r (replied reply) first second = ok_sent r (ok_answer r reply) first second
  handle_processed r timed_out first second = error_answer [] (timeout_answer r) first
  handle_processed r broke first second = error_answer [] (internal_answer r) first
  handle_processed r cancelled first second = record { sends = []; reported = none }

  unfoldable pub handle_request : TunnelRequest → Processed → Sent → Sent → Handled
  unfolding handle_processed
  handle_request r outcome first second = handle_processed r (process r.body outcome) first second

-- A message that was received, and whether sending the pong for a ping returns.
pub record Received : Type 0 where
  pub parsed : ParseResult
  pub pong_returns : Bool

pub data Effect : Type 0 where
  skipped request_spawned pong_sent error_reported unknown_warned : Effect

-- How the receive loop ends: the iterator stops, it raises ConnectionClosed with the server's close
-- frame or without one, or something else is raised.
pub data LoopEnd : Type 0 where
  iterator_stops : LoopEnd
  closed_ok : LoopEnd
  closed_by_frame : ℕ → List ℕ → LoopEnd
  closed_without_frame : List ℕ → LoopEnd
  raises : List ℕ → LoopEnd

-- One round: what it does, or what it raises.
abbrev pub dispatch : String → Bool → List ℕ → Option Effect × LoopEnd
dispatch name pong_returns failure =
    if str_eq name "request"
    then (some request_spawned, iterator_stops)
    else if str_eq name "ping"
    then (if pong_returns then (some pong_sent, iterator_stops) else (none, raises failure))
    else if str_eq name "error"
    then (some error_reported, iterator_stops)
    else (some unknown_warned, iterator_stops)

unfoldable pub receive_one : List ℕ → Received → Option Effect × LoopEnd
receive_one failure m = elim m.parsed [
  | value_error ↦ (some skipped, iterator_stops)
  | type_error ↦ (none, raises failure)
  | message name ↦ dispatch name m.pong_returns failure
]

abbrev pub and_then : Option Effect × LoopEnd → List Effect × LoopEnd → List Effect × LoopEnd
and_then (none, end) rest = ([], end)
and_then (some effect, end) (effects, later) = (effect ∷ effects, later)

-- `failure` is the text of an exception; `end` is how the iterator ends after these messages.
unfoldable pub receive_loop : List ℕ → LoopEnd → List Received → List Effect × LoopEnd
unfolding receive_one
receive_loop failure end [] = ([], end)
receive_loop failure end (m ∷ messages) =
    and_then (receive_one failure m) (receive_loop failure end messages)

abbrev pub going_away : ℕ
going_away = 1001

-- What ends the task group first: the receive loop, or the health check's timeout.
pub data GroupEnd : Type 0 where
  received_until : LoopEnd → GroupEnd
  health_timeout : List ℕ → GroupEnd

abbrev pub or_lost : List ℕ → List ℕ → List ℕ
or_lost lost [] = lost
or_lost lost (c ∷ reason) = c ∷ reason

abbrev pub connection_closed : List ℕ
connection_closed = codes "Connection closed"

-- The close code and the reason that `run` returns.
unfoldable pub close_result : GroupEnd → ℕ × List ℕ
close_result (received_until iterator_stops) = (CloseCodes.normal, connection_closed)
close_result (received_until closed_ok) = (CloseCodes.normal, codes "Normal closure")
close_result (received_until (closed_by_frame code reason)) =
    (code, or_lost (codes "Connection lost") reason)
close_result (received_until (closed_without_frame reason)) = (going_away, reason)
close_result (received_until (raises reason)) = (going_away, reason)
close_result (health_timeout reason) = (going_away, reason)

-- The first message: none in time or a failed receive, or one that was parsed, with whether it has a
-- url.
pub data Handshake : Type 0 where
  no_message : Handshake
  first_message : ParseResult → Bool → Handshake

unfoldable pub is_established : Handshake → Bool
is_established no_message = false
is_established (first_message value_error has_url) = false
is_established (first_message type_error has_url) = false
is_established (first_message (message name) has_url) = str_eq name "tunnel_established" && has_url

-- `run` raises TunnelConnectionError, or returns and reports the end of the connection.
pub data RunEnd : Type 0 where
  connection_error : RunEnd
  disconnected : ℕ → List ℕ → RunEnd

abbrev pub disconnected_with : ℕ × List ℕ → RunEnd
disconnected_with (code, reason) = disconnected code reason

unfoldable pub run : Bool → Handshake → GroupEnd → RunEnd
unfolding is_established close_result
run connects handshake end =
    if connects && is_established handshake
    then disconnected_with (close_result end)
    else connection_error

-- The pause of the health check, and the latest ping that came in it; times are milliseconds.
pub record Tick : Type 0 where
  pub slept : ℕ
  pub pinged : Option ℕ

abbrev pub heartbeat_interval : ℕ
heartbeat_interval = 30000

abbrev pub health_check_timeout : ℕ
health_check_timeout = 60000

abbrev pub latest : ℕ → Option ℕ → ℕ
latest last none = last
latest last (some ping) = ping

-- The time without a ping at which the check gives up; `none` while it goes on.
unfoldable pub health_check_loop : ℕ → ℕ → List Tick → Option ℕ
health_check_loop now last [] = none
health_check_loop now last (tick ∷ ticks) =
    let now' = now + tick.slept in
    let last' = latest last tick.pinged in
    let rest = health_check_loop now' last' ticks in
    if ltb health_check_timeout (now' - last') then some (now' - last') else rest
