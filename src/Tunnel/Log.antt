-- ===== src/Tunnel/Log.antt =====
-- `TunnelLog` of anki_mcp_server/tunnel/log.py: the ring buffer of tunnel events. The lock makes each
-- method one step; the entries that were emitted as signals are kept in order.
mod Examples
pub mod Recent
use anki_mcp_server_addon.Prelude.{
  ℕ, ◌+◌, String, Bool, true, false, List, [], ◌∷◌, ◌++◌, codes, length, ltb, if◌then◌else◌,
}

pub data Level : Type 0 where
  info error request auth : Level

pub record LogEntry : Type 0 where
  pub timestamp : ℕ
  pub level : Level
  pub message : List ℕ

pub record TunnelLog : Type 0 where
  pub max_entries : ℕ
  pub entries : List LogEntry
  pub emitted : List LogEntry

unfoldable pub new : ℕ → TunnelLog
new max_entries = record { max_entries = max_entries; entries = []; emitted = [] }

-- `deque.append` under a maximal length: the oldest entry leaves a full buffer.
abbrev pub pop_left : List LogEntry → List LogEntry
pop_left [] = []
pop_left (entry ∷ entries) = entries

unfoldable pub append : ℕ → List LogEntry → LogEntry → List LogEntry
append max_entries entries entry =
    let all = entries ++ entry ∷ [] in if ltb max_entries (length all) then pop_left all else all

unfoldable pub add : LogEntry → TunnelLog → TunnelLog
unfolding append
add entry log = record log {
  entries = append log.max_entries log.entries entry;
  emitted = log.emitted ++ entry ∷ [];
}

-- The message of a request, over the texts of its path, status and rounded duration.
abbrev pub request_message : List ℕ → List ℕ → List ℕ → List ℕ
request_message path status duration =
    codes "→ " ++ path ++ codes " (" ++ status ++ codes ", " ++ duration ++ codes "ms)"

-- A call of one of the methods that write, at a time.
pub data Call : Type 0 where
  logs : Level → ℕ → List ℕ → Call
  logs_request : ℕ → List ℕ → List ℕ → List ℕ → Call
  clears : Call

abbrev pub entry_of : Level → ℕ → List ℕ → LogEntry
entry_of level now message = record { timestamp = now; level = level; message = message }

unfoldable pub apply : Call → TunnelLog → TunnelLog
unfolding add
apply (logs level now message) log = add (entry_of level now message) log
apply (logs_request now path status duration) log =
    add (entry_of request now (request_message path status duration)) log
apply clears log = record log { entries = [] }

unfoldable pub apply_all : List Call → TunnelLog → TunnelLog
unfolding apply
apply_all [] log = log
apply_all (call ∷ calls) log = apply_all calls (apply call log)

unfoldable pub get_entries : TunnelLog → List LogEntry
get_entries log = log.entries
