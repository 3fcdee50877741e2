-- ===== src/Tunnel/Examples.antt =====
-- Test data for the tunnel, and the theorems about it at that data.
use anki_mcp_server_addon.Prelude.{
  ℕ, String, ◌≡◌, ◌↔◌, refl, Bool, true, false, ◌&&◌, Option, none, some, List, [], ◌∷◌, codes, leb,
  arith,
}
use anki_mcp_server_addon.Tunnel.CloseCodes
use anki_mcp_server_addon.Tunnel.Protocol.{
  Decoded, object, text, unhashable, message, type_error, parse_server_message,
}
use anki_mcp_server_addon.Tunnel.Protocol.Messages.{IsKnown, parse_outcomes}
use anki_mcp_server_addon.Tunnel.Reconnect
use anki_mcp_server_addon.Tunnel.Reconnect.{
  Round, refreshed, refused, closed, connection_failed, unfinished, calculate_delay, max_delay,
  run_loop,
}
use anki_mcp_server_addon.Tunnel.Reconnect.Hot.{
  HasEnded, IsRejected, rejections, fruitless_ends, rejections_go_on,
}
use anki_mcp_server_addon.Tunnel.Reconnect.Stop.{IsReported, run-StopsOnce}

-- A decoder that knows two texts.
abbrev loads : List ℕ → Option Decoded
loads [] = none
loads (c ∷ []) = some (object (some (text "ping")))
loads (c ∷ d ∷ raw) = some (object (some unhashable))

parse_outcomes_example :
    ((name : String)
      → (parse_server_message loads (codes "p") ≡ message name)
        ↔ ((loads (codes "p") ≡ some (object (some (text name)))) × IsKnown name))
    × ((parse_server_message loads (codes "p") ≡ type_error)
        ↔ (loads (codes "p") ≡ some (object (some unhashable))))
parse_outcomes_example = parse_outcomes loads (codes "p")

ping_read : parse_server_message loads (codes "p") ≡ message "ping"
unfolding parse_server_message
ping_read = refl

abbrev is_ascii_digit : ℕ → Bool
is_ascii_digit c = leb 48 c && leb c 57

-- The connection fails in each round.
abbrev unreachable : Round
unreachable = record {
  has_credentials = true;
  token_expired = false;
  refresh_before = refused;
  shutdown_before = false;
  cancelled_starting = false;
  transport_starts = true;
  established = false;
  client = connection_failed;
  refresh_after = refused;
  shutdown_during = false;
  jitter = 200;
  cancelled_asleep = false;
  shutdown_asleep = false;
}

abbrev rejected : Round
rejected = record unreachable {
  client = closed CloseCodes.auth_failed [];
  refresh_after = refreshed;
}

abbrev logged_out : Round
logged_out = record unreachable { has_credentials = false }

fruitless_ends_example : HasEnded (run_loop 8 false (unreachable ∷ unreachable ∷ [])).1
fruitless_ends_example =
    fruitless_ends (unreachable ∷ unreachable ∷ []) 8 false (omega arith) (omega arith)
      ((refl, λ e. cc), ((refl, λ e. cc), tt))

rejected-IsRejected : IsRejected rejected
rejected-IsRejected = record {
  credentials = refl;
  current = refl;
  no_shutdown = (refl, refl);
  starts = (refl, refl);
  silent = refl;
  reason = [];
  rejected = refl;
  renews = refl;
}

rejections_go_on_example :
    run_loop 0 false (rejected ∷ rejected ∷ [])
    ≡ (rejections (rejected ∷ rejected ∷ []), unfinished 0 false)
rejections_go_on_example =
    rejections_go_on (rejected ∷ rejected ∷ []) 0 (rejected-IsRejected, (rejected-IsRejected, tt))
      (λ e. cc)

run-StopsOnce_example :
    IsReported
      (logged_out ∷ [])
      (Reconnect.run (logged_out ∷ [])).1
      (Reconnect.run (logged_out ∷ [])).0
run-StopsOnce_example = run-StopsOnce (logged_out ∷ [])
