-- ===== src/Tunnel/Client/Examples.antt =====
-- The client at one request and at a silent server.
use anki_mcp_server_addon.Prelude.{
  ℕ, ◌+◌, ◌≤◌, ◌<◌, codes, ◌≡◌, refl, ◌⊎◌, Option, none, some, List, [], ◌∷◌, arith,
}
use anki_mcp_server_addon.Tunnel.Client.{
  ParsedBody, object_with, TunnelRequest, replied, sent, fails, Tick, heartbeat_interval,
  health_check_timeout, health_check_loop, handle_request,
}
use anki_mcp_server_addon.Tunnel.Client.Answers.{IsAnswered, IsDropped, handle_request_answers}
use anki_mcp_server_addon.Tunnel.Client.Health.{IsSilent, silence_noticed}

abbrev loads_seven : List ℕ → Option ParsedBody
loads_seven body = some (object_with "7")

abbrev ask : TunnelRequest
ask = record { request_id = "r1"; body = some (codes "{}") }

handle_request_answers_example :
    IsAnswered ask (handle_request loads_seven ask (replied (codes "ok")) fails sent)
    ⊎ IsDropped ask
        (replied (codes "ok"))
        fails
        sent
        (handle_request loads_seven ask (replied (codes "ok")) fails sent)
handle_request_answers_example =
    handle_request_answers loads_seven ask (replied (codes "ok")) fails sent

abbrev quiet : Tick
quiet = record { slept = 30001; pinged = none }

quiet-IsSilent : IsSilent 5 quiet
quiet-IsSilent = record { at_least = omega arith; at_most = omega arith; no_ping = refl }

silence_noticed_example :
    (silence : ℕ) × (health_check_loop 1000 900 (quiet ∷ quiet ∷ quiet ∷ []) ≡ some silence)
    × (health_check_timeout < silence)
    × (silence ≤ health_check_timeout + heartbeat_interval + 5)
silence_noticed_example =
    silence_noticed 1000 900 5 quiet quiet quiet [] (omega arith) (omega arith) quiet-IsSilent
      quiet-IsSilent quiet-IsSilent
