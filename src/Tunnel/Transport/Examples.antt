-- ===== src/Tunnel/Transport/Examples.antt =====
-- The transport at two requests.
use anki_mcp_server_addon.Prelude.{codes, ◌≡◌, refl, true, some, List, [], ◌∷◌}
use anki_mcp_server_addon.Prelude.Dict
use anki_mcp_server_addon.Tunnel.Transport.{
  Transport, Event, request, starts, handles, answers, waiting, result, initial, new_call, step,
  run,
}
use anki_mcp_server_addon.Tunnel.Transport.Calls.{IsServed, run-IsServed}
use anki_mcp_server_addon.Tunnel.Transport.Collision.{collision_misdelivers}

abbrev two_requests : List Event
two_requests = starts ∷ handles "a" (request "1") ∷ handles "b" (request "2") ∷ []

run-IsServed_example : IsServed (run initial two_requests) "a" (new_call "1" waiting)
unfolding step run Dict.get Dict.put
run-IsServed_example =
    run-IsServed two_requests "a" (new_call "1" waiting) (tt, (refl, (refl, tt))) refl refl

abbrev opened : Transport
opened = record { is_open = true; pending = []; calls = [] }

collision_misdelivers_example :
    let once =
      step
        (run opened (handles "a" (request "1") ∷ handles "aa" (request "1") ∷ []))
        (answers "1" (codes "x")) in
    (Dict.get "aa" once.calls ≡ some (new_call "1" (result (codes "x"))))
    × (Dict.get "a" once.calls ≡ some (new_call "1" waiting))
    × (step once (answers "1" (codes "y")) ≡ once)
unfolding Dict.get
collision_misdelivers_example =
    collision_misdelivers opened "a" "aa" "1" (codes "x") (codes "y") refl refl refl (λ e. cc)
