-- ===== src/Lifecycle/Consistent.antt =====
-- The parts that the manager starts and stops agree with one another.
use anki_mcp_server_addon.Prelude.{String, ◌≡◌, refl, All, inr, Bool, true, List, [], ◌∷◌}
use anki_mcp_server_addon.Prelude.Dict.{Dict}
use anki_mcp_server_addon.Bridge.Handlers.{Handler}
use anki_mcp_server_addon.Lifecycle.{
  Settings, Manager, new, stop, restart, Event, starts, stops, restarts, updates, connects,
  disconnects, logs_out, established, tunnel_stopped, sends, drains, drains_one, step, run,
}
use anki_mcp_server_addon.Lifecycle.States.{
  IsConsistent, same-IsConsistent, connect_tunnel-IsSame, disconnect_tunnel-IsSame,
  logout_tunnel-IsSame, established-IsSame, tunnel_stopped-IsSame, send-IsSame, begin_drain-IsSame,
  drain_round-IsSame,
}
use anki_mcp_server_addon.Lifecycle.Updates.{
  start-IsConsistent, stop-IsConsistent, update_config-IsConsistent,
}

-- An update whose url the login client accepts, or another event.
abbrev pub IsAccepted : {Args : Type 0} → (String → Bool) → Event Args → Type 0
IsAccepted accepts (updates s) = accepts s.tunnel_server_url ≡ true
IsAccepted accepts _ = Unit

module _ {Args Value : Type 0} (accepts : String → Bool)
    (handlers : Dict (Handler Args Value)) where
  step-IsConsistent :
      (event : Event Args) (m : Manager Args Value)
      → IsAccepted accepts event
      → IsConsistent m
      → IsConsistent (step accepts handlers event m)
  unfolding step
  step-IsConsistent starts m ok c = start-IsConsistent m c
  step-IsConsistent stops m ok c = stop-IsConsistent m c
  step-IsConsistent restarts m ok c =
      unfold restart in start-IsConsistent (stop m) (stop-IsConsistent m c)
  step-IsConsistent (updates s) m ok c = update_config-IsConsistent accepts s m ok c
  step-IsConsistent (connects connected logged_in) m ok c =
      same-IsConsistent (connect_tunnel-IsSame connected logged_in m) c
  step-IsConsistent disconnects m ok c = same-IsConsistent (disconnect_tunnel-IsSame m) c
  step-IsConsistent logs_out m ok c = same-IsConsistent (logout_tunnel-IsSame m) c
  step-IsConsistent (established url) m ok c = same-IsConsistent (established-IsSame url m) c
  step-IsConsistent tunnel_stopped m ok c = same-IsConsistent (tunnel_stopped-IsSame m) c
  step-IsConsistent (sends request) m ok c = same-IsConsistent (send-IsSame request m) c
  step-IsConsistent drains m ok c = same-IsConsistent (begin_drain-IsSame m) c
  step-IsConsistent drains_one m ok c = same-IsConsistent (drain_round-IsSame handlers m) c

  run_from :
      (events : List (Event Args)) (m : Manager Args Value)
      → All (IsAccepted accepts) events
      → IsConsistent m
      → IsConsistent (run accepts handlers events m)
  unfolding run
  run_from [] m ok c = c
  run_from (event ∷ events) m (ok, rest) c =
      run_from events (step accepts handlers event m) rest (step-IsConsistent event m ok c)

  -- Whatever is done to a new manager, as long as updates have urls that the login client accepts, the
  -- login client has the settings in force; and either server and processor both run, the server
  -- under the settings in force and the processor over an open bridge that wakes it, or neither is
  -- there, nothing wakes the processor, and the bridge refuses requests or was never used.
  pub run-IsConsistent :
      (settings : Settings) (events : List (Event Args))
      → All (IsAccepted accepts) events
      → IsConsistent (run accepts handlers events (new settings))
  unfolding new
  run-IsConsistent settings events ok = run_from events (new settings) ok (
    refl,
    inr (record {
      no_processor = refl;
      no_server = refl;
      inactive = refl;
      waker_clear = refl;
      bridge_closed = inr refl;
    }),
  )
