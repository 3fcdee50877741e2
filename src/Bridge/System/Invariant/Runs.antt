-- ===== src/Bridge/System/Invariant/Runs.antt =====
-- The invariant after any events, as long as the waker returns.
use anki_mcp_server_addon.Prelude.{
  String, ◌≡◌, refl, true, false, Option, none, some, List, [], ◌∷◌,
}
use anki_mcp_server_addon.Prelude.Dict
use anki_mcp_server_addon.Prelude.Dict.{Dict}
use anki_mcp_server_addon.Bridge.Handlers.{Handler}
use anki_mcp_server_addon.Bridge.System.{
  Thread, Phase, System, Event, calls, puts, wakes, receives, expires, begins, drains, starts,
  stops, shuts_down, initial, on_thread, put_by, wake_by, receive_by, expire_by, step, run,
}
use anki_mcp_server_addon.Bridge.System.Invariant.{Inv}
use anki_mcp_server_addon.Bridge.System.Invariant.Clients.{
  call-Inv, put_by-Inv, wake_by-Inv, receive_by-Inv, expire_by-Inv,
}
use anki_mcp_server_addon.Bridge.System.Invariant.Main.{
  begin_drain-Inv, drain_round-Inv, start-Inv, stop-Inv, shutdown-Inv,
}

abbrev pub WakerReturns : {Args : Type 0} → Event Args → Type 0
WakerReturns (wakes id returns) = returns ≡ true
WakerReturns _ = Unit

abbrev pub AllWakersReturn : {Args : Type 0} → List (Event Args) → Type 0
AllWakersReturn [] = Unit
AllWakersReturn (event ∷ events) = WakerReturns event × AllWakersReturn events

module _ {Args Value : Type 0} where
  on_thread-Inv :
      (act : Thread Args Value → Phase Value → System Args Value → System Args Value) (id : String)
      (found : Option (Thread Args Value)) (s : System Args Value)
      → ((thread : Thread Args Value)
          → Dict.get id s.threads ≡ some thread
          → Inv (act thread thread.phase s))
      → Dict.get id s.threads ≡ found
      → Inv s
      → Inv (on_thread act found s)
  unfolding on_thread
  on_thread-Inv act id none s acts e h = h
  on_thread-Inv act id (some thread) s acts e h = acts thread e

  pub initial-Inv : Inv (initial {Args = Args} {Value = Value})
  unfolding Dict.get
  initial-Inv = record {
    addressed = λ id responses found. cc;
    answered = λ down. cc;
    waker = λ active. cc;
    noticed = λ active. cc;
    listed = λ id thread found. cc;
    own = λ id thread response found. cc;
    named = λ id thread found. cc;
  }

  module _ (handlers : Dict (Handler Args Value)) where
    pub step-Inv :
        (s : System Args Value) (event : Event Args)
        → WakerReturns event
        → Inv s
        → Inv (step handlers s event)
    unfolding step
    step-Inv s (calls request) w h =
        call-Inv request (Dict.get request.request_id s.threads) s refl h
    step-Inv s (puts id) w h =
        on_thread-Inv (put_by id) id (Dict.get id s.threads) s
          (λ thread found. put_by-Inv id thread thread.phase s found refl h) refl h
    step-Inv s (wakes id true) w h =
        on_thread-Inv (wake_by id true) id (Dict.get id s.threads) s
          (λ thread found. wake_by-Inv id thread thread.phase s found refl h) refl h
    step-Inv s (wakes id false) w h = cc
    step-Inv s (receives id) w h =
        on_thread-Inv (receive_by id) id (Dict.get id s.threads) s
          (λ thread found. receive_by-Inv id thread thread.phase s found refl h) refl h
    step-Inv s (expires id) w h =
        on_thread-Inv (expire_by id) id (Dict.get id s.threads) s
          (λ thread found. expire_by-Inv id thread thread.phase s found refl h) refl h
    step-Inv s begins w h = begin_drain-Inv s h
    step-Inv s drains w h = drain_round-Inv handlers s h
    step-Inv s starts w h = start-Inv s h
    step-Inv s stops w h = stop-Inv s h
    step-Inv s shuts_down w h = shutdown-Inv s h

    pub run-Inv :
        (events : List (Event Args)) (s : System Args Value)
        → AllWakersReturn events
        → Inv s
        → Inv (run handlers s events)
    unfolding run
    run-Inv [] s w h = h
    run-Inv (event ∷ events) s w h =
        run-Inv events (step handlers s event) w.1 (step-Inv s event w.0 h)
