-- ===== src/Bridge/Examples.antt =====
-- Test data for the bridge, and the theorems about it at that data: handlers that double and that
-- raise, and two threads.
use anki_mcp_server_addon.Prelude.{
  ℕ, ◌*◌, String, ◌≡◌, ◌≢◌, refl, true, false, none, some, inl, inr, List, [], ◌∷◌,
}
use anki_mcp_server_addon.Prelude.Dict
use anki_mcp_server_addon.Prelude.Dict.{Dict}
use anki_mcp_server_addon.Bridge.Handlers.{
  ToolRequest, ToolResponse, Handler, handler_raised, shutting_down, execute,
}
use anki_mcp_server_addon.Bridge.Processor
use anki_mcp_server_addon.Bridge.System.{
  System, Thread, unannounced, blocked, returned, Event, calls, puts, wakes, receives, begins,
  drains, starts, shuts_down, initial, step, run,
}
use anki_mcp_server_addon.Bridge.System.Guarantees.{no_crosstalk, no_lost_wakeup, shutdown_unblocks}
use anki_mcp_server_addon.Bridge.System.Drain.{loaded, rounds, Drained, drain_answers_all}

abbrev double : Handler ℕ ℕ
double n = inr (2 * n)

abbrev raises : Handler ℕ ℕ
raises n = inl (handler_raised "broken")

abbrev handlers : Dict (Handler ℕ ℕ)
handlers = ("double", double) ∷ ("raises", raises) ∷ []

abbrev request_a : ToolRequest ℕ
request_a = record { request_id = "a"; tool_name = "double"; arguments = 21 }

abbrev request_b : ToolRequest ℕ
request_b = record { request_id = "b"; tool_name = "raises"; arguments = 3 }

abbrev answer_a : ToolResponse ℕ
answer_a = record { request_id = "a"; success = true; outcome = some 42; failure = none }

abbrev down_a : ToolResponse ℕ
down_a = record { request_id = "a"; success = false; outcome = none; failure = some shutting_down }

-- Two calls meet, and one drain answers both.
abbrev served : List (Event ℕ)
served =
    starts
    ∷ calls request_a
    ∷ calls request_b
    ∷ puts "b"
    ∷ puts "a"
    ∷ wakes "a" true
    ∷ wakes "b" true
    ∷ begins
    ∷ drains
    ∷ drains
    ∷ drains
    ∷ begins
    ∷ drains
    ∷ begins
    ∷ drains
    ∷ receives "a"
    ∷ []

abbrev cut_off : List (Event ℕ)
cut_off = calls request_a ∷ puts "a" ∷ wakes "a" true ∷ shuts_down ∷ []

abbrev thread_a : Thread ℕ ℕ
thread_a = record { request = request_a; phase = returned answer_a }

abbrev waiting_a : Thread ℕ ℕ
waiting_a = record { request = request_a; phase = blocked }

abbrev no_handlers : Dict (Handler ℕ ℕ)
no_handlers = []

abbrev doubles : Dict (Handler ℕ ℕ)
doubles = ("double", double) ∷ []

abbrev four : ℕ
four = 4

no_crosstalk_example : answer_a.request_id ≡ thread_a.request.request_id
unfolding run Dict.get Dict.put Processor.execute_tool execute
no_crosstalk_example =
    no_crosstalk handlers served "a" thread_a answer_a
      (
        tt,
        (
          tt,
          (
            tt,
            (tt, (tt, (refl, (refl, (tt, (tt, (tt, (tt, (tt, (tt, (tt, (tt, (tt, tt))))))))))))),
          ),
        ),
      )
      refl refl

no_threads :
    (id : String) (thread : Thread ℕ ℕ) → Dict.get id [] ≡ some thread → thread.phase ≢ unannounced
unfolding Dict.get
no_threads id thread h = cc

no_lost_wakeup_example :
    (run handlers initial (starts ∷ begins ∷ drains ∷ [])).processor.bridge.request_queue ≡ []
unfolding run
no_lost_wakeup_example =
    no_lost_wakeup handlers (starts ∷ begins ∷ drains ∷ []) (tt, (tt, (tt, tt))) refl refl refl
      no_threads

shutdown_unblocks_example :
    (response : ToolResponse ℕ) × (response.request_id ≡ waiting_a.request.request_id)
    × (Dict.get "a" (step handlers (run handlers initial cut_off) (receives "a")).threads
        ≡ some (record waiting_a { phase = returned response }))
    × (Dict.get "a"
          (step handlers (run handlers initial cut_off) (receives "a")).processor.bridge.pending
        ≡ none)
unfolding run Dict.get Dict.put
shutdown_unblocks_example =
    shutdown_unblocks handlers cut_off "a" waiting_a (tt, (tt, (refl, (tt, tt)))) refl refl refl

abbrev both_wait : System ℕ ℕ
both_wait = run handlers initial (calls request_a ∷ calls request_b ∷ [])

drain_answers_all_example :
    Drained handlers
      (request_a ∷ request_b ∷ [])
      both_wait
      (run handlers (loaded handlers (request_a ∷ request_b ∷ []) both_wait) (rounds handlers 3))
drain_answers_all_example = drain_answers_all handlers (request_a ∷ request_b ∷ []) both_wait
