-- ===== src/Bridge/System/Guarantees.antt =====
-- What clients of the bridge can rely on, in any interleaving.
use anki_mcp_server_addon.Prelude.{
  String, eq_iff, ◌≡◌, ◌≢◌, refl, sym, ◌∙◌, true, false, Option, none, some, inl, inr, List, [],
  ◌∷◌, arith, All,
}
use anki_mcp_server_addon.Prelude.Dict
use anki_mcp_server_addon.Prelude.Dict.{Dict, get-put, get-remove}
use anki_mcp_server_addon.Bridge.Handlers.{ToolRequest, ToolResponse, Handler}
use anki_mcp_server_addon.Bridge.Queues.{receive}
use anki_mcp_server_addon.Bridge.System.{
  Thread, refused, unannounced, blocked, returned, System, Event, calls, receives, initial,
  receive_by, step, run,
}
use anki_mcp_server_addon.Bridge.System.Invariant.{Noticed}
use anki_mcp_server_addon.Bridge.System.Invariant.Runs.{AllWakersReturn, initial-Inv, run-Inv}

module _ {Args Value : Type 0} (handlers : Dict (Handler Args Value)) where
  -- In any interleaving whose wakers return, a call that returns a response returns one that carries
  -- the identifier of its own request.
  pub no_crosstalk :
      (events : List (Event Args)) (id : String) (thread : Thread Args Value)
      (response : ToolResponse Value)
      → AllWakersReturn events
      → Dict.get id (run handlers initial events).threads ≡ some thread
      → thread.phase ≡ returned response
      → response.request_id ≡ thread.request.request_id
  no_crosstalk events id thread response w found back =
      let h = run-Inv handlers events initial w initial-Inv in
      h.own id thread response found back ∙ sym (h.named id thread found)

  -- In any interleaving whose wakers return, while the processor is active, a nonempty request queue
  -- is about to be looked at: a drain is scheduled or under way, or a thread that has put its request
  -- has still to wake the main thread.
  pub no_lost_wakeup :
      (events : List (Event Args))
      → AllWakersReturn events
      → (run handlers initial events).processor.active ≡ true
      → (run handlers initial events).processor.scheduled ≡ 0
      → (run handlers initial events).processor.draining ≡ false
      → ((id : String) (thread : Thread Args Value)
          → Dict.get id (run handlers initial events).threads ≡ some thread
          → thread.phase ≢ unannounced)
      → (run handlers initial events).processor.bridge.request_queue ≡ []
  no_lost_wakeup events w active none_due idle silent =
      by_cause ((run-Inv handlers events initial w initial-Inv).noticed active)
    where
      by_cause :
          Noticed (run handlers initial events)
          → (run handlers initial events).processor.bridge.request_queue ≡ []
      by_cause (inl nothing) = nothing
      by_cause (inr (inl due)) = absurd (omega arith)
      by_cause (inr (inr (inl busy))) = cc (busy, idle)
      by_cause (inr (inr (inr (id, thread, found, soon)))) = absurd (silent id thread found soon)

  received :
      (id : String) (thread : Thread Args Value) (box : Option (List (ToolResponse Value)))
      (s : System Args Value)
      → Dict.get id s.processor.bridge.pending ≡ box
      → Dict.get id s.threads ≡ some thread
      → thread.phase ≡ blocked
      → box ≢ none
      → box ≢ some []
      → ((responses : List (ToolResponse Value))
          → box ≡ some responses
          → All (λ (response : ToolResponse Value). response.request_id ≡ id) responses)
      → (response : ToolResponse Value) × (response.request_id ≡ id)
        × (Dict.get id (step handlers s (receives id)).threads
            ≡ some (record thread { phase = returned response }))
        × (Dict.get id (step handlers s (receives id)).processor.bridge.pending ≡ none)
  unfolding step receive_by receive
  received id thread none s here found wait there nonempty addressed = absurd (there refl)
  received id thread (some []) s here found wait there nonempty addressed = absurd (nonempty refl)
  received id thread (some (response ∷ rest)) s here found wait there nonempty addressed = (
    response,
    (addressed (response ∷ rest) refl).0,
    ground (
      arith,
      here,
      found,
      wait,
      get-put id id (record thread { phase = returned response }) s.threads,
      eq_iff id id,
    ),
    ground (arith, here, found, wait, get-remove id id s.processor.bridge.pending, eq_iff id id),
  )

  -- In any interleaving whose wakers return, once the bridge is shut down, a thread that waits for
  -- its response can go on at once: it receives a response that carries
  -- the identifier of its own request, and leaves no entry.
  pub shutdown_unblocks :
      (events : List (Event Args)) (id : String) (thread : Thread Args Value)
      → AllWakersReturn events
      → (run handlers initial events).processor.bridge.is_shutdown ≡ true
      → Dict.get id (run handlers initial events).threads ≡ some thread
      → thread.phase ≡ blocked
      → let s = step handlers (run handlers initial events) (receives id) in
        (response : ToolResponse Value) × (response.request_id ≡ thread.request.request_id)
        × (Dict.get id s.threads ≡ some (record thread { phase = returned response }))
        × (Dict.get id s.processor.bridge.pending ≡ none)
  shutdown_unblocks events id thread w down found wait =
      let h = run-Inv handlers events initial w initial-Inv in
      let named = h.named id thread found in
      let (response, own, found_after, gone) =
        received id thread (Dict.get id (run handlers initial events).processor.bridge.pending)
          (run handlers initial events) refl found wait (h.listed id thread found (rw wait))
          (h.answered down id) (λ responses boxed. h.addressed id responses boxed) in
      (response, own ∙ sym named, found_after, gone)

  -- After a shutdown a new call is refused, and neither queue has it.
  pub shutdown_refuses :
      (request : ToolRequest Args) (s : System Args Value)
      → s.processor.bridge.is_shutdown ≡ true
      → Dict.get request.request_id s.threads ≡ none
      → ((step handlers s (calls request)).processor ≡ s.processor)
        × (Dict.get request.request_id (step handlers s (calls request)).threads
            ≡ some (record { request = request; phase = refused }))
  unfolding step
  shutdown_refuses request s down fresh = (
    ground arith,
    ground (
      arith,
      eq_iff request.request_id request.request_id,
      get-put {V = Thread Args Value} request.request_id request.request_id
          (record { request = request; phase = refused }) s.threads,
    ),
  )
