-- ===== src/Bridge/System/Invariant.antt =====
-- What holds of the bridge, the processor and the threads after every event.
pub mod Clients
pub mod Main
pub mod Runs
use anki_mcp_server_addon.Prelude.{
  ℕ, zero, suc, ◌+◌, ◌<◌, String, str_eq, eq_iff, eq_refl, ◌≡◌, ◌≢◌, refl, ap, sym, subst, ◌∙◌,
  Bool, true, false, ◌⊎◌, inl, inr, Option, none, some, List, [], ◌∷◌, ◌++◌, arith, All, Bool-cases,
  Option-cases, if◌then◌else◌,
}
use anki_mcp_server_addon.Prelude.Dict
use anki_mcp_server_addon.Prelude.Dict.{Dict, get-put, get-remove}
use anki_mcp_server_addon.Bridge.Handlers.{ToolRequest, ToolResponse, Handler}
use anki_mcp_server_addon.Bridge.Queues.{
  Bridge, register, put_request, unregister, receive, deliver, down_response, answer_all, shutdown,
  send_response, get_pending_request,
}
use anki_mcp_server_addon.Bridge.Processor
use anki_mcp_server_addon.Bridge.Processor.{
  Processor, execute_tool, schedule, begin_drain, drain_round,
}
use anki_mcp_server_addon.Bridge.System.{
  Phase, refused, registered, unannounced, blocked, returned, timed_out, Thread, System, Event,
  calls, puts, wakes, receives, expires, begins, drains, starts, stops, shuts_down, step, run,
  initial,
}

module _ {Value : Type 0} where
  -- A queue holds responses to its own request only.
  abbrev pub Addressed : String → List (ToolResponse Value) → Type 0
  Addressed id responses = All (λ (r : ToolResponse Value). r.request_id ≡ id) responses

  abbrev pub AllAddressed : Dict (List (ToolResponse Value)) → Type 0
  AllAddressed pending =
      (id : String) (responses : List (ToolResponse Value))
      → Dict.get id pending ≡ some responses
      → Addressed id responses

  abbrev pub AllAnswered : Dict (List (ToolResponse Value)) → Type 0
  AllAnswered pending = (id : String) → Dict.get id pending ≢ some []

  Addressed-append :
      (id : String) (xs : List (ToolResponse Value)) (response : ToolResponse Value)
      → Addressed id xs
      → response.request_id ≡ id
      → Addressed id (xs ++ response ∷ [])
  Addressed-append id [] response h e = (e, tt)
  Addressed-append id (x ∷ xs) response h e = (h.0, Addressed-append id xs response h.1 e)

  abbrev grown :
      Bool
      → ToolResponse Value
      → Option (List (ToolResponse Value))
      → Option (List (ToolResponse Value))
  grown hit response none = none
  grown hit response (some responses) = some (if hit then responses ++ response ∷ [] else responses)

  pub get-deliver :
      (response : ToolResponse Value) (id : String) (pending : Dict (List (ToolResponse Value)))
      → Dict.get id (deliver response pending)
        ≡ grown (str_eq response.request_id id) response (Dict.get id pending)
  unfolding deliver
  get-deliver response id pending = elim (Option-cases (Dict.get response.request_id pending)) [
    | inl gone ↦ ground (arith, gone, eq_iff response.request_id id)
    | inr (old, here) ↦ ground (
      arith,
      here,
      eq_iff response.request_id id,
      get-put response.request_id id (old ++ response ∷ []) pending,
    )
  ]

  grown-Addressed :
      (hit : Bool) (response : ToolResponse Value) (id : String)
      (o : Option (List (ToolResponse Value))) (responses : List (ToolResponse Value))
      → (hit ≡ true → response.request_id ≡ id)
      → ((rs : List (ToolResponse Value)) → o ≡ some rs → Addressed id rs)
      → grown hit response o ≡ some responses
      → Addressed id responses
  grown-Addressed hit response id none responses named h e = cc
  grown-Addressed true response id (some rs) responses named h e =
      subst (Addressed id) (ground arith) (Addressed-append id rs response (h rs refl) (named refl))
  grown-Addressed false response id (some rs) responses named h e =
      subst (Addressed id) (ground arith) (h rs refl)

  pub deliver-AllAddressed :
      (response : ToolResponse Value) (pending : Dict (List (ToolResponse Value)))
      → AllAddressed pending
      → AllAddressed (deliver response pending)
  deliver-AllAddressed response pending h id responses found =
      grown-Addressed (str_eq response.request_id id) response id (Dict.get id pending) responses
        (eq_iff response.request_id id).0 (h id) (sym (get-deliver response id pending) ∙ found)

  append-ne-nil :
      (rs : List (ToolResponse Value)) (response : ToolResponse Value) → rs ++ response ∷ [] ≢ []
  append-ne-nil [] response e = cc
  append-ne-nil (x ∷ rs) response e = cc

  pub deliver-AllAnswered :
      (response : ToolResponse Value) (pending : Dict (List (ToolResponse Value)))
      → AllAnswered pending
      → AllAnswered (deliver response pending)
  deliver-AllAnswered response pending h id found = elim (Option-cases (Dict.get id pending)) [
    | inl gone ↦ ground (arith, get-deliver response id pending)
    | inr (rs, here) ↦
        ground (arith, get-deliver response id pending, h id, append-ne-nil rs response)
  ]

  pub get-answer_all :
      (id : String) (pending : Dict (List (ToolResponse Value)))
      → Dict.get id (answer_all pending)
        ≡ elim (Dict.get id pending) [ none ↦ none | some rs ↦ some (rs ++ down_response id ∷ []) ]
  unfolding answer_all Dict.get
  get-answer_all id [] = refl
  get-answer_all id ((k, rs) ∷ pending) = ground (arith, get-answer_all id pending, eq_iff k id)

  pub answer_all-AllAnswered :
      (pending : Dict (List (ToolResponse Value))) → AllAnswered (answer_all pending)
  answer_all-AllAnswered pending id found = elim (Option-cases (Dict.get id pending)) [
    | inl gone ↦ ground (arith, get-answer_all id pending)
    | inr (rs, here) ↦
        ground (arith, get-answer_all id pending, append-ne-nil rs (down_response id))
  ]

  pub answer_all-AllAddressed :
      (pending : Dict (List (ToolResponse Value)))
      → AllAddressed pending
      → AllAddressed (answer_all pending)
  answer_all-AllAddressed pending h id responses found = elim (Option-cases (Dict.get id pending)) [
    | inl gone ↦ absurd (ground (arith, get-answer_all id pending))
    | inr (rs, here) ↦
        subst (Addressed id) (ground (arith, get-answer_all id pending))
          (Addressed-append id rs (down_response id) (h id rs here) refl)
  ]

module _ {Value : Type 0} where
  abbrev pub is_live : Phase Value → Bool
  is_live registered = true
  is_live unannounced = true
  is_live blocked = true
  is_live _ = false

module _ {Args Value : Type 0} where
  -- A request waits only while something will look at the queue.
  abbrev pub Noticed : System Args Value → Type 0
  Noticed s =
      (s.processor.bridge.request_queue ≡ [])
      ⊎ ((0 < s.processor.scheduled)
          ⊎ ((s.processor.draining ≡ true)
              ⊎ ((id : String) × (thread : Thread Args Value) × (Dict.get id s.threads
                    ≡ some thread)
                  × (thread.phase ≡ unannounced))))

  pub record Inv (s : System Args Value) : Type 0 where
    pub addressed : AllAddressed s.processor.bridge.pending
    pub answered : s.processor.bridge.is_shutdown ≡ true → AllAnswered s.processor.bridge.pending
    pub waker : s.processor.active ≡ true → s.processor.bridge.has_waker ≡ true
    pub noticed : s.processor.active ≡ true → Noticed s
    pub listed :
        (id : String) (thread : Thread Args Value)
        → Dict.get id s.threads ≡ some thread
        → is_live thread.phase ≡ true
        → Dict.get id s.processor.bridge.pending ≢ none
    pub own :
        (id : String) (thread : Thread Args Value) (response : ToolResponse Value)
        → Dict.get id s.threads ≡ some thread
        → thread.phase ≡ returned response
        → response.request_id ≡ id
    pub named :
        (id : String) (thread : Thread Args Value)
        → Dict.get id s.threads ≡ some thread
        → thread.request.request_id ≡ id
