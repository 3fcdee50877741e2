-- ===== src/Bridge/System/Invariant/Main.antt =====
-- The events of the main thread keep the invariant.
use anki_mcp_server_addon.Prelude.{
  ℕ, zero, suc, String, ◌≡◌, ◌≢◌, refl, true, false, inl, inr, none, List, [], ◌∷◌, arith,
  Bool-cases, if◌then◌else◌,
}
use anki_mcp_server_addon.Prelude.Dict
use anki_mcp_server_addon.Prelude.Dict.{Dict, get-put, get-remove}
use anki_mcp_server_addon.Bridge.Handlers.{ToolRequest, ToolResponse, Handler}
use anki_mcp_server_addon.Bridge.Queues.{take_first, send_response, deliver, answer_all, shutdown}
use anki_mcp_server_addon.Bridge.Processor
use anki_mcp_server_addon.Bridge.Processor.{
  Processor, schedule, begin_drain, drain_round, answer, execute_tool, begin_of,
}
use anki_mcp_server_addon.Bridge.System.{System, on_main}
use anki_mcp_server_addon.Bridge.System.Invariant.{
  Inv, Noticed, AllAddressed, AllAnswered, get-deliver, get-answer_all, deliver-AllAddressed,
  deliver-AllAnswered, answer_all-AllAddressed, answer_all-AllAnswered,
}

module _ {Value : Type 0} where
  kept-deliver :
      (response : ToolResponse Value) (k : String) (pending : Dict (List (ToolResponse Value)))
      → Dict.get k pending ≢ none
      → Dict.get k (deliver response pending) ≢ none
  kept-deliver response k pending there gone = ground (arith, get-deliver response k pending, there)

  kept-answer_all :
      (k : String) (pending : Dict (List (ToolResponse Value)))
      → Dict.get k pending ≢ none
      → Dict.get k (answer_all pending) ≢ none
  kept-answer_all k pending there gone = ground (arith, get-answer_all k pending, there)

module _ {Args Value : Type 0} where
  -- The main thread changes no thread, and drops no entry of `pending`.
  main-Inv :
      (s : System Args Value) (p : Processor Args Value)
      → Inv s
      → ((k : String)
          → Dict.get k s.processor.bridge.pending ≢ none
          → Dict.get k p.bridge.pending ≢ none)
      → AllAddressed p.bridge.pending
      → (p.bridge.is_shutdown ≡ true → AllAnswered p.bridge.pending)
      → (p.active ≡ true → p.bridge.has_waker ≡ true)
      → (p.active ≡ true → Noticed (record s { processor = p }))
      → Inv (record s { processor = p })
  main-Inv s p h kept addressed answered waker noticed = record {
    addressed = addressed;
    answered = answered;
    waker = waker;
    noticed = noticed;
    listed = λ k thread found live. kept k (h.listed k thread found live);
    own = h.own;
    named = h.named;
  }

  begin_of-Inv :
      (n : ℕ) (s : System Args Value)
      → Inv s
      → Inv (record s { processor = begin_of n s.processor })
  begin_of-Inv zero s h = h
  begin_of-Inv (suc n) s h =
      main-Inv s (record s.processor { scheduled = n; draining = s.processor.active }) h
        (λ k there. there) h.addressed h.answered h.waker λ active. inr (inr (inl active))

  pub begin_drain-Inv : (s : System Args Value) → Inv s → Inv (on_main begin_drain s)
  unfolding begin_drain
  begin_drain-Inv s h = elim (Bool-cases s.processor.draining) [
    | inl busy ↦ simp busy h
    | inr idle ↦ simp idle (begin_of-Inv s.processor.scheduled s h)
  ]

  round-Inv :
      (handlers : Dict (Handler Args Value)) (requests : List (ToolRequest Args))
      (s : System Args Value)
      → s.processor.bridge.request_queue ≡ requests
      → s.processor.draining ≡ true
      → Inv s
      → Inv (record s {
        processor = answer handlers (take_first requests s.processor.bridge) s.processor;
      })
  unfolding answer send_response
  round-Inv handlers [] s e busy h =
      main-Inv s (record s.processor { draining = false }) h (λ k there. there) h.addressed
        h.answered h.waker (λ active. inl e)
  round-Inv handlers (request ∷ requests) s e busy h =
      let response = execute_tool handlers request in
      let pending = s.processor.bridge.pending in
      main-Inv s _ h (λ k there. kept-deliver response k pending there)
        (deliver-AllAddressed response pending h.addressed)
        (λ down. deliver-AllAnswered response pending (h.answered down)) h.waker
        λ active. inr (inr (inl busy))

  pub drain_round-Inv :
      (handlers : Dict (Handler Args Value)) (s : System Args Value)
      → Inv s
      → Inv (record s { processor = drain_round handlers s.processor })
  unfolding drain_round
  drain_round-Inv handlers s h = elim (Bool-cases s.processor.draining) [
    | inl busy ↦ simp busy (round-Inv handlers s.processor.bridge.request_queue s refl busy h)
    | inr idle ↦ simp idle h
  ]

  pub start-Inv : (s : System Args Value) → Inv s → Inv (on_main Processor.start s)
  unfolding Processor.start
  start-Inv s h = elim (Bool-cases s.processor.draining) [
    | inl busy ↦ simp busy h
    | inr idle ↦ elim (Bool-cases s.processor.active) [
      | inl active ↦ simp (idle, active) h
      | inr stopped ↦
          simp (idle, stopped)
            (main-Inv s _ h (λ k there. there) h.addressed h.answered (λ active. refl)
              (λ active. inr (inl (omega arith))))
    ]
  ]

  pub stop-Inv : (s : System Args Value) → Inv s → Inv (on_main Processor.stop s)
  unfolding Processor.stop
  stop-Inv s h = elim (Bool-cases s.processor.draining) [
    | inl busy ↦ simp busy h
    | inr idle ↦ elim (Bool-cases s.processor.active) [
      | inl active ↦
          simp (idle, active)
            (main-Inv s _ h (λ k there. there) h.addressed h.answered (λ active'. cc)
              (λ active'. cc))
      | inr stopped ↦ simp (idle, stopped) h
    ]
  ]

  on_main-Inv :
      (act : Processor Args Value → Processor Args Value) (s : System Args Value)
      → Inv s
      → Inv (record s { processor = act s.processor })
      → Inv (on_main act s)
  on_main-Inv act s h acted =
      elim s.processor.draining
        as (λ b. Inv (if b then s else record s { processor = act s.processor })) [
          | true ↦ h
          | false ↦ acted
        ]

  pub shutdown-Inv :
      (s : System Args Value)
      → Inv s
      → Inv (on_main (λ p. record p { bridge = shutdown p.bridge }) s)
  unfolding shutdown
  shutdown-Inv s h =
      on_main-Inv (λ p. record p { bridge = shutdown p.bridge }) s h
        (main-Inv s _ h (λ k there. kept-answer_all k s.processor.bridge.pending there)
          (answer_all-AllAddressed s.processor.bridge.pending h.addressed)
          (λ down. answer_all-AllAnswered s.processor.bridge.pending) h.waker
          (λ active. h.noticed active))
