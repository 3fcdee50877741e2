-- ===== src/Bridge/System/Drain.antt =====
-- A drain that nobody interrupts answers every queued request, in order.
use anki_mcp_server_addon.Prelude.{
  ℕ, zero, suc, String, str_eq, eq_iff, ◌≡◌, ◌≢◌, refl, ap, sym, ◌∙◌, true, false, ◌⊎◌, inl, inr,
  Option, none, some, List, [], ◌∷◌, ◌++◌, length, Bool-cases, arith,
}
use anki_mcp_server_addon.Prelude.Dict
use anki_mcp_server_addon.Prelude.Dict.{Dict}
use anki_mcp_server_addon.Bridge.Handlers.{
  ToolRequest, ToolResponse, Handler, Raised, unknown_handler, get_handler, execute,
}
use anki_mcp_server_addon.Bridge.Queues.{deliver, send_response}
use anki_mcp_server_addon.Bridge.Processor.{execute_tool, drain_round}
use anki_mcp_server_addon.Bridge.System.{System, Event, drains, run}
use anki_mcp_server_addon.Bridge.System.Invariant.{get-deliver}

module _ {Args Value : Type 0} (handlers : Dict (Handler Args Value)) where
  abbrev pub rounds : ℕ → List (Event Args)
  rounds zero = []
  rounds (suc n) = drains ∷ rounds n

  -- A response reports what a handler raised or returned.
  abbrev Reports : Raised ⊎ Value → ToolResponse Value → Type 0
  Reports (inl raised) r = (r.success ≡ false) × (r.outcome ≡ none) × (r.failure ≡ some raised)
  Reports (inr value) r = (r.success ≡ true) × (r.outcome ≡ some value) × (r.failure ≡ none)

  abbrev ReportsOf : Option (Handler Args Value) → ToolRequest Args → ToolResponse Value → Type 0
  ReportsOf none q r = Reports (inl (unknown_handler q.tool_name)) r
  ReportsOf (some handler) q r = Reports (handler q.arguments) r

  -- A response to a request: its identifier, and what the handler of its name did with its arguments,
  -- or that there is none.
  abbrev pub IsAnswer : ToolRequest Args → ToolResponse Value → Type 0
  IsAnswer q r = (r.request_id ≡ q.request_id) × ReportsOf (Dict.get q.tool_name handlers) q r

  -- One response for each request with an identifier, in their order.
  abbrev pub AreAnswers : String → List (ToolRequest Args) → List (ToolResponse Value) → Type 0
  AreAnswers id [] responses = responses ≡ []
  AreAnswers id (q ∷ requests) responses =
      ((q.request_id ≡ id)
        × (r : ToolResponse Value) × (others : List (ToolResponse Value)) × (responses ≡ r ∷ others)
        × IsAnswer q r
        × AreAnswers id requests others)
      ⊎ ((q.request_id ≢ id) × AreAnswers id requests responses)

  -- What the threads find: each that is registered has the responses to its requests behind those
  -- that it had.
  abbrev pub Found :
      String
      → List (ToolRequest Args)
      → Option (List (ToolResponse Value))
      → Option (List (ToolResponse Value))
      → Type 0
  Found id requests none after = after ≡ none
  Found id requests (some earlier) after =
      (responses : List (ToolResponse Value)) × (after ≡ some (earlier ++ responses))
      × AreAnswers id requests responses

  pub record Drained (requests : List (ToolRequest Args)) (before after : System Args Value)
      : Type 0 where
    pub emptied : after.processor.bridge.request_queue ≡ []
    pub ended : after.processor.draining ≡ false
    pub schedule_kept : after.processor.scheduled ≡ before.processor.scheduled
    pub threads_kept : after.threads ≡ before.threads
    pub found :
        (id : String)
        → Found id requests
            (Dict.get id before.processor.bridge.pending)
            (Dict.get id after.processor.bridge.pending)

  -- Each request's response, delivered one after the other.
  unfoldable answers :
      List (ToolRequest Args) → Dict (List (ToolResponse Value)) → Dict (List (ToolResponse Value))
  answers [] pending = pending
  answers (request ∷ requests) pending =
      answers requests (deliver (execute_tool handlers request) pending)

  IsAnswer-of : (q : ToolRequest Args) → IsAnswer q (execute_tool handlers q)
  unfolding execute_tool execute get_handler
  IsAnswer-of q = reported (Dict.get q.tool_name handlers) refl
    where
      ran :
          (outcome : Raised ⊎ Value)
          → execute handlers q.tool_name q.arguments ≡ outcome
          → ((execute_tool handlers q).request_id ≡ q.request_id)
            × Reports outcome (execute_tool handlers q)
      ran (inl raised) e = rw (e, execute_tool) (refl, (refl, refl, refl))
      ran (inr value) e = rw (e, execute_tool) (refl, (refl, refl, refl))

      reported :
          (h : Option (Handler Args Value))
          → Dict.get q.tool_name handlers ≡ h
          → ((execute_tool handlers q).request_id ≡ q.request_id)
            × ReportsOf h q (execute_tool handlers q)
      reported none e = ran (inl (unknown_handler q.tool_name)) (rw (e, execute, get_handler) refl)
      reported (some handler) e = ran (handler q.arguments) (rw (e, execute, get_handler) refl)

  answers-none :
      (id : String) (requests : List (ToolRequest Args))
      (pending : Dict (List (ToolResponse Value)))
      → Dict.get id pending ≡ none
      → Dict.get id (answers requests pending) ≡ none
  unfolding answers
  answers-none id [] pending h = h
  answers-none id (q ∷ requests) pending h =
      answers-none id requests (deliver (execute_tool handlers q) pending)
        (ground (arith, get-deliver (execute_tool handlers q) id pending))

  append_assoc :
      (xs : List (ToolResponse Value)) (r : ToolResponse Value) (ys : List (ToolResponse Value))
      → (xs ++ r ∷ []) ++ ys ≡ xs ++ r ∷ ys
  append_assoc [] r ys = refl
  append_assoc (x ∷ xs) r ys = ap (λ zs. x ∷ zs) (append_assoc xs r ys)

  append_nil : (xs : List (ToolResponse Value)) → xs ≡ xs ++ []
  append_nil [] = refl
  append_nil (x ∷ xs) = ap (λ zs. x ∷ zs) (append_nil xs)

  answers-some :
      (id : String) (requests : List (ToolRequest Args))
      (pending : Dict (List (ToolResponse Value))) (earlier : List (ToolResponse Value))
      → Dict.get id pending ≡ some earlier
      → Found id requests (some earlier) (Dict.get id (answers requests pending))
  unfolding answers
  answers-some id [] pending earlier h = ([], h ∙ ap some (append_nil earlier), refl)
  answers-some id (q ∷ requests) pending earlier h =
      let r = execute_tool handlers q in
      let given = get-deliver r id pending in
      let answer = IsAnswer-of q in
      elim (Bool-cases (str_eq r.request_id id)) [
        | inl e ↦
            let (rs, after, rest) =
              answers-some id requests (deliver r pending) (earlier ++ r ∷ [])
                (ground (arith, given)) in
            (
              r ∷ rs,
              after ∙ ap some (append_assoc earlier r rs),
              inl (sym answer.0 ∙ (eq_iff r.request_id id).0 e, r, rs, refl, answer, rest),
            )
        | inr e ↦
            let (rs, after, rest) =
              answers-some id requests (deliver r pending) earlier (ground (arith, given)) in
            (rs, after, inr (λ same. ground (arith, answer.0, eq_iff r.request_id id), rest))
      ]

  answers-Found :
      (id : String) (requests : List (ToolRequest Args))
      (pending : Dict (List (ToolResponse Value))) (box : Option (List (ToolResponse Value)))
      → Dict.get id pending ≡ box
      → Found id requests box (Dict.get id (answers requests pending))
  answers-Found id requests pending none h = answers-none id requests pending h
  answers-Found id requests pending (some earlier) h = answers-some id requests pending earlier h

  abbrev drained : List (ToolRequest Args) → System Args Value → System Args Value
  drained requests s = record s {
    processor = record s.processor {
      bridge = record s.processor.bridge {
        request_queue = [];
        pending = answers requests s.processor.bridge.pending;
      };
      draining = false;
    };
  }

  abbrev pub loaded : List (ToolRequest Args) → System Args Value → System Args Value
  loaded requests s = record s {
    processor = record s.processor {
      bridge = record s.processor.bridge { request_queue = requests };
      draining = true;
    };
  }

  run-drained :
      (requests : List (ToolRequest Args)) (s : System Args Value)
      → run handlers (loaded requests s) (rounds (suc (length requests))) ≡ drained requests s
  unfolding run drain_round answers send_response
  run-drained [] s = refl
  run-drained (request ∷ requests) s = run-drained requests (record s {
    processor = record s.processor {
      bridge = record s.processor.bridge {
        pending = deliver (execute_tool handlers request) s.processor.bridge.pending;
      };
    };
  })

  -- From inside the loop, one round more than there are queued requests empties the queue and ends the
  -- loop, with the threads and the schedule as before. Each registered identifier then has, behind the
  -- responses that it had, one for each queued request of that identifier, in the order of the queue:
  -- it carries the identifier and reports what the handler of the request's tool returned or raised,
  -- or that there is none. An identifier that is not registered gets nothing.
  pub drain_answers_all :
      (requests : List (ToolRequest Args)) (s : System Args Value)
      → Drained requests s (run handlers (loaded requests s) (rounds (suc (length requests))))
  drain_answers_all requests s = rw (run-drained requests s) (record {
    emptied = refl;
    ended = refl;
    schedule_kept = refl;
    threads_kept = refl;
    found = λ id.
        answers-Found id requests s.processor.bridge.pending
          (Dict.get id s.processor.bridge.pending) refl;
  })
