-- ===== src/Tunnel/Client/Answers.antt =====
-- What becomes of a relayed request.
use anki_mcp_server_addon.Prelude.{ℕ, ◌≡◌, refl, ◌⊎◌, inl, inr, Option, none, some, List, [], ◌∷◌}
use anki_mcp_server_addon.Tunnel.Client.{
  ParsedBody, TunnelRequest, TunnelResponse, Processed, replied, timed_out, broke, cancelled, Sent,
  sent, fails, times_out, interrupted, Handled, ok_answer, internal_answer, timeout_answer,
  handle_processed, handle_request, process, error_answer,
}

-- The responses that went out.
abbrev pub delivered : List (TunnelResponse × Sent) → List TunnelResponse
delivered [] = []
delivered ((answer, sent) ∷ sends) = answer ∷ delivered sends
delivered ((answer, fails) ∷ sends) = delivered sends
delivered ((answer, times_out) ∷ sends) = delivered sends
delivered ((answer, interrupted) ∷ sends) = delivered sends

-- One report with the status of a response that carries the request's id, and nothing else went out.
pub record IsAnswered (r : TunnelRequest) (h : Handled) : Type 0 where
  pub answer : TunnelResponse
  pub reported : h.reported ≡ some answer.status_code
  pub same_id : answer.request_id ≡ r.request_id
  pub at_most_one : (delivered h.sends ≡ answer ∷ []) ⊎ (delivered h.sends ≡ [])

-- An await of the task was cancelled; nothing went out and nothing is reported.
pub record IsDropped (r : TunnelRequest) (outcome : Processed) (first second : Sent) (h : Handled)
    : Type 0 where
  pub unreported : h.reported ≡ none
  pub silent : delivered h.sends ≡ []
  pub was_cancelled :
      (process r.body outcome ≡ cancelled) ⊎ ((first ≡ interrupted) ⊎ (second ≡ interrupted))

Outcome : TunnelRequest → Processed → Sent → Sent → Handled → Type 0
Outcome r outcome first second h = IsAnswered r h ⊎ IsDropped r outcome first second h

module _ (loads : List ℕ → Option ParsedBody) (r : TunnelRequest) where
  error-Outcome :
      (answer : TunnelResponse) (outcome : Processed) (first second last : Sent)
      (before : TunnelResponse)
      → answer.request_id ≡ r.request_id
      → (last ≡ interrupted → (first ≡ interrupted) ⊎ (second ≡ interrupted))
      → Outcome r outcome first second (error_answer [] answer last)
        × Outcome r outcome first second (error_answer ((before, fails) ∷ []) answer last)
        × Outcome r outcome first second (error_answer ((before, times_out) ∷ []) answer last)
  unfolding Outcome
  error-Outcome answer outcome first second sent before same why = (
    inl (record { answer = answer; reported = refl; same_id = same; at_most_one = inl refl }),
    inl (record { answer = answer; reported = refl; same_id = same; at_most_one = inl refl }),
    inl (record { answer = answer; reported = refl; same_id = same; at_most_one = inl refl }),
  )
  error-Outcome answer outcome first second fails before same why = (
    inl (record { answer = answer; reported = refl; same_id = same; at_most_one = inr refl }),
    inl (record { answer = answer; reported = refl; same_id = same; at_most_one = inr refl }),
    inl (record { answer = answer; reported = refl; same_id = same; at_most_one = inr refl }),
  )
  error-Outcome answer outcome first second times_out before same why = (
    inl (record { answer = answer; reported = refl; same_id = same; at_most_one = inr refl }),
    inl (record { answer = answer; reported = refl; same_id = same; at_most_one = inr refl }),
    inl (record { answer = answer; reported = refl; same_id = same; at_most_one = inr refl }),
  )
  error-Outcome answer outcome first second interrupted before same why = (
    inr (record { unreported = refl; silent = refl; was_cancelled = inr (why refl) }),
    inr (record { unreported = refl; silent = refl; was_cancelled = inr (why refl) }),
    inr (record { unreported = refl; silent = refl; was_cancelled = inr (why refl) }),
  )

  handle_processed-Outcome :
      (given outcome : Processed) (first second : Sent)
      → process r.body given ≡ outcome
      → Outcome r given first second (handle_processed loads r outcome first second)
  unfolding handle_processed Outcome
  handle_processed-Outcome given (replied reply) sent second e = inl (record {
    answer = ok_answer r reply;
    reported = refl;
    same_id = refl;
    at_most_one = inl refl;
  })
  handle_processed-Outcome given (replied reply) fails second e =
      (error-Outcome (internal_answer r) given fails second second (ok_answer r reply) refl inr).1
  handle_processed-Outcome given (replied reply) times_out second e =
      (error-Outcome (timeout_answer loads r) given times_out second second (ok_answer r reply) refl
        inr).2
  handle_processed-Outcome given (replied reply) interrupted second e =
      inr (record { unreported = refl; silent = refl; was_cancelled = inr (inl refl) })
  handle_processed-Outcome given timed_out first second e =
      (error-Outcome (timeout_answer loads r) given first second first (internal_answer r) refl
        inl).0
  handle_processed-Outcome given broke first second e =
      (error-Outcome (internal_answer r) given first second first (internal_answer r) refl inl).0
  handle_processed-Outcome given cancelled first second e =
      inr (record { unreported = refl; silent = refl; was_cancelled = inl e })

  -- Whatever the transport and the socket do, a relayed request either has one report, with the status
  -- of a response under its own id, and besides that response nothing went out; or an await of it was
  -- cancelled, and then nothing went out and nothing is reported.
  pub handle_request_answers :
      (outcome : Processed) (first second : Sent)
      → IsAnswered r (handle_request loads r outcome first second)
        ⊎ IsDropped r outcome first second (handle_request loads r outcome first second)
  unfolding handle_request Outcome
  handle_request_answers outcome first second =
      handle_processed-Outcome outcome (process r.body outcome) first second refl
