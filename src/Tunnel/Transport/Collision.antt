-- ===== src/Tunnel/Transport/Collision.antt =====
-- Two calls in flight under one id.
use anki_mcp_server_addon.Prelude.{
  ℕ, String, eq_iff, ◌≡◌, ◌≢◌, refl, ap, ◌∙◌, true, none, some, List, [], ◌∷◌, arith,
}
use anki_mcp_server_addon.Prelude.Dict
use anki_mcp_server_addon.Prelude.Dict.{get-put, get-remove}
use anki_mcp_server_addon.Tunnel.Transport.{
  waiting, result, Transport, Event, request, handles, answers, new_call, handle_request,
  handle_open, read_response, step, run,
}
use anki_mcp_server_addon.Tunnel.Transport.Calls.{read_response-eq}

handled :
    (t : Transport) (name id : String)
    → t.is_open ≡ true
    → Dict.get name t.calls ≡ none
    → step t (handles name (request id)) ≡ record t {
      pending = Dict.put id name t.pending;
      calls = Dict.put name (new_call id waiting) t.calls;
    }
unfolding step handle_request handle_open
handled t name id open_now fresh = simp (fresh, open_now)

module _ (t : Transport) (first second id : String) where
  after_both : Transport
  after_both = record t {
    pending = Dict.put id second (Dict.put id first t.pending);
    calls = Dict.put second (new_call id waiting) (Dict.put first (new_call id waiting) t.calls);
  }

  abbrev both : List Event
  both = handles first (request id) ∷ handles second (request id) ∷ []

  after_once : List ℕ → Transport
  after_once text = record t {
    pending = Dict.remove id (Dict.put id second (Dict.put id first t.pending));
    calls =
        Dict.put second (new_call id (result text))
          (Dict.put second (new_call id waiting) (Dict.put first (new_call id waiting) t.calls));
  }

  run-both :
      t.is_open ≡ true
      → Dict.get first t.calls ≡ none
      → Dict.get second t.calls ≡ none
      → first ≢ second
      → run t both ≡ after_both
  unfolding run after_both
  run-both open_now a b apart =
      ap (λ s. step s (handles second (request id))) (handled t first id open_now a)
      ∙ handled
          (record t {
            pending = Dict.put id first t.pending;
            calls = Dict.put first (new_call id waiting) t.calls;
          })
          second id open_now
          (ground (arith, get-put first second (new_call id waiting) t.calls, eq_iff first second))

  step-once : (text : List ℕ) → step after_both (answers id text) ≡ after_once text
  unfolding step after_both after_once
  step-once text =
      let found : Dict.get id after_both.pending ≡ some second =
        ground (arith, get-put id id second (Dict.put id first t.pending), eq_iff id id) in
      ap (λ f. read_response id text f after_both) found
      ∙ read_response-eq after_both id second text (new_call id waiting)
          (ground (
            arith,
            get-put second second (new_call id waiting)
                (Dict.put first (new_call id waiting) t.calls),
            eq_iff second second,
          ))
          refl refl

  step-dropped : (text later : List ℕ) → step (after_once text) (answers id later) ≡ after_once text
  unfolding step after_once read_response
  step-dropped text later =
      let gone : Dict.get id (Dict.remove id (Dict.put id second (Dict.put id first t.pending)))
          ≡ none =
        ground (
          arith,
          get-remove id id (Dict.put id second (Dict.put id first t.pending)),
          eq_iff id id,
        ) in
      rw gone

  -- Where an open transport handles two requests under one id, the first response under that id is
  -- returned by the second call, the next one is dropped, and the first call goes on waiting.
  pub collision_misdelivers :
      (text later : List ℕ)
      → t.is_open ≡ true
      → Dict.get first t.calls ≡ none
      → Dict.get second t.calls ≡ none
      → first ≢ second
      → let once = step (run t both) (answers id text) in
        (Dict.get second once.calls ≡ some (new_call id (result text)))
        × (Dict.get first once.calls ≡ some (new_call id waiting))
        × (step once (answers id later) ≡ once)
  collision_misdelivers text later open_now a b apart = rw (run-both open_now a b apart) (
      rw (step-once text) (
        unfold after_once in
            ground (
              arith,
              get-put second second (new_call id (result text)) (
                  Dict.put second (new_call id waiting)
                    (Dict.put first (new_call id waiting) t.calls)),
              eq_iff second second,
            ),
        unfold after_once in
            ground (
              arith,
              get-put second first (new_call id (result text)) (
                  Dict.put second (new_call id waiting)
                    (Dict.put first (new_call id waiting) t.calls)),
              get-put second first (new_call id waiting)
                  (Dict.put first (new_call id waiting) t.calls),
              get-put first first (new_call id waiting) t.calls,
              eq_iff second first,
              eq_iff first first,
            ),
        step-dropped text later,
      ))
