-- ===== src/Tunnel/Transport/Calls.antt =====
-- Which call a response reaches, where no two calls in flight share an id.
use anki_mcp_server_addon.Prelude.{
  ℕ, String, eq_iff, str_eq, ◌≡◌, ◌≢◌, refl, ap, ◌∙◌, Bool, true, false, inl, inr, Option, none,
  some, List, [], ◌∷◌, arith, Bool-cases, if◌then◌else◌,
}
use anki_mcp_server_addon.Prelude.Dict
use anki_mcp_server_addon.Prelude.Dict.{Dict, get-put, get-remove}
use anki_mcp_server_addon.Tunnel.Transport.{
  Phase, waiting, result, no_reply, raised, Call, Transport, Body, request, notification, invalid,
  Event, starts, handles, answers, gives_up, closes, rejects, initial, new_call, handle_open,
  handle_request, read_response, give_up, give_up_by, reject_all, step, run,
}
use anki_mcp_server_addon.Tunnel.Transport.Settled.{
  IsSettled, get-resolve, waits_or_settled, reject_all-IsSettled, pending-IsSettled,
}

-- A request is handled only while no other with its id is pending.
abbrev pub IsApart : Transport → Event → Type 0
IsApart t (handles name (request id)) = Dict.get id t.pending ≡ none
IsApart t _ = Unit

abbrev pub AllApart : Transport → List Event → Type 0
AllApart t [] = Unit
AllApart t (event ∷ events) = IsApart t event × AllApart (step t event) events

-- The pending names are those of the waiting calls.
pub record Inv (t : Transport) : Type 0 where
  pub owned :
      (id name : String)
      → Dict.get id t.pending ≡ some name
      → (call : Call) × (Dict.get name t.calls ≡ some call)
        × (call.request_id ≡ id)
        × (call.phase ≡ waiting)
  pub listed :
      (name : String) (call : Call)
      → Dict.get name t.calls ≡ some call
      → call.phase ≡ waiting
      → Dict.get call.request_id t.pending ≡ some name

initial-Inv : Inv initial
unfolding Dict.get
initial-Inv = record { owned = λ id name h. cc; listed = λ name call h w. cc }

-- A call that ends at once joins no one.
add_done-Inv :
    (t : Transport) (name : String) (phase : Phase)
    → Dict.get name t.calls ≡ none
    → phase ≢ waiting
    → Inv t
    → Inv (record t { calls = Dict.put name (new_call "" phase) t.calls })
add_done-Inv t name phase fresh ended h = record {
  owned = λ id other found.
      let (call, here, same, waits) = h.owned id other found in
      (
        call,
        ground
            (arith, here, fresh, get-put name other (new_call "" phase) t.calls, eq_iff name other),
        same,
        waits,
      );
  listed = λ other call found waits. ground (
    arith,
    get-put name other (new_call "" phase) t.calls,
    h.listed other call,
    eq_iff name other,
  );
}

add_waiting-Inv :
    (t : Transport) (name id : String)
    → Dict.get name t.calls ≡ none
    → Dict.get id t.pending ≡ none
    → Inv t
    → Inv (record t {
      pending = Dict.put id name t.pending;
      calls = Dict.put name (new_call id waiting) t.calls;
    })
add_waiting-Inv t name id fresh apart h = record {
  owned = λ k other found. elim (Bool-cases (str_eq id k)) [
    | inl e ↦ (
      new_call id waiting,
      ground (
        arith,
        get-put id k name t.pending,
        get-put name other (new_call id waiting) t.calls,
        eq_iff name other,
      ),
      (eq_iff id k).0 e,
      refl,
    )
    | inr e ↦
        let (call, here, same, waits) =
          h.owned k other (ground (arith, get-put id k name t.pending)) in
        (
          call,
          ground (
            arith,
            here,
            fresh,
            get-put name other (new_call id waiting) t.calls,
            eq_iff name other,
          ),
          same,
          waits,
        )
  ];
  listed = λ other call found waits. ground (
    arith,
    get-put name other (new_call id waiting) t.calls,
    get-put id call.request_id name t.pending,
    h.listed other call,
    eq_iff name other,
    eq_iff id call.request_id,
  );
}

-- A waiting call ends, and its id is free.
end_one-Inv :
    (t : Transport) (name : String) (call : Call) (phase : Phase)
    → Dict.get name t.calls ≡ some call
    → call.phase ≡ waiting
    → phase ≢ waiting
    → Inv t
    → Inv (record t {
      pending = Dict.remove call.request_id t.pending;
      calls = Dict.put name (record call { phase = phase }) t.calls;
    })
end_one-Inv t name call phase here waits ended h =
    let mine = h.listed name call here waits in
    record {
      owned = λ k other found.
          let left = get-remove call.request_id k t.pending in
          let (it, there, same, w) = h.owned k other (ground (arith, left)) in
          (
            it,
            ground (
              arith,
              there,
              mine,
              left,
              get-put name other (record call { phase = phase }) t.calls,
              eq_iff name other,
              eq_iff call.request_id k,
            ),
            same,
            w,
          );
      listed = λ other it found w. ground (
        arith,
        get-put name other (record call { phase = phase }) t.calls,
        get-remove call.request_id it.request_id t.pending,
        h.listed other it,
        mine,
        eq_iff name other,
        eq_iff call.request_id it.request_id,
      );
    }

-- After the last part of `stop` no call waits.
pub rejected-IsSettled :
    (t : Transport) (name : String) → Inv t → IsSettled name (reject_all t.pending t.calls)
rejected-IsSettled t name h = elim (waits_or_settled name t.calls) [
  | inr done ↦ reject_all-IsSettled name t.pending t.calls done
  | inl (call, here, w) ↦
      pending-IsSettled call.request_id name t.pending t.calls (h.listed name call here w)
]

handle_request-Inv :
    (t : Transport) (name : String) (body : Body) (found : Option Call)
    → Dict.get name t.calls ≡ found
    → IsApart t (handles name body)
    → Inv t
    → Inv (handle_request name body found t)
unfolding handle_request
handle_request-Inv t name body (some used) e apart h = h
handle_request-Inv t name body none e apart h = by_open t.is_open
  where
    by_body : (body : Body) → IsApart t (handles name body) → Inv (handle_open name body t)
    by_body invalid a = unfold handle_open in add_done-Inv t name raised e (λ w. cc) h
    by_body notification a = unfold handle_open in add_done-Inv t name no_reply e (λ w. cc) h
    by_body (request id) a = unfold handle_open in add_waiting-Inv t name id e a h

    by_open :
        (is_open : Bool)
        → Inv (
            if is_open
            then handle_open name body t
            else record t { calls = Dict.put name (new_call "" raised) t.calls })
    by_open true = by_body body apart
    by_open false = add_done-Inv t name raised e (λ w. cc) h

-- What a response does to the call that waits under its id.
pub read_response-eq :
    (t : Transport) (id name : String) (text : List ℕ) (call : Call)
    → Dict.get name t.calls ≡ some call
    → call.phase ≡ waiting
    → call.request_id ≡ id
    → read_response id text (some name) t ≡ record t {
      pending = Dict.remove call.request_id t.pending;
      calls = Dict.put name (record call { phase = result text }) t.calls;
    }
unfolding read_response
read_response-eq t id name text call here w same =
    rw (get-resolve name (result text) t.calls call here w, same)

read_response-Inv :
    (t : Transport) (id : String) (text : List ℕ) (found : Option String)
    → Dict.get id t.pending ≡ found
    → Inv t
    → Inv (read_response id text found t)
read_response-Inv t id text none e h = unfold read_response in h
read_response-Inv t id text (some name) e h =
    let (call, here, same, w) = h.owned id name e in
    rw (read_response-eq t id name text call here w same)
      (end_one-Inv t name call (result text) here w (λ r. cc) h)

give_up-Inv :
    (t : Transport) (name : String) (found : Option Call)
    → Dict.get name t.calls ≡ found
    → Inv t
    → Inv (give_up name found t)
unfolding give_up
give_up-Inv t name none e h = h
give_up-Inv t name (some call) e h = by_phase call.phase refl
  where
    by_phase : (p : Phase) → call.phase ≡ p → Inv (give_up_by name call p t)
    by_phase waiting w = end_one-Inv t name call raised e w (λ r. cc) h
    by_phase (result text) w = h
    by_phase no_reply w = h
    by_phase raised w = h

step-Inv : (t : Transport) (event : Event) → IsApart t event → Inv t → Inv (step t event)
unfolding step
step-Inv t starts apart h = record { owned = h.owned; listed = h.listed }
step-Inv t (handles name body) apart h =
    handle_request-Inv t name body (Dict.get name t.calls) refl apart h
step-Inv t (answers id text) apart h = read_response-Inv t id text (Dict.get id t.pending) refl h
step-Inv t (gives_up name) apart h = give_up-Inv t name (Dict.get name t.calls) refl h
step-Inv t closes apart h = record { owned = h.owned; listed = h.listed }
step-Inv t rejects apart h = record {
  owned = λ id name found. unfold Dict.get in cc;
  listed = λ name call found w. absurd (rejected-IsSettled t name h call found w);
}

run-Inv : (t : Transport) (events : List Event) → AllApart t events → Inv t → Inv (run t events)
unfolding run
run-Inv t [] apart h = h
run-Inv t (event ∷ events) apart h =
    run-Inv (step t event) events apart.1 (step-Inv t event apart.0 h)

-- What the transport owes a call that waits.
pub record IsServed (t : Transport) (name : String) (call : Call) : Type 0 where
  pub answered :
      (text : List ℕ)
      → Dict.get name (step t (answers call.request_id text)).calls
        ≡ some (record call { phase = result text })
  pub others_wait :
      (text : List ℕ) (other : String)
      → other ≢ name
      → Dict.get other (step t (answers call.request_id text)).calls ≡ Dict.get other t.calls
  pub rejected : IsSettled name (step t rejects).calls

-- While no request is handled whose id is pending, a response reaches the call that waits under its
-- id and no other, and the last part of `stop` leaves no call waiting.
pub run-IsServed :
    (events : List Event) (name : String) (call : Call)
    → AllApart initial events
    → Dict.get name (run initial events).calls ≡ some call
    → call.phase ≡ waiting
    → IsServed (run initial events) name call
unfolding step
run-IsServed events name call apart here w =
    served (run initial events) (run-Inv initial events apart initial-Inv) here
  where
    by_id :
        (t : Transport)
        → Inv t
        → Dict.get name t.calls ≡ some call
        → (text : List ℕ)
        → step t (answers call.request_id text) ≡ record t {
          pending = Dict.remove call.request_id t.pending;
          calls = Dict.put name (record call { phase = result text }) t.calls;
        }
    by_id t h here text =
        ap (λ found. read_response call.request_id text found t) (h.listed name call here w)
        ∙ read_response-eq t call.request_id name text call here w refl

    served : (t : Transport) → Inv t → Dict.get name t.calls ≡ some call → IsServed t name call
    served t h here = record {
      answered = λ text.
          ap (λ (s : Transport). Dict.get name s.calls) (by_id t h here text)
          ∙ ground (
            arith,
            get-put name name (record call { phase = result text }) t.calls,
            eq_iff name name,
          );
      others_wait = λ text other apart.
          ap (λ (s : Transport). Dict.get other s.calls) (by_id t h here text)
          ∙ ground (
            arith,
            get-put name other (record call { phase = result text }) t.calls,
            eq_iff name other,
          );
      rejected = rejected-IsSettled t name h;
    }
