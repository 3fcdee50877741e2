-- ===== src/Bridge/System/Invariant/Clients.antt =====
-- The events of the server's threads keep the invariant.
use anki_mcp_server_addon.Prelude.{
  String, str_eq, eq_iff, ◌≡◌, ◌≢◌, refl, sym, subst, ◌∙◌, Bool, true, false, ◌&&◌, inl, inr,
  Option, none, some, List, [], ◌∷◌, arith, Bool-cases,
}
use anki_mcp_server_addon.Prelude.Dict
use anki_mcp_server_addon.Prelude.Dict.{Dict, get-put, get-remove}
use anki_mcp_server_addon.Bridge.Handlers.{ToolRequest, ToolResponse}
use anki_mcp_server_addon.Bridge.Queues.{Bridge, register, put_request, unregister, receive}
use anki_mcp_server_addon.Bridge.Processor.{Processor, schedule}
use anki_mcp_server_addon.Bridge.System.{
  Phase, refused, registered, unannounced, blocked, returned, timed_out, Thread, System, call,
  admit, put_by, wake_by, leave, receive_by, expire_by, set_phase, announce, leave_with,
  leave_without,
}
use anki_mcp_server_addon.Bridge.System.Invariant.{
  Inv, is_live, Noticed, AllAddressed, AllAnswered, Addressed,
}

module _ {Value : Type 0} where
  pub added-AllAddressed :
      (id : String) (pending : Dict (List (ToolResponse Value)))
      → AllAddressed pending
      → AllAddressed (Dict.put id [] pending)
  added-AllAddressed id pending h k responses found = elim (Bool-cases (str_eq id k)) [
    | inl e ↦ subst (Addressed k) {x = []} (ground (arith, get-put id k [] pending)) tt
    | inr e ↦ h k responses (ground (arith, get-put id k [] pending))
  ]

  removed-AllAddressed :
      (id : String) (pending : Dict (List (ToolResponse Value)))
      → AllAddressed pending
      → AllAddressed (Dict.remove id pending)
  removed-AllAddressed id pending h k responses found =
      h k responses (ground (arith, get-remove id k pending))

  removed-AllAnswered :
      (id : String) (pending : Dict (List (ToolResponse Value)))
      → AllAnswered pending
      → AllAnswered (Dict.remove id pending)
  removed-AllAnswered id pending h k found = ground (arith, get-remove id k pending, h k)

module _ {Args Value : Type 0} where
  -- Another thread's announcement is still to come.
  Noticed-put :
      (id : String) (new : Thread Args Value) (s : System Args Value) (p : Processor Args Value)
      → p.bridge.request_queue ≡ s.processor.bridge.request_queue
      → p.scheduled ≡ s.processor.scheduled
      → p.draining ≡ s.processor.draining
      → ((t : Thread Args Value) → Dict.get id s.threads ≡ some t → t.phase ≢ unannounced)
      → Noticed s
      → Noticed (record { processor = p; threads = Dict.put id new s.threads })
  Noticed-put id new s p q c d other (inl nothing) = inl (q ∙ nothing)
  Noticed-put id new s p q c d other (inr (inl due)) = inr (inl (rw c due))
  Noticed-put id new s p q c d other (inr (inr (inl busy))) = inr (inr (inl (d ∙ busy)))
  Noticed-put id new s p q c d other (inr (inr (inr (k, t, found, soon)))) =
      inr (inr (inr (k, t, ground (arith, get-put id k new s.threads, eq_iff id k, other t), soon)))

  -- A thread that appears or moves on, while the bridge keeps its other entries.
  module _ (id : String) (new : Thread Args Value) (s : System Args Value)
      (p : Processor Args Value) (h : Inv s) where
    moved-Inv :
        new.request.request_id ≡ id
        → ((r : ToolResponse Value) → new.phase ≡ returned r → r.request_id ≡ id)
        → (is_live new.phase ≡ true → Dict.get id p.bridge.pending ≢ none)
        → ((k : String)
            → str_eq id k ≡ false
            → Dict.get k p.bridge.pending ≡ Dict.get k s.processor.bridge.pending)
        → AllAddressed p.bridge.pending
        → (p.bridge.is_shutdown ≡ true → AllAnswered p.bridge.pending)
        → (p.active ≡ true → p.bridge.has_waker ≡ true)
        → (p.active ≡ true
            → Noticed (record { processor = p; threads = Dict.put id new s.threads }))
        → Inv (record { processor = p; threads = Dict.put id new s.threads })
    moved-Inv same back alive apart addressed answered waker noticed = record {
      addressed = addressed;
      answered = answered;
      waker = waker;
      noticed = noticed;
      listed = λ k thread found live none_there. elim (Bool-cases (str_eq id k)) [
        | inl e ↦ alive (ground (arith, get-put id k new s.threads)) (ground (arith, eq_iff id k))
        | inr e ↦
            h.listed k thread (ground (arith, get-put id k new s.threads)) live
              (sym (apart k e) ∙ none_there)
      ];
      own = λ k thread response found gone. elim (Bool-cases (str_eq id k)) [
        | inl e ↦ back response (ground (arith, get-put id k new s.threads)) ∙ (eq_iff id k).0 e
        | inr e ↦ h.own k thread response (ground (arith, get-put id k new s.threads)) gone
      ];
      named = λ k thread found. elim (Bool-cases (str_eq id k)) [
        | inl e ↦ ground (arith, get-put id k new s.threads, eq_iff id k)
        | inr e ↦ h.named k thread (ground (arith, get-put id k new s.threads))
      ];
    }

  fresh_thread :
      (id : String) (s : System Args Value)
      → Dict.get id s.threads ≡ none
      → (t : Thread Args Value) → Dict.get id s.threads ≡ some t
      → t.phase ≢ unannounced
  fresh_thread id s fresh t found e = cc

  -- What a registration that succeeds has done.
  record Registered (request : ToolRequest Args) (b b' : Bridge Args Value) : Type 0 where
    was_up : b'.is_shutdown ≡ false
    added : b'.pending ≡ Dict.put request.request_id [] b.pending
    same_queue : b'.request_queue ≡ b.request_queue
    same_waker : b'.has_waker ≡ b.has_waker

  register-Registered :
      (request : ToolRequest Args) (b b' : Bridge Args Value)
      → register request b ≡ some b'
      → Registered request b b'
  unfolding register
  register-Registered request b b' e = ground arith

  admit-Inv :
      (request : ToolRequest Args) (result : Option (Bridge Args Value)) (s : System Args Value)
      → register request s.processor.bridge ≡ result
      → Dict.get request.request_id s.threads ≡ none
      → Inv s
      → Inv (admit request result s)
  unfolding admit
  admit-Inv request none s e fresh h =
      moved-Inv request.request_id (record { request = request; phase = refused }) s s.processor h
        refl (λ r p. cc) (λ live. cc) (λ k apart. refl) h.addressed h.answered h.waker
        λ active.
          Noticed-put request.request_id _ s s.processor refl refl refl
            (fresh_thread request.request_id s fresh) (h.noticed active)
  admit-Inv request (some b) s e fresh h =
      let id = request.request_id in
      let new : Thread Args Value = record { request = request; phase = registered } in
      let p : Processor Args Value = record s.processor { bridge = b } in
      let g = register-Registered request s.processor.bridge b e in
      let pending = s.processor.bridge.pending in
      moved-Inv id new s p h refl (λ r q. cc)
        (λ live gone. ground (arith, g.added, get-put id id [] pending, eq_iff id id))
        (λ k apart. rw g.added (ground (arith, get-put id k [] pending)))
        (rw g.added (added-AllAddressed id pending h.addressed)) (λ down. cc (g.was_up))
        (λ active. g.same_waker ∙ h.waker active)
        λ active.
          Noticed-put id new s p g.same_queue refl refl (fresh_thread id s fresh) (h.noticed active)

  pub call-Inv :
      (request : ToolRequest Args) (found : Option (Thread Args Value)) (s : System Args Value)
      → Dict.get request.request_id s.threads ≡ found
      → Inv s
      → Inv (call request found s)
  unfolding call
  call-Inv request (some used) s e h = h
  call-Inv request none s e h = admit-Inv request (register request s.processor.bridge) s refl e h

  pub put_by-Inv :
      (id : String) (thread : Thread Args Value) (phase : Phase Value) (s : System Args Value)
      → Dict.get id s.threads ≡ some thread
      → thread.phase ≡ phase
      → Inv s
      → Inv (put_by id thread phase s)
  unfolding put_by put_request
  put_by-Inv id thread registered s found e h =
      let new : Thread Args Value = record thread { phase = unannounced } in
      moved-Inv id new s _ h (h.named id thread found) (λ r q. cc)
        (λ live. h.listed id thread found (rw e)) (λ k apart. refl) h.addressed h.answered h.waker
        λ active.
          inr (inr (inr (id, new, ground (arith, get-put id id new s.threads, eq_iff id id), refl)))
  put_by-Inv id thread _ s found e h = h

  announced-Inv :
      (id : String) (thread : Thread Args Value) (b : Bool) (s : System Args Value)
      → (s.processor.bridge.has_waker && true) ≡ b
      → Dict.get id s.threads ≡ some thread
      → thread.phase ≡ unannounced
      → Inv s
      → Inv (set_phase id thread blocked (announce b s))
  unfolding schedule
  announced-Inv id thread true s w found e h =
      let new : Thread Args Value = record thread { phase = blocked } in
      moved-Inv id new s (schedule s.processor) h (h.named id thread found) (λ r q. cc)
        (λ live. h.listed id thread found (rw e)) (λ k apart. refl) h.addressed h.answered h.waker
        (λ active. inr (inl (omega arith)))
  announced-Inv id thread false s w found e h =
      let new : Thread Args Value = record thread { phase = blocked } in
      moved-Inv id new s s.processor h (h.named id thread found) (λ r q. cc)
        (λ live. h.listed id thread found (rw e)) (λ k apart. refl) h.addressed h.answered h.waker
        (λ active. absurd (ground (arith, h.waker active)))

  -- A waker that returns has scheduled a drain.
  pub wake_by-Inv :
      (id : String) (thread : Thread Args Value) (phase : Phase Value) (s : System Args Value)
      → Dict.get id s.threads ≡ some thread
      → thread.phase ≡ phase
      → Inv s
      → Inv (wake_by id true thread phase s)
  unfolding wake_by
  wake_by-Inv id thread unannounced s found e h =
      announced-Inv id thread (s.processor.bridge.has_waker && true) s refl found e h
  wake_by-Inv id thread _ s found e h = h

  leave-Inv :
      (id : String) (thread : Thread Args Value) (phase : Phase Value) (s : System Args Value)
      → Dict.get id s.threads ≡ some thread
      → thread.phase ≡ blocked
      → is_live phase ≡ false
      → ((r : ToolResponse Value) → phase ≡ returned r → r.request_id ≡ id)
      → Inv s
      → Inv (leave id thread phase s)
  unfolding leave unregister
  leave-Inv id thread phase s found was gone back h =
      let new : Thread Args Value = record thread { phase = phase } in
      let p : Processor Args Value = record s.processor {
        bridge = record s.processor.bridge { pending = Dict.remove id s.processor.bridge.pending };
      } in
      moved-Inv id new s p h (h.named id thread found) back (λ live. cc (live, gone))
        (λ k apart. ground (arith, get-remove id k s.processor.bridge.pending))
        (removed-AllAddressed id s.processor.bridge.pending h.addressed)
        (λ down. removed-AllAnswered id s.processor.bridge.pending (h.answered down)) h.waker
        λ active.
          Noticed-put id new s p refl refl refl (λ t here soon. cc (found, here, was, soon))
            (h.noticed active)

  received_own :
      (id : String) (response : ToolResponse Value) (s : System Args Value)
      → Inv s
      → receive id s.processor.bridge ≡ some response
      → response.request_id ≡ id
  unfolding receive
  received_own id response s h e = by_box (Dict.get id s.processor.bridge.pending) refl
    where
      by_box :
          (box : Option (List (ToolResponse Value)))
          → Dict.get id s.processor.bridge.pending ≡ box
          → response.request_id ≡ id
      by_box none here = ground arith
      by_box (some []) here = ground arith
      by_box (some (r ∷ rs)) here = ground (arith, (h.addressed id (r ∷ rs) here).0)

  received-Inv :
      (id : String) (thread : Thread Args Value) (result : Option (ToolResponse Value))
      (s : System Args Value)
      → receive id s.processor.bridge ≡ result
      → Dict.get id s.threads ≡ some thread
      → thread.phase ≡ blocked
      → Inv s
      → Inv (leave_with id thread result s) × Inv (leave_without id thread result s)
  received-Inv id thread none s got found e h =
      (h, leave-Inv id thread timed_out s found e refl (λ r q. cc) h)
  received-Inv id thread (some response) s got found e h = (
    leave-Inv id thread (returned response) s found e refl
        (λ r q. ground (arith, received_own id response s h got)) h,
    h,
  )

  pub receive_by-Inv :
      (id : String) (thread : Thread Args Value) (phase : Phase Value) (s : System Args Value)
      → Dict.get id s.threads ≡ some thread
      → thread.phase ≡ phase
      → Inv s
      → Inv (receive_by id thread phase s)
  unfolding receive_by
  receive_by-Inv id thread blocked s found e h =
      (received-Inv id thread (receive id s.processor.bridge) s refl found e h).0
  receive_by-Inv id thread _ s found e h = h

  pub expire_by-Inv :
      (id : String) (thread : Thread Args Value) (phase : Phase Value) (s : System Args Value)
      → Dict.get id s.threads ≡ some thread
      → thread.phase ≡ phase
      → Inv s
      → Inv (expire_by id thread phase s)
  unfolding expire_by
  expire_by-Inv id thread blocked s found e h =
      (received-Inv id thread (receive id s.processor.bridge) s refl found e h).1
  expire_by-Inv id thread _ s found e h = h
