-- ===== src/Tunnel/Reconnect/Loop.antt =====
-- What holds of the reconnect loop whatever the outside does.
use anki_mcp_server_addon.Prelude.{
  ℕ, ◌+◌, ◌≡◌, refl, Bool, true, false, ◌⊎◌, inl, inr, List, [], ◌∷◌, arith, All, Bool-cases, leb,
}
use anki_mcp_server_addon.Tunnel.Protocol.{should_reconnect, should_refresh_token}
use anki_mcp_server_addon.Tunnel.Reconnect.{
  Refresh, refreshed, invalid_grant, refused, breaks, abandoned, ClientEnd, closed,
  connection_failed, crashed, aborted, Round, Action, transport_started, transport_stopped,
  client_ran, token_saved, reports_established, reports_refresh_failure, reports_start_failure,
  reports_connection_failure, stops, goes_on, breaks_out, cancels, after_sleep, Pass, before,
  max_attempts, back_off, refresh_after_close, after_client, run_client, connect, refresh_first,
  pass, End, stopped, broke, cancelled, unfinished, follow, run_loop,
}
use anki_mcp_server_addon.Tunnel.Reconnect.Delays.{calculate_delay_bounds}
use anki_mcp_server_addon.Tunnel.Reconnect.Ends.{
  All-append, AsksRefresh, Cancels, IsAllowed, IsFair, IsFinal, NextIsFinal, Raises, opened,
  should_reconnect-IsPermanent, should_refresh_token-AsksRefresh, shut, total, total-append,
}

before-IsFair :
    (r : Round) (actions : List Action) (extra more : ℕ) (p : Pass)
    → All IsAllowed actions
    → total shut actions + extra ≡ total opened actions + more
    → IsFair r extra p
    → IsFair r more (before actions p)
before-IsFair r actions extra more (rest, next) ok count h = record {
  allowed = All-append IsAllowed actions rest ok h.allowed;
  balance =
      omega (arith, total-append shut actions rest, total-append opened actions rest, h.balance);
  final = h.final;
}

after_sleep-final :
    (r : Round) (attempt : ℕ) (shutdown asleep : Bool)
    → r.cancelled_asleep ≡ asleep
    → NextIsFinal r (after_sleep asleep attempt shutdown)
after_sleep-final r attempt shutdown true e = inr (inr (inr (inr e)))
after_sleep-final r attempt shutdown false e = tt

back_off-IsFair :
    (r : Round) (attempt : ℕ) (shutdown : Bool) → IsFair r 0 (back_off r (attempt + 1) shutdown)
unfolding back_off
back_off-IsFair r attempt true = record { allowed = tt; balance = refl; final = refl }
back_off-IsFair r attempt false = elim (Bool-cases (leb max_attempts (attempt + 1))) [
  | inl e ↦ rw e (record { allowed = tt; balance = refl; final = refl })
  | inr e ↦
      let bounds = calculate_delay_bounds (attempt + 1) r.jitter in
      rw e (record {
        allowed = ((omega arith, ground arith, bounds.1, bounds.2), tt);
        balance = refl;
        final = after_sleep-final r (attempt + 1) r.shutdown_asleep r.cancelled_asleep refl;
      })
]

refresh-IsFair :
    (r : Round) (attempt code : ℕ) (refresh : Refresh)
    → r.refresh_after ≡ refresh
    → AsksRefresh code
    → IsFair r 1 (refresh_after_close r attempt code refresh)
unfolding refresh_after_close
refresh-IsFair r attempt code refreshed e asks = record {
  allowed = (tt, (tt, tt));
  balance = omega arith;
  final = tt;
}
refresh-IsFair r attempt code invalid_grant e asks = record {
  allowed = (tt, tt);
  balance = omega arith;
  final = inr asks;
}
refresh-IsFair r attempt code refused e asks =
    before-IsFair r (reports_refresh_failure ∷ transport_stopped ∷ []) 0 1 _ (tt, (tt, tt))
      (omega arith) (back_off-IsFair r attempt r.shutdown_during)
refresh-IsFair r attempt code breaks e asks = record {
  allowed = (tt, tt);
  balance = omega arith;
  final = inr (inr e);
}
refresh-IsFair r attempt code abandoned e asks = record {
  allowed = (tt, tt);
  balance = omega arith;
  final = inr (inr (inl e));
}

after_client-IsFair :
    (r : Round) (attempt : ℕ) (end : ClientEnd)
    → r.client ≡ end
    → IsFair r 1 (after_client r attempt end)
unfolding after_client
after_client-IsFair r attempt connection_failed ended =
    before-IsFair r (reports_connection_failure ∷ transport_stopped ∷ []) 0 1 _ (tt, (tt, tt))
      (omega arith) (back_off-IsFair r attempt r.shutdown_during)
after_client-IsFair r attempt crashed ended = record {
  allowed = (tt, tt);
  balance = omega arith;
  final = inl ended;
}
after_client-IsFair r attempt aborted ended = record {
  allowed = (tt, tt);
  balance = omega arith;
  final = inl ended;
}
after_client-IsFair r attempt (closed code reason) ended =
    elim (Bool-cases (should_reconnect code)) [
      | inr permanent ↦ rw permanent (record {
        allowed = (tt, tt);
        balance = omega arith;
        final = should_reconnect-IsPermanent code permanent;
      })
      | inl again ↦ elim (Bool-cases (should_refresh_token code)) [
        | inl asks ↦
            rw (again, asks)
              (refresh-IsFair r attempt code r.refresh_after refl
                (should_refresh_token-AsksRefresh code asks))
        | inr fine ↦
            rw (again, fine)
              (before-IsFair r (transport_stopped ∷ []) 0 1 _ (tt, tt) (omega arith)
                (back_off-IsFair r attempt r.shutdown_during))
      ]
    ]

run_client-IsFair : (r : Round) (attempt : ℕ) → IsFair r 1 (run_client r attempt)
unfolding run_client
run_client-IsFair r attempt = elim (Bool-cases r.established) [
  | inl e ↦ simp e (
      before-IsFair r (client_ran ∷ reports_established ∷ []) 1 1 _ (tt, (tt, tt)) (omega arith)
        (after_client-IsFair r 0 r.client refl))
  | inr e ↦ simp e (
      before-IsFair r (client_ran ∷ []) 1 1 _ (tt, tt) (omega arith)
        (after_client-IsFair r attempt r.client refl))
]

connect-IsFair : (r : Round) (attempt : ℕ) → IsFair r 0 (connect r attempt)
unfolding connect
connect-IsFair r attempt = elim (Bool-cases r.shutdown_before) [
  | inl e ↦ simp e (record { allowed = tt; balance = refl; final = refl })
  | inr e ↦ elim (Bool-cases r.cancelled_starting) [
    | inl c ↦ simp (e, c) (record { allowed = tt; balance = refl; final = inr (inr (inr (inl c))) })
    | inr c ↦ elim (Bool-cases r.transport_starts) [
      | inl s ↦
          simp (e, c, s)
            (before-IsFair r (transport_started ∷ []) 1 0 _ (tt, tt) (omega arith)
              (run_client-IsFair r attempt))
      | inr s ↦
          simp (e, c, s)
            (before-IsFair r (reports_start_failure ∷ transport_stopped ∷ []) 0 0 _ (tt, (tt, tt))
              (omega arith) (back_off-IsFair r attempt r.shutdown_during))
    ]
  ]
]

refresh_first-IsFair :
    (r : Round) (attempt : ℕ) (refresh : Refresh)
    → r.refresh_before ≡ refresh
    → IsFair r 0 (refresh_first r attempt refresh)
unfolding refresh_first
refresh_first-IsFair r attempt refreshed e =
    before-IsFair r (token_saved ∷ []) 0 0 _ (tt, tt) (omega arith) (connect-IsFair r attempt)
refresh_first-IsFair r attempt invalid_grant e = record {
  allowed = tt;
  balance = refl;
  final = inl refl;
}
refresh_first-IsFair r attempt refused e =
    before-IsFair r (reports_refresh_failure ∷ []) 0 0 _ (tt, tt) (omega arith)
      (connect-IsFair r attempt)
refresh_first-IsFair r attempt breaks e = record {
  allowed = tt;
  balance = refl;
  final = inr (inl e);
}
refresh_first-IsFair r attempt abandoned e = record {
  allowed = tt;
  balance = refl;
  final = inr (inl e);
}

pub pass-IsFair : (r : Round) (attempt : ℕ) → IsFair r 0 (pass r attempt)
unfolding pass
pass-IsFair r attempt = elim (Bool-cases r.has_credentials) [
  | inr e ↦ simp e (record { allowed = tt; balance = refl; final = refl })
  | inl e ↦ elim (Bool-cases r.token_expired) [
    | inl t ↦ simp (e, t) (refresh_first-IsFair r attempt r.refresh_before refl)
    | inr t ↦ simp (e, t) (connect-IsFair r attempt)
  ]
]

abbrev pub AnyRound : (Round → Type 0) → List Round → Type 0
AnyRound P [] = ⊥
AnyRound P (r ∷ rounds) = P r ⊎ AnyRound P rounds

abbrev pub EndIsFinal : List Round → End → Type 0
EndIsFinal rounds (stopped code reason) = IsFinal code reason
EndIsFinal rounds broke = AnyRound Raises rounds
EndIsFinal rounds cancelled = AnyRound Cancels rounds
EndIsFinal rounds (unfinished attempt shutdown) = Unit

EndIsFinal-later :
    (r : Round) (rounds : List Round) (end : End)
    → EndIsFinal rounds end
    → EndIsFinal (r ∷ rounds) end
EndIsFinal-later r rounds (stopped code reason) h = h
EndIsFinal-later r rounds broke h = inr h
EndIsFinal-later r rounds cancelled h = inr h
EndIsFinal-later r rounds (unfinished attempt shutdown) h = tt

-- The loop, as one pass after another.
pub record IsSound (rounds : List Round) (actions : List Action) (end : End) : Type 0 where
  pub allowed : All IsAllowed actions
  pub balance : total shut actions ≡ total opened actions
  pub final : EndIsFinal rounds end

follow-IsSound :
    (r : Round) (rounds : List Round) (p : Pass)
    → IsFair r 0 p
    → (rest : ℕ → Bool → List Action × End)
    → ((attempt : ℕ) (shutdown : Bool)
        → IsSound rounds (rest attempt shutdown).0 (rest attempt shutdown).1)
    → IsSound (r ∷ rounds) (follow p rest).0 (follow p rest).1
follow-IsSound r rounds (actions, stops code reason) h rest sound = record {
  allowed = h.allowed;
  balance = omega (arith, h.balance);
  final = h.final;
}
follow-IsSound r rounds (actions, breaks_out) h rest sound = record {
  allowed = h.allowed;
  balance = omega (arith, h.balance);
  final = inl h.final;
}
follow-IsSound r rounds (actions, cancels) h rest sound = record {
  allowed = h.allowed;
  balance = omega (arith, h.balance);
  final = inl h.final;
}
follow-IsSound r rounds (actions, goes_on attempt shutdown) h rest sound =
    let more = sound attempt shutdown in
    let (later, end) = rest attempt shutdown in
    record {
      allowed = All-append IsAllowed actions later h.allowed more.allowed;
      balance = omega (
        arith,
        total-append shut actions later,
        total-append opened actions later,
        h.balance,
        more.balance,
      );
      final = EndIsFinal-later r rounds end more.final;
    }

pub run_loop-IsSound :
    (attempt : ℕ) (shutdown : Bool) (rounds : List Round)
    → IsSound rounds (run_loop attempt shutdown rounds).0 (run_loop attempt shutdown rounds).1
unfolding run_loop
run_loop-IsSound attempt true rounds = record { allowed = tt; balance = refl; final = refl }
run_loop-IsSound attempt false [] = record { allowed = tt; balance = refl; final = tt }
run_loop-IsSound attempt false (r ∷ rounds) =
    follow-IsSound r rounds (pass r attempt) (pass-IsFair r attempt) (λ a s. run_loop a s rounds)
      (λ a s. run_loop-IsSound a s rounds)
