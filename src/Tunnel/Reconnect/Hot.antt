-- ===== src/Tunnel/Reconnect/Hot.antt =====
-- When the loop ends, and when it does not.
use anki_mcp_server_addon.Prelude.{
  ℕ, ◌+◌, ◌≤◌, ◌<◌, ◌≡◌, ◌≢◌, refl, sym, subst, Bool, true, false, inl, inr, List, [], ◌∷◌, ◌++◌,
  arith, All, length, Bool-cases, leb,
}
use anki_mcp_server_addon.Tunnel.CloseCodes
use anki_mcp_server_addon.Tunnel.Protocol.{should_reconnect, should_refresh_token}
use anki_mcp_server_addon.Tunnel.Reconnect.{
  Refresh, refreshed, invalid_grant, refused, breaks, abandoned, ClientEnd, closed,
  connection_failed, crashed, aborted, Round, Action, client_ran, transport_started,
  transport_stopped, token_saved, Next, stops, goes_on, breaks_out, cancels, after_sleep, Pass,
  max_attempts, back_off, refresh_after_close, after_client, run_client, connect, refresh_first,
  pass, End, unfinished, follow, run_loop,
}

-- A round that neither establishes the tunnel nor obtains a new token after a close code.
abbrev pub IsFruitless : Round → Type 0
IsFruitless r = (r.established ≡ false) × (r.refresh_after ≢ refreshed)

-- Going on costs an attempt, and some are left.
abbrev CostsAttempt : ℕ → Next → Type 0
CostsAttempt attempt (goes_on next shutdown) = (next ≡ attempt + 1) × (next < max_attempts)
CostsAttempt attempt _ = Unit

sleep-CostsAttempt :
    (asleep : Bool) (attempt : ℕ) (shutdown : Bool)
    → attempt + 1 < max_attempts
    → CostsAttempt attempt (after_sleep asleep (attempt + 1) shutdown)
sleep-CostsAttempt true attempt shutdown left = tt
sleep-CostsAttempt false attempt shutdown left = (refl, left)

back_off-CostsAttempt :
    (r : Round) (attempt : ℕ) (shutdown : Bool)
    → CostsAttempt attempt (back_off r (attempt + 1) shutdown).1
unfolding back_off
back_off-CostsAttempt r attempt true = tt
back_off-CostsAttempt r attempt false = elim (Bool-cases (leb max_attempts (attempt + 1))) [
  | inl e ↦ rw e tt
  | inr e ↦ rw e (sleep-CostsAttempt r.cancelled_asleep attempt r.shutdown_asleep (ground arith))
]

refresh-CostsAttempt :
    (r : Round) (attempt code : ℕ) (refresh : Refresh)
    → refresh ≢ refreshed
    → CostsAttempt attempt (refresh_after_close r attempt code refresh).1
unfolding refresh_after_close
refresh-CostsAttempt r attempt code refreshed h = absurd (h refl)
refresh-CostsAttempt r attempt code invalid_grant h = tt
refresh-CostsAttempt r attempt code refused h = (back_off-CostsAttempt r attempt r.shutdown_during)
refresh-CostsAttempt r attempt code breaks h = tt
refresh-CostsAttempt r attempt code abandoned h = tt

after_client-CostsAttempt :
    (r : Round) (attempt : ℕ) (end : ClientEnd)
    → r.refresh_after ≢ refreshed
    → CostsAttempt attempt (after_client r attempt end).1
unfolding after_client
after_client-CostsAttempt r attempt connection_failed h =
    (back_off-CostsAttempt r attempt r.shutdown_during)
after_client-CostsAttempt r attempt crashed h = tt
after_client-CostsAttempt r attempt aborted h = tt
after_client-CostsAttempt r attempt (closed code reason) h =
    elim (Bool-cases (should_reconnect code)) [
      | inr permanent ↦ rw permanent tt
      | inl again ↦ elim (Bool-cases (should_refresh_token code)) [
        | inl asks ↦ rw (again, asks) (refresh-CostsAttempt r attempt code r.refresh_after h)
        | inr fine ↦ rw (again, fine) ((back_off-CostsAttempt r attempt r.shutdown_during))
      ]
    ]

connect-CostsAttempt :
    (r : Round) (attempt : ℕ) → IsFruitless r → CostsAttempt attempt (connect r attempt).1
unfolding connect run_client
connect-CostsAttempt r attempt (silent, h) = elim (Bool-cases r.shutdown_before) [
  | inl e ↦ simp e tt
  | inr e ↦ elim (Bool-cases r.cancelled_starting) [
    | inl c ↦ simp (e, c) tt
    | inr c ↦ elim (Bool-cases r.transport_starts) [
      | inl s ↦ simp (e, c, s, silent) (after_client-CostsAttempt r attempt r.client h)
      | inr s ↦ simp (e, c, s) (back_off-CostsAttempt r attempt r.shutdown_during)
    ]
  ]
]

refresh_first-CostsAttempt :
    (r : Round) (attempt : ℕ) (refresh : Refresh)
    → IsFruitless r
    → CostsAttempt attempt (refresh_first r attempt refresh).1
unfolding refresh_first
refresh_first-CostsAttempt r attempt refreshed h = connect-CostsAttempt r attempt h
refresh_first-CostsAttempt r attempt invalid_grant h = tt
refresh_first-CostsAttempt r attempt refused h = connect-CostsAttempt r attempt h
refresh_first-CostsAttempt r attempt breaks h = tt
refresh_first-CostsAttempt r attempt abandoned h = tt

pass-CostsAttempt :
    (r : Round) (attempt : ℕ) → IsFruitless r → CostsAttempt attempt (pass r attempt).1
unfolding pass
pass-CostsAttempt r attempt h = elim (Bool-cases r.has_credentials) [
  | inr e ↦ simp e tt
  | inl e ↦ elim (Bool-cases r.token_expired) [
    | inl t ↦ simp (e, t) (refresh_first-CostsAttempt r attempt r.refresh_before h)
    | inr t ↦ simp (e, t) (connect-CostsAttempt r attempt h)
  ]
]

abbrev pub HasEnded : End → Type 0
HasEnded (unfinished attempt shutdown) = ⊥
HasEnded _ = Unit

follow-HasEnded :
    (attempt : ℕ) (p : Pass) (rest : ℕ → Bool → List Action × End)
    → CostsAttempt attempt p.1
    → ((shutdown : Bool) → attempt + 1 < max_attempts → HasEnded (rest (attempt + 1) shutdown).1)
    → HasEnded (follow p rest).1
follow-HasEnded attempt (actions, stops code reason) rest h ends = tt
follow-HasEnded attempt (actions, breaks_out) rest h ends = tt
follow-HasEnded attempt (actions, cancels) rest h ends = tt
follow-HasEnded attempt (actions, goes_on next shutdown) rest (same, left) ends =
    subst (λ n. HasEnded (rest n shutdown).1) (sym same) (ends shutdown (omega arith))

-- From a number of attempts below ten, the loop has ended once as many rounds as are left up to ten
-- have all been fruitless: none established the tunnel or obtained a new token after a close code.
pub fruitless_ends :
    (rounds : List Round) (attempt : ℕ) (shutdown : Bool)
    → attempt < max_attempts
    → max_attempts ≤ attempt + length rounds
    → All IsFruitless rounds
    → HasEnded (run_loop attempt shutdown rounds).1
unfolding run_loop
fruitless_ends [] attempt shutdown low enough h = absurd (omega arith)
fruitless_ends (r ∷ rounds) attempt true low enough h = tt
fruitless_ends (r ∷ rounds) attempt false low enough h =
    follow-HasEnded attempt (pass r attempt) (λ a s. run_loop a s rounds)
      (pass-CostsAttempt r attempt h.0)
      λ shutdown left. fruitless_ends rounds (attempt + 1) shutdown left (omega arith) h.1

-- The server refuses the token, and the refresh that follows succeeds.
pub record IsRejected (r : Round) : Type 0 where
  pub credentials : r.has_credentials ≡ true
  pub current : r.token_expired ≡ false
  pub no_shutdown : (r.shutdown_before ≡ false) × (r.shutdown_during ≡ false)
  pub starts : (r.cancelled_starting ≡ false) × (r.transport_starts ≡ true)
  pub silent : r.established ≡ false
  pub reason : List ℕ
  pub rejected : r.client ≡ closed CloseCodes.auth_failed reason
  pub renews : r.refresh_after ≡ refreshed

abbrev pub rejected_pass : List Action
rejected_pass = transport_started ∷ client_ran ∷ token_saved ∷ transport_stopped ∷ []

abbrev pub rejections : List Round → List Action
rejections [] = []
rejections (r ∷ rounds) = rejected_pass ++ rejections rounds

rejected_once :
    (r : Round) (attempt : ℕ) → IsRejected r → pass r attempt ≡ (rejected_pass, goes_on 0 false)
unfolding pass connect run_client after_client refresh_after_close should_reconnect
    should_refresh_token
rejected_once r attempt h =
    ground
      (arith, h.credentials, h.current, h.no_shutdown, h.starts, h.silent, h.rejected, h.renews)

-- However many rounds in a row have the server close with the code for a failed authentication and
-- the refresh succeed, the loop goes on without an attempt counted, a reconnection announced or a delay.
pub rejections_go_on :
    (rounds : List Round) (attempt : ℕ)
    → All IsRejected rounds
    → rounds ≢ []
    → run_loop attempt false rounds ≡ (rejections rounds, unfinished 0 false)
unfolding run_loop
rejections_go_on [] attempt h some_round = absurd (some_round refl)
rejections_go_on (r ∷ []) attempt h some_round = rw (rejected_once r attempt h.0)
rejections_go_on (r ∷ r' ∷ rounds) attempt h some_round =
    rw (rejected_once r attempt h.0, rejections_go_on (r' ∷ rounds) 0 h.1 (λ e. cc))
