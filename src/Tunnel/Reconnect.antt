-- ===== src/Tunnel/Reconnect.antt =====
-- `TunnelReconnectManager` of anki_mcp_server/tunnel/reconnect.py. The loop is a function of its
-- rounds: a round is what the outside answers during one pass (credentials, token refreshes,
-- transport, client, and where `disconnect` set the shutdown flag). Times are whole milliseconds, and
-- the random jitter is part of the round.
pub mod Delays
pub mod Ends
pub mod Loop
pub mod Hot
pub mod Stop
use Prim.Native.Nat.{min}
use anki_mcp_server_addon.Prelude.{
  ℕ, zero, suc, ◌+◌, ◌*◌, ◌/◌, ◌^◌, Bool, true, false, ◌||◌, Option, none, some, List, [], ◌∷◌,
  ◌++◌, leb, if◌then◌else◌,
}
use anki_mcp_server_addon.Tunnel.CloseCodes
use anki_mcp_server_addon.Tunnel.Protocol.{should_reconnect, should_refresh_token}

abbrev pub initial_delay : ℕ
initial_delay = 1000

abbrev pub max_delay : ℕ
max_delay = 30000

abbrev pub max_attempts : ℕ
max_attempts = 10

abbrev pub base_delay : ℕ → ℕ
base_delay attempt = initial_delay * 2 ^ attempt

-- `jitter` is the random number, between nothing and three tenths of the base.
unfoldable pub calculate_delay : ℕ → ℕ → ℕ
calculate_delay attempt jitter = min (base_delay attempt + jitter) max_delay

-- How a call of `refresh_token` ends; `breaks` is an exception that is no AuthError, and `abandoned` a
-- cancellation of the task.
pub data Refresh : Type 0 where
  refreshed : Refresh
  invalid_grant : Refresh
  refused : Refresh
  breaks : Refresh
  abandoned : Refresh

-- How `client.run()` ends; `aborted` is a cancellation of the task.
pub data ClientEnd : Type 0 where
  closed : ℕ → List ℕ → ClientEnd
  connection_failed : ClientEnd
  crashed : ClientEnd
  aborted : ClientEnd

pub record Round : Type 0 where
  pub has_credentials : Bool
  pub token_expired : Bool
  pub refresh_before : Refresh
  pub shutdown_before : Bool
  pub cancelled_starting : Bool
  pub transport_starts : Bool
  pub established : Bool
  pub client : ClientEnd
  pub refresh_after : Refresh
  pub shutdown_during : Bool
  pub jitter : ℕ
  pub cancelled_asleep : Bool
  pub shutdown_asleep : Bool

pub data Reason : Type 0 where
  no_credentials refresh_revoked by_user exhausted tunnel_error : Reason
  from_server : List ℕ → Reason

-- What the manager does that others see, in order.
pub data Action : Type 0 where
  transport_started transport_stopped client_ran token_saved : Action
  reports_established reports_refresh_failure reports_start_failure reports_connection_failure :
      Action
  reports_reconnecting : ℕ → ℕ → Action
  reports_stopped : ℕ → Reason → Action

-- A pass of the loop ends it, with a close code and a reason, or goes on with a number of attempts
-- and the shutdown flag; `breaks_out` is an exception that leaves the loop, and `cancels` the
-- CancelledError, which is no Exception.
pub data Next : Type 0 where
  stops : ℕ → Reason → Next
  goes_on : ℕ → Bool → Next
  breaks_out : Next
  cancels : Next

abbrev pub Pass : Type 0
Pass = List Action × Next

abbrev pub before : List Action → Pass → Pass
before actions (more, next) = (actions ++ more, next)

abbrev pub after_sleep : Bool → ℕ → Bool → Next
after_sleep true attempt shutdown = cancels
after_sleep false attempt shutdown = goes_on attempt shutdown

-- From "Check attempt limit" to the end of the pass.
unfoldable pub back_off : Round → ℕ → Bool → Pass
back_off r attempt shutdown =
    if shutdown
    then ([], stops CloseCodes.normal by_user)
    else if leb max_attempts attempt
    then ([], stops 0 exhausted)
    else (
      reports_reconnecting attempt (calculate_delay attempt r.jitter) ∷ [],
      after_sleep r.cancelled_asleep attempt r.shutdown_asleep,
    )

-- The refresh after a close code that asks for one; the `finally` stops the transport.
unfoldable pub refresh_after_close : Round → ℕ → ℕ → Refresh → Pass
unfolding back_off
refresh_after_close r attempt code refreshed =
    (token_saved ∷ transport_stopped ∷ [], goes_on 0 r.shutdown_during)
refresh_after_close r attempt code invalid_grant =
    (transport_stopped ∷ [], stops code refresh_revoked)
refresh_after_close r attempt code refused =
    before (reports_refresh_failure ∷ transport_stopped ∷ [])
      (back_off r (attempt + 1) r.shutdown_during)
refresh_after_close r attempt code breaks = (transport_stopped ∷ [], breaks_out)
refresh_after_close r attempt code abandoned = (transport_stopped ∷ [], cancels)

unfoldable pub after_client : Round → ℕ → ClientEnd → Pass
unfolding refresh_after_close back_off
after_client r attempt connection_failed =
    before (reports_connection_failure ∷ transport_stopped ∷ [])
      (back_off r (attempt + 1) r.shutdown_during)
after_client r attempt crashed = (transport_stopped ∷ [], breaks_out)
after_client r attempt aborted = (transport_stopped ∷ [], cancels)
after_client r attempt (closed code reason) =
    if should_reconnect code
    then (if should_refresh_token code
        then refresh_after_close r attempt code r.refresh_after
        else before (transport_stopped ∷ []) (back_off r (attempt + 1) r.shutdown_during))
    else (transport_stopped ∷ [], stops code (from_server reason))

-- The established callback resets the attempts.
unfoldable pub run_client : Round → ℕ → Pass
unfolding after_client
run_client r attempt =
    if r.established
    then before (client_ran ∷ reports_established ∷ []) (after_client r 0 r.client)
    else before (client_ran ∷ []) (after_client r attempt r.client)

unfoldable pub connect : Round → ℕ → Pass
unfolding run_client back_off
connect r attempt =
    if r.shutdown_before
    then ([], stops CloseCodes.normal by_user)
    else if r.cancelled_starting
    then ([], cancels)
    else if r.transport_starts
    then before (transport_started ∷ []) (run_client r attempt)
    else before (reports_start_failure ∷ transport_stopped ∷ [])
        (back_off r (attempt + 1) r.shutdown_during)

unfoldable pub refresh_first : Round → ℕ → Refresh → Pass
unfolding connect
refresh_first r attempt refreshed = before (token_saved ∷ []) (connect r attempt)
refresh_first r attempt invalid_grant = ([], stops 0 refresh_revoked)
refresh_first r attempt refused = before (reports_refresh_failure ∷ []) (connect r attempt)
refresh_first r attempt breaks = ([], breaks_out)
refresh_first r attempt abandoned = ([], cancels)

-- One pass of the loop, entered with the shutdown flag down.
unfoldable pub pass : Round → ℕ → Pass
unfolding refresh_first connect
pass r attempt =
    if r.has_credentials
    then (if r.token_expired then refresh_first r attempt r.refresh_before else connect r attempt)
    else ([], stops 0 no_credentials)

-- How the loop ends; `unfinished` is a list of rounds that is too short.
pub data End : Type 0 where
  stopped : ℕ → Reason → End
  broke : End
  cancelled : End
  unfinished : ℕ → Bool → End

-- What follows a pass; `rest` is the loop from there on.
abbrev pub follow : Pass → (ℕ → Bool → List Action × End) → List Action × End
follow (actions, stops code reason) rest = (actions, stopped code reason)
follow (actions, breaks_out) rest = (actions, broke)
follow (actions, cancels) rest = (actions, cancelled)
follow (actions, goes_on attempt shutdown) rest =
    let (more, end) = rest attempt shutdown in (actions ++ more, end)

unfoldable pub run_loop : ℕ → Bool → List Round → List Action × End
unfolding pass
run_loop attempt true rounds = ([], stopped CloseCodes.normal by_user)
run_loop attempt false [] = ([], unfinished attempt false)
run_loop attempt false (r ∷ rounds) = follow (pass r attempt) (λ a s. run_loop a s rounds)

unfoldable pub report : End → List Action
report (stopped code reason) = reports_stopped code reason ∷ []
report broke = reports_stopped 0 tunnel_error ∷ []
report cancelled = []
report (unfinished attempt shutdown) = []

-- The shutdown flag is lowered first, and `on_stopped` follows unless the loop is
-- cancelled: that leaves `run` at once.
unfoldable pub run : List Round → List Action × End
unfolding report
run rounds = let (actions, end) = run_loop 0 false rounds in (actions ++ report end, end)
