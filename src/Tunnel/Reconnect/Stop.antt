-- ===== src/Tunnel/Reconnect/Stop.antt =====
-- How `run` reports the end of the loop.
use anki_mcp_server_addon.Prelude.{ℕ, ◌≡◌, refl, sym, subst, false, List, [], ◌∷◌, ◌++◌, ap, All}
use anki_mcp_server_addon.Tunnel.Reconnect.{
  Round, Reason, tunnel_error, Action, reports_stopped, End, stopped, broke, cancelled, unfinished,
  run_loop, report, run,
}
use anki_mcp_server_addon.Tunnel.Reconnect.Ends.{IsAllowed, IsFinal, Raises, Cancels}
use anki_mcp_server_addon.Tunnel.Reconnect.Loop.{AnyRound, IsSound, run_loop-IsSound}

-- A report of the end with a code and a reason, after actions that report none.
pub record StopsOnce (code : ℕ) (reason : Reason) (actions : List Action) : Type 0 where
  pub earlier : List Action
  pub last : actions ≡ earlier ++ reports_stopped code reason ∷ []
  pub none_before : All IsAllowed earlier

-- What is reported for each way to end.
abbrev pub IsReported : List Round → End → List Action → Type 0
IsReported rounds (stopped code reason) actions =
    StopsOnce code reason actions × IsFinal code reason
IsReported rounds broke actions = StopsOnce 0 tunnel_error actions × AnyRound Raises rounds
IsReported rounds cancelled actions = All IsAllowed actions × AnyRound Cancels rounds
IsReported rounds (unfinished attempt shutdown) actions = All IsAllowed actions

append_nil : (actions : List Action) → actions ++ [] ≡ actions
append_nil [] = refl
append_nil (action ∷ actions) = ap (λ rest. action ∷ rest) (append_nil actions)

ended-IsReported :
    (rounds : List Round) (actions : List Action) (end : End)
    → IsSound rounds actions end
    → IsReported rounds end (actions ++ report end)
unfolding report
ended-IsReported rounds actions (stopped code reason) sound =
    (record { earlier = actions; last = refl; none_before = sound.allowed }, sound.final)
ended-IsReported rounds actions broke sound =
    (record { earlier = actions; last = refl; none_before = sound.allowed }, sound.final)
ended-IsReported rounds actions cancelled sound =
    (subst (All IsAllowed) (sym (append_nil actions)) sound.allowed, sound.final)
ended-IsReported rounds actions (unfinished attempt shutdown) sound =
    subst (All IsAllowed) (sym (append_nil actions)) sound.allowed

-- When the loop has returned a code and a reason, these are ones that go together, and `run` has
-- reported them exactly once and last; after an exception, which a round has raised, it has so
-- reported code 0 and that error; and after a cancellation, which a round has had, as before the end,
-- it has reported no end, and no reconnection out of range.
pub run-StopsOnce : (rounds : List Round) → IsReported rounds (run rounds).1 (run rounds).0
unfolding run
run-StopsOnce rounds =
    ended-IsReported rounds (run_loop 0 false rounds).0 (run_loop 0 false rounds).1
      (run_loop-IsSound 0 false rounds)
