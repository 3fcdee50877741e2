-- ===== src/Tunnel/Tasks/Examples.antt =====
-- A tunnel that is started, replaced and stopped in turn, and one whose stop overlaps a start.
use anki_mcp_server_addon.Prelude.{◌≡◌, refl, true, false, none, some, List, [], ◌∷◌}
use anki_mcp_server_addon.Tunnel.Tasks.{
  Event, begins_start, begins_stop, established, ends, resumes, idle, step, run,
}
use anki_mcp_server_addon.Tunnel.Tasks.Ordered.{IsOne, run-IsOne}
use anki_mcp_server_addon.Tunnel.Tasks.Overlap.{with_tunnel, overlap, overlap_orphans}

abbrev in_turn : List Event
in_turn = begins_start "a" ∷ established ∷ begins_start "aa" ∷ ends "a" ∷ resumes ∷ begins_stop ∷ []

one_left : (run in_turn idle).alive ≡ "aa" ∷ []
unfolding run idle
one_left = refl

run-IsOne_example : IsOne (run in_turn idle).tunnel_task (run in_turn idle).alive
unfolding step idle
run-IsOne_example = run-IsOne in_turn (refl, (tt, (refl, (tt, (tt, (refl, tt))))))

overlap_orphans_example :
    let after = run (overlap "a" "aa") (with_tunnel true (some "a") "a") in
    (after.alive ≡ "aa" ∷ [])
    × (after.tunnel_task ≡ none)
    × (after.tunnel_running ≡ false)
    × (after.waiting ≡ [])
    × ((step begins_stop after).alive ≡ "aa" ∷ [])
    × ((step (begins_start "aaa") after).alive ≡ "aaa" ∷ "aa" ∷ [])
overlap_orphans_example = overlap_orphans true (some "a") "a" "aa" "aaa" (λ e. cc)
