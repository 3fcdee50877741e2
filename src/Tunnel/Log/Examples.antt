-- ===== src/Tunnel/Log/Examples.antt =====
-- A log of two entries at most.
use anki_mcp_server_addon.Prelude.{◌≡◌, refl, List, [], ◌∷◌, codes}
use anki_mcp_server_addon.Tunnel.Log.{
  Call, logs, clears, info, error, auth, entry_of, new, apply_all, get_entries,
}
use anki_mcp_server_addon.Tunnel.Log.Recent.{last, record_all, apply_all_refines}

abbrev calls : List Call
calls =
    logs info 1 (codes "a")
    ∷ clears
    ∷ logs error 2 (codes "b")
    ∷ logs info 3 (codes "c")
    ∷ logs auth 4 (codes "d")
    ∷ []

two_left :
    get_entries (apply_all calls (new 2))
    ≡ entry_of info 3 (codes "c") ∷ entry_of auth 4 (codes "d") ∷ []
unfolding get_entries apply_all new
two_left = refl

apply_all_refines_example :
    let log = apply_all calls (new 2) in
    let h = record_all calls (record { current = []; all = [] }) in
    (get_entries log ≡ last 2 h.current) × (log.emitted ≡ h.all)
apply_all_refines_example = apply_all_refines 2 calls
