-- ===== src/Sync/Classify/Examples.antt =====
-- The classifier on the texts of a backend, where lower case changes nothing.
use anki_mcp_server_addon.Prelude.{ℕ, ◌≡◌, refl, List, codes}
use anki_mcp_server_addon.Sync.Classify.{classify_sync_error}

abbrev as_is : List ℕ → List ℕ
as_is message = message

clock_found : classify_sync_error as_is (codes "please check your clock") ≡ "clock_incorrect"
unfolding classify_sync_error
clock_found = refl

other_unknown : classify_sync_error as_is (codes "disk full") ≡ "unknown"
unfolding classify_sync_error
other_unknown = refl
