-- ===== src/Notes/Add/Counts.antt =====
-- Each entry of an add has its row, in the order of the request, and is counted once.
use anki_mcp_server_addon.Prelude.{ℕ, ◌+◌, List}
use anki_mcp_server_addon.Notes.Rows.{Row}
use anki_mcp_server_addon.Notes.Add.{AddResult, counted, is_created, is_skipped, is_failed}

-- The three counts of some rows.
abbrev counts : List (Row AddResult) → ℕ
counts rows = counted is_created rows + counted is_skipped rows + counted is_failed rows
