-- ===== src/Search/Examples.antt =====
-- Five notes, two to a page.
use anki_mcp_server_addon.Prelude.{ℕ, ◌+◌, ◌≡◌, refl, some, List, [], ◌∷◌, length, arith}
use anki_mcp_server_addon.Search.{nonneg, negative, validation_error, limit_exceeded, find_notes}
use anki_mcp_server_addon.Search.Pages.{read_pages, pages_complete}

abbrev five : List ℕ
five = 3 ∷ 1 ∷ 4 ∷ 15 ∷ 9 ∷ []

over_limit : find_notes (nonneg 501) (nonneg 0) (some five) ≡ limit_exceeded
unfolding find_notes
over_limit = refl

below_zero : find_notes (nonneg 2) negative (some five) ≡ validation_error
unfolding find_notes
below_zero = refl

pages_complete_example : read_pages (length five + 1) 2 0 five ≡ some five
pages_complete_example = pages_complete 2 five (omega arith) (omega arith)
