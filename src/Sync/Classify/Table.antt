-- ===== src/Sync/Classify/Table.antt =====
-- Which row of the table of phrases decides.
use anki_mcp_server_addon.Prelude.{
  ℕ, ◌≡◌, ◌≢◌, refl, ap, ◌∙◌, true, false, List, [], ◌∷◌, ◌++◌, arith, All, any, contains,
}
use anki_mcp_server_addon.Sync.Classify.{
  Row, error_rows, shows, first_category, classify_sync_error,
}

first-append :
    (text : List ℕ) (before : List Row) (row : Row) (after : List Row)
    → All (λ r. shows text r ≡ false) before
    → shows text row ≡ true
    → first_category (before ++ row ∷ after) text ≡ row.category
unfolding first_category
first-append text [] row after silent hit = ground arith
first-append text (other ∷ before) row after silent hit =
    ground (arith, first-append text before row after silent.1 hit)

first_none :
    (text : List ℕ) (rows : List Row)
    → All (λ r. shows text r ≡ false) rows
    → first_category rows text ≡ "unknown"
unfolding first_category
first_none text [] silent = refl
first_none text (row ∷ rows) silent = ground (arith, first_none text rows silent.1)

-- Wherever the table is cut before a row, a nonempty message has that row's category if the lowered
-- message has a phrase of the row and no phrase of a row before it.
pub classify_by_first_row :
    (lower : List ℕ → List ℕ) (message : List ℕ) (before : List Row) (row : Row) (after : List Row)
    → message ≢ []
    → error_rows ≡ before ++ row ∷ after
    → All (λ r. any (λ needle. contains needle (lower message)) r.needles ≡ false) before
    → any (λ needle. contains needle (lower message)) row.needles ≡ true
    → classify_sync_error lower message ≡ row.category
classify_by_first_row lower [] before row after nonempty cut silent hit = absurd (nonempty refl)
classify_by_first_row lower (c ∷ message) before row after nonempty cut silent hit =
    unfold classify_sync_error shows in
    ap (λ rows. first_category rows (lower (c ∷ message))) cut
    ∙ first-append (lower (c ∷ message)) before row after silent hit

-- A message whose lowered text has no phrase of the table has the category unknown.
pub classify_unknown :
    (lower : List ℕ → List ℕ) (message : List ℕ)
    → All (λ r. any (λ needle. contains needle (lower message)) r.needles ≡ false) error_rows
    → classify_sync_error lower message ≡ "unknown"
unfolding classify_sync_error shows
classify_unknown lower [] silent = refl
classify_unknown lower (c ∷ message) silent = first_none (lower (c ∷ message)) error_rows silent
