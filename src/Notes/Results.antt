-- ===== src/Notes/Results.antt =====
-- Each entry of an update has its row, in the order of the request.
use anki_mcp_server_addon.Prelude.{
  ℕ, suc, String, ◌+◌, ◌≡◌, Bool, true, false, not, ◌&&◌, ◌==◌, ◌⊎◌, List, [], ◌∷◌, length,
  if◌then◌else◌,
}
use anki_mcp_server_addon.Prelude.Dict.{Dict}
use anki_mcp_server_addon.Notes.Rows.{Row, result_of}
use anki_mcp_server_addon.Notes.{
  Lookup, found, not_found, raises, NoteUpdate, NoteResult, is_field, keys, accepted, rejected,
  check, judge, Outcome, dry_run, written, batch_fails, finish, counted, is_failed, count_done,
}

abbrev all_fields : Dict String → List String → Bool
all_fields note [] = true
all_fields note (name ∷ names) = is_field name note && all_fields note names

abbrev has_some : Dict String → Bool
has_some [] = false
has_some (field ∷ fields) = true

-- An entry that can be written: a positive id, a note that is found, at least one field, and only
-- fields that the note has.
abbrev pub fits : NoteUpdate → Lookup → Bool
fits entry not_found = false
fits entry raises = false
fits entry (found note) =
    not (entry.id == 0) && has_some entry.fields && all_fields note (keys entry.fields)

-- How many entries cannot be written.
abbrev pub misfits : (ℕ → Lookup) → List NoteUpdate → ℕ
misfits col [] = 0
misfits col (entry ∷ entries) =
    if fits entry (col entry.id) then misfits col entries else suc (misfits col entries)

-- All entries fail with a batch that raises, and else those that cannot be written.
abbrev pub failing : Outcome → (ℕ → Lookup) → List NoteUpdate → ℕ
failing dry_run col entries = misfits col entries
failing written col entries = misfits col entries
failing batch_fails col entries = length entries

-- Whether an entry fits is whether it is accepted.
abbrev Judged : NoteUpdate → Lookup → Type 0
Judged entry lookup =
    ((fits entry lookup ≡ true) × (note : Dict String) × (check entry lookup ≡ accepted note))
    ⊎ ((fits entry lookup ≡ false) × (again : Bool) × (check entry lookup ≡ rejected again))

abbrev with_fields : ℕ → Dict String → NoteUpdate
with_fields id fields = record { id = id; fields = fields }

module _ (col : ℕ → Lookup) where
  abbrev result_at : Outcome → ℕ → NoteUpdate → NoteResult
  result_at outcome i entry = result_of (judge col) (finish outcome) i (judge col entry)

  abbrev Counts : Outcome → List (Row NoteResult) → List NoteUpdate → Type 0
  Counts outcome rows entries =
      (counted is_failed rows ≡ failing outcome col entries)
      × (count_done outcome rows + failing outcome col entries ≡ length entries)
