-- ===== src/Notes/Examples.antt =====
-- A collection of one note.
use anki_mcp_server_addon.Prelude.{
  ℕ, String, str_eq, eq_iff, ◌≡◌, ◌≢◌, refl, true, some, List, [], ◌∷◌, ◌==◌, if◌then◌else◌, arith,
}
use anki_mcp_server_addon.Prelude.Dict
use anki_mcp_server_addon.Prelude.Dict.{Dict}
use anki_mcp_server_addon.Notes.{
  Lookup, found, not_found, NoteUpdate, updated, written, judge, finish, collection_after,
}
use anki_mcp_server_addon.Notes.Rows.{row, rows_from}
use anki_mcp_server_addon.Notes.Twice.{WritesLast, sets, second_entry_wins}

abbrev card : Dict String
card = ("Front", "q") ∷ ("Back", "a") ∷ []

abbrev one_note : ℕ → Lookup
one_note id = if id == 7 then found card else not_found

abbrev mixed : List NoteUpdate
mixed = sets 7 "Front" "r" ∷ sets 8 "Front" "r" ∷ sets 7 "Hint" "r" ∷ []

-- Notes are written in order.
abbrev write_all : List (ℕ × Dict String) → (ℕ → Lookup) → ℕ → Lookup
write_all [] col id = col id
write_all ((k, note) ∷ notes) col id =
    write_all notes (λ j. if j == k then found note else col j) id

write_all-WritesLast : WritesLast write_all
write_all-WritesLast col id a b = ground arith

front_ne_back : ◌≢◌ {A = String} "Front" "Back"
front_ne_back e = let same : str_eq "Front" "Back" ≡ true = (eq_iff "Front" "Back").1 e in cc

second_entry_wins_example :
    let entries = sets 7 "Front" "r" ∷ sets 7 "Back" "b" ∷ [] in
    (rows_from (judge one_note) (finish written) 0 entries
      ≡ row 0 (record { note_id = 7; status = updated ("Front" ∷ []) })
        ∷ row 1 (record { note_id = 7; status = updated ("Back" ∷ []) })
        ∷ [])
    × (after : Dict String) × (collection_after write_all one_note entries 7 ≡ found after)
    × (Dict.get "Front" after ≡ some "q")
    × (Dict.get "Back" after ≡ some "b")
unfolding Dict.get
second_entry_wins_example =
    second_entry_wins write_all one_note 7 card "Front" "Back" "r" "b" (some "q")
      write_all-WritesLast refl refl refl refl front_ne_back refl
