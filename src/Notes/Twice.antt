-- ===== src/Notes/Twice.antt =====
-- A note that is named twice in one request.
use anki_mcp_server_addon.Prelude.{
  ℕ, String, eq_iff, ◌≡◌, ◌≢◌, refl, true, false, Option, some, List, [], ◌∷◌, ◌==◌, arith,
}
use anki_mcp_server_addon.Prelude.Dict
use anki_mcp_server_addon.Prelude.Dict.{Dict, get-put}
use anki_mcp_server_addon.Notes.{
  Lookup, found, NoteUpdate, updated, is_field, accepted, check, judge, finish, collection_after,
  written,
}
use anki_mcp_server_addon.Notes.Rows.{row, judge_all, rows_from}

-- Where a note is written twice, the second object is what is read.
abbrev pub WritesLast : (List (ℕ × Dict String) → (ℕ → Lookup) → ℕ → Lookup) → Type 0
WritesLast write =
    (col : ℕ → Lookup) (id : ℕ) (a b : Dict String)
    → write ((id, a) ∷ (id, b) ∷ []) col id ≡ found b

abbrev pub sets : ℕ → String → String → NoteUpdate
sets id name value = record { id = id; fields = (name, value) ∷ [] }

check-sets :
    (id : ℕ) (name value : String) (note : Dict String)
    → (id == 0) ≡ false
    → is_field name note ≡ true
    → check (sets id name value) (found note) ≡ accepted (Dict.put name value note)
unfolding check
check-sets id name value note positive here = rw (positive, here) refl

-- Where a batch is written in order and one request sets two fields of one note in two entries, both
-- are reported as updated, and after the batch the note has the second field's new value, while the first field has its old one.
pub second_entry_wins :
    (write : List (ℕ × Dict String) → (ℕ → Lookup) → ℕ → Lookup) (col : ℕ → Lookup) (id : ℕ)
    (note : Dict String) (first second x y : String) (old : Option String)
    → WritesLast write
    → (id == 0) ≡ false
    → col id ≡ found note
    → is_field first note ≡ true
    → is_field second note ≡ true
    → first ≢ second
    → Dict.get first note ≡ old
    → let entries = sets id first x ∷ sets id second y ∷ [] in
      (rows_from (judge col) (finish written) 0 entries
        ≡ row 0 (record { note_id = id; status = updated (first ∷ []) })
          ∷ row 1 (record { note_id = id; status = updated (second ∷ []) })
          ∷ [])
      × (after : Dict String) × (collection_after write col entries id ≡ found after)
      × (Dict.get first after ≡ old)
      × (Dict.get second after ≡ some y)
unfolding collection_after judge judge_all
second_entry_wins write col id note first second x y old last positive here a b apart before =
    let one = check-sets id first x note positive a in
    let two = check-sets id second y note positive b in
    (
      rw (here, one, two) refl,
      Dict.put second y note,
      rw (here, one, two) (last col id _ _),
      ground (arith, get-put second first y note, eq_iff second first),
      ground (arith, get-put second second y note, eq_iff second second),
    )
