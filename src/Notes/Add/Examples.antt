-- ===== src/Notes/Add/Examples.antt =====
-- Three notes for one model, of which one is a duplicate and one lacks a field.
use anki_mcp_server_addon.Prelude.{
  ℕ, ◌+◌, Bool, false, Option, none, some, List, [], ◌∷◌, codes, contains, ◌==◌,
}
use anki_mcp_server_addon.Notes.Add.{NoteEntry, Model, Request, Batch, assigns}

abbrev basic : Model
basic = record { sort_field = "Front"; other_fields = "Back" ∷ [] }

abbrev finds : Option (List ℕ) → Option Bool
finds none = none
finds (some value) = some (contains (codes "old") value)

abbrev plain : Request
plain = record {
  is_space = λ c. c == 32;
  finds = finds;
  tags = some ("new" ∷ []);
  allow_duplicate = false;
}

abbrev entries : List NoteEntry
entries =
    record { fields = ("Front", codes "q") ∷ ("Back", codes "a") ∷ []; tags = none }
    ∷ record { fields = ("Front", codes "old") ∷ ("Back", codes "a") ∷ []; tags = none }
    ∷ record { fields = ("Front", codes "r") ∷ []; tags = none }
    ∷ []

abbrev numbered : Batch
numbered = assigns (λ i. i + 100)
