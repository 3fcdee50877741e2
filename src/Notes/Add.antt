-- ===== src/Notes/Add.antt =====
-- `add_notes` of anki_mcp_server/primitives/essential/tools/add_notes_tool.py. The deck and the model are
-- found or not; the search for duplicates and the batch of the collection are arguments.
mod Examples
pub mod Counts
use anki_mcp_server_addon.Prelude.{
  ℕ, zero, suc, String, str_eq, not, ◌⊎◌, inl, inr, Bool, true, false, ◌||◌, Option, none, some,
  List, [], ◌∷◌, ◌++◌, length, any, ltb, if◌then◌else◌,
}
use anki_mcp_server_addon.Prelude.Dict
use anki_mcp_server_addon.Prelude.Dict.{Dict}
use anki_mcp_server_addon.Text.{is_nil, strip}
use anki_mcp_server_addon.Notes.Rows.{Row, results}

pub record NoteEntry : Type 0 where
  pub fields : Dict (List ℕ)
  pub tags : Option (List String)

-- The fields of a model, the sort field first.
pub record Model : Type 0 where
  pub sort_field : String
  pub other_fields : List String

abbrev pub field_names : Model → List String
field_names model = model.sort_field ∷ model.other_fields

abbrev pub keys : Dict (List ℕ) → List String
keys [] = []
keys ((k, v) ∷ d) = k ∷ keys d

abbrev pub lacks : List String → String → Bool
lacks names name = not (any (str_eq name) names)

pub data FieldError : Type 0 where
  missing_fields unknown_fields empty_sort_field : FieldError

abbrev pub is_blank : (ℕ → Bool) → Option (List ℕ) → Bool
is_blank is_space none = true
is_blank is_space (some value) = is_nil value || is_nil (strip is_space value)

unfoldable pub validate_note_entry : (ℕ → Bool) → Model → NoteEntry → Option FieldError
validate_note_entry is_space model entry =
    if any (lacks (keys entry.fields)) (field_names model)
    then some missing_fields
    else if any (lacks (field_names model)) (keys entry.fields)
    then some unknown_fields
    else if is_blank is_space (Dict.get model.sort_field entry.fields)
    then some empty_sort_field
    else none

-- The result of one note; the batch may give it no id, or raise for all.
pub data AddResult : Type 0 where
  invalid : FieldError → AddResult
  skipped : AddResult
  created : ℕ → AddResult
  no_id : AddResult
  batch_failed : AddResult

-- `dict.fromkeys`: the first of equal tags stays.
abbrev pub distinct : List String → List String → List String
distinct seen [] = []
distinct seen (tag ∷ tags) =
    if any (str_eq tag) seen then distinct seen tags else tag ∷ distinct (tag ∷ seen) tags

abbrev pub or_none : Option (List String) → List String
or_none none = []
or_none (some tags) = tags

pub record Note : Type 0 where
  pub fields : Dict (List ℕ)
  pub tags : List String

abbrev pub build_note : Option (List String) → NoteEntry → Note
build_note tags entry = record {
  fields = entry.fields;
  tags = distinct [] (or_none tags ++ or_none entry.tags);
}

-- `finds` is whether the search for a value of the sort field finds notes; one that raises is ignored.
abbrev pub is_duplicate : (Option (List ℕ) → Option Bool) → Option (List ℕ) → Bool
is_duplicate finds value = elim (finds value) [ none ↦ false | some b ↦ b ]

pub record Request : Type 0 where
  pub is_space : ℕ → Bool
  pub finds : Option (List ℕ) → Option Bool
  pub tags : Option (List String)
  pub allow_duplicate : Bool

abbrev pub judge_valid : Request → Model → NoteEntry → Option FieldError → AddResult ⊎ Note
judge_valid r model entry (some error) = inl (invalid error)
judge_valid r model entry none =
    if r.allow_duplicate
    then inr (build_note r.tags entry)
    else if is_duplicate r.finds (Dict.get model.sort_field entry.fields)
    then inl skipped
    else inr (build_note r.tags entry)

-- The body of the loop over the entries.
unfoldable pub judge : Request → Model → NoteEntry → AddResult ⊎ Note
unfolding validate_note_entry
judge r model entry = judge_valid r model entry (validate_note_entry r.is_space model entry)

-- What `col.add_notes` does: it raises, or assigns an id to the note of each place, zero for none.
pub data Batch : Type 0 where
  raises : Batch
  assigns : (ℕ → ℕ) → Batch

abbrev pub created_with : ℕ → AddResult
created_with zero = no_id
created_with (suc id) = created (suc id)

abbrev pub finish : Batch → ℕ → Note → AddResult
finish raises i note = batch_failed
finish (assigns ids) i note = created_with (ids i)

abbrev pub counted : (AddResult → Bool) → List (Row AddResult) → ℕ
counted p [] = 0
counted p (r ∷ rows) = if p r.result then suc (counted p rows) else counted p rows

abbrev pub is_created : AddResult → Bool
is_created (created id) = true
is_created _ = false

abbrev pub is_skipped : AddResult → Bool
is_skipped skipped = true
is_skipped _ = false

abbrev pub is_failed : AddResult → Bool
is_failed (invalid error) = true
is_failed no_id = true
is_failed batch_failed = true
is_failed _ = false

pub record Response : Type 0 where
  pub added : ℕ
  pub skips : ℕ
  pub failures : ℕ
  pub total_requested : ℕ
  pub rows : List (Row AddResult)

pub data Reply : Type 0 where
  validation_error limit_exceeded deck_not_found model_not_found : Reply
  response : Response → Reply

abbrev pub respond : ℕ → List (Row AddResult) → Response
respond total rows = record {
  added = counted is_created rows;
  skips = counted is_skipped rows;
  failures = counted is_failed rows;
  total_requested = total;
  rows = rows;
}

abbrev pub add_with : Request → Batch → Option Model → List NoteEntry → Reply
add_with r batch none entries = model_not_found
add_with r batch (some model) entries =
    response (respond (length entries) (results (judge r model) (finish batch) entries))

unfoldable pub add_notes : ℕ → Request → Batch → Bool → Option Model → List NoteEntry → Reply
unfolding judge results
add_notes max_notes r batch has_deck model [] = validation_error
add_notes max_notes r batch has_deck model (entry ∷ entries) =
    if ltb max_notes (length (entry ∷ entries))
    then limit_exceeded
    else if has_deck
    then add_with r batch model (entry ∷ entries)
    else deck_not_found
