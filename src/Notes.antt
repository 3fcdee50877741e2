-- ===== src/Notes.antt =====
-- `update_notes` of anki_mcp_server/primitives/essential/tools/update_notes_tool.py, over a collection
-- that gives a note's fields by its id. The ids that are not positive
-- are all zero here: each is rejected, and its row's echo of the id is not told apart.
pub mod Add
mod Examples
pub mod Results
pub mod Rows
pub mod Twice
use anki_mcp_server_addon.Prelude.{
  ℕ, zero, suc, ◌+◌, String, str_eq, not, Bool, true, false, Option, none, some, List, [], ◌∷◌,
  ◌++◌, map, length, any, ltb, leb, ◌==◌, ◌⊎◌, inl, inr, if◌then◌else◌,
}
use anki_mcp_server_addon.Notes.Rows.{Row, judge_all, results}
use anki_mcp_server_addon.Prelude.Dict
use anki_mcp_server_addon.Prelude.Dict.{Dict}

-- What `get_note` does: it returns the note, does not find it, or raises something else.
pub data Lookup : Type 0 where
  found : Dict String → Lookup
  not_found : Lookup
  raises : Lookup

pub record NoteUpdate : Type 0 where
  pub id : ℕ
  pub fields : Dict String

pub data Status : Type 0 where
  failed : Bool → Status
  updated : List String → Status
  would_update : List String → Status

pub record NoteResult : Type 0 where
  pub note_id : ℕ
  pub status : Status

abbrev pub keys : Dict String → List String
keys [] = []
keys ((k, v) ∷ d) = k ∷ keys d

abbrev pub is_field : String → Dict String → Bool
is_field name d = any (str_eq name) (keys d)

abbrev pub assign_all : Dict String → Dict String → Dict String
assign_all [] note = note
assign_all ((k, v) ∷ fields) note = assign_all fields (Dict.put k v note)

-- An entry is rejected, and may be retried or not, or the note object has its new fields.
pub data Checked : Type 0 where
  rejected : Bool → Checked
  accepted : Dict String → Checked

abbrev pub check_fields : Dict String → Lookup → Checked
check_fields fields not_found = rejected false
check_fields fields raises = rejected true
check_fields fields (found note) =
    if any (λ name. not (is_field name note)) (keys fields)
    then rejected true
    else accepted (assign_all fields note)

abbrev pub check_given : Dict String → Lookup → Checked
check_given [] lookup = rejected false
check_given (field ∷ fields) lookup = check_fields (field ∷ fields) lookup

unfoldable pub check : NoteUpdate → Lookup → Checked
check entry lookup = if entry.id == 0 then rejected false else check_given entry.fields lookup

-- A note that is ready to be written.
pub record Valid : Type 0 where
  pub entry : NoteUpdate
  pub note : Dict String

abbrev pub judged : NoteUpdate → Checked → NoteResult ⊎ Valid
judged entry (rejected retryable) = inl (record { note_id = entry.id; status = failed retryable })
judged entry (accepted note) = inr (record { entry = entry; note = note })

-- The body of the loop over the entries; nothing is written in it.
unfoldable pub judge : (ℕ → Lookup) → NoteUpdate → NoteResult ⊎ Valid
unfolding check
judge col entry = judged entry (check entry (col entry.id))

-- What becomes of the valid notes: a dry run, a batch that was written, or one that raised.
pub data Outcome : Type 0 where
  dry_run written batch_fails : Outcome

abbrev pub status_of : Outcome → List String → Status
status_of dry_run names = would_update names
status_of written names = updated names
status_of batch_fails names = failed true

abbrev pub finish : Outcome → ℕ → Valid → NoteResult
finish outcome i v = record {
  note_id = v.entry.id;
  status = status_of outcome (keys v.entry.fields);
}

abbrev pub is_failed : Status → Bool
is_failed (failed retryable) = true
is_failed _ = false

abbrev pub is_retryable : Status → Bool
is_retryable (failed retryable) = retryable
is_retryable _ = false

abbrev pub is_updated : Status → Bool
is_updated (updated names) = true
is_updated _ = false

abbrev pub is_would_update : Status → Bool
is_would_update (would_update names) = true
is_would_update _ = false

abbrev pub counted : (Status → Bool) → List (Row NoteResult) → ℕ
counted p [] = 0
counted p (r ∷ rows) = if p r.result.status then suc (counted p rows) else counted p rows

-- A dry run counts the status would_update, and else the status updated is counted.
abbrev pub count_done : Outcome → List (Row NoteResult) → ℕ
count_done dry_run = counted is_would_update
count_done written = counted is_updated
count_done batch_fails = counted is_updated

-- A dry run gives no count of the failures that may be retried.
abbrev pub count_retryable : Outcome → List (Row NoteResult) → Option ℕ
count_retryable dry_run rows = none
count_retryable written rows = some (counted is_retryable rows)
count_retryable batch_fails rows = some (counted is_retryable rows)

pub record Response : Type 0 where
  pub is_dry : Bool
  pub done : ℕ
  pub failures : ℕ
  pub retryable_failures : Option ℕ
  pub total_requested : ℕ
  pub results : List (Row NoteResult)

pub data Reply : Type 0 where
  validation_error : Reply
  limit_exceeded : Reply
  response : Response → Reply

abbrev pub is_dry_run : Outcome → Bool
is_dry_run dry_run = true
is_dry_run written = false
is_dry_run batch_fails = false

abbrev pub respond : Outcome → ℕ → List (Row NoteResult) → Response
respond outcome total rows = record {
  is_dry = is_dry_run outcome;
  done = count_done outcome rows;
  failures = counted is_failed rows;
  retryable_failures = count_retryable outcome rows;
  total_requested = total;
  results = rows;
}

-- `outcome` says whether it is a dry run, and else whether the batch is written.
unfoldable pub update_notes : ℕ → Outcome → (ℕ → Lookup) → List NoteUpdate → Reply
unfolding judge results
update_notes max_notes outcome col [] = validation_error
update_notes max_notes outcome col (entry ∷ entries) =
    if ltb max_notes (length (entry ∷ entries))
    then limit_exceeded
    else response (
        respond outcome (length (entry ∷ entries))
          (results (judge col) (finish outcome) (entry ∷ entries)))

-- The notes that are given to `col.update_notes`.
abbrev pub notes_of : List (ℕ × Valid) → List (ℕ × Dict String)
notes_of [] = []
notes_of ((i, v) ∷ valid) = (v.entry.id, v.note) ∷ notes_of valid

-- The collection after a batch that `write` writes.
unfoldable pub collection_after :
    (List (ℕ × Dict String) → (ℕ → Lookup) → ℕ → Lookup)
    → (ℕ → Lookup)
    → List NoteUpdate
    → ℕ
    → Lookup
unfolding judge judge_all
collection_after write col entries =
    write (notes_of (judge_all (judge col) (finish written) 0 entries).1) col
