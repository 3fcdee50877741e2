-- ===== src/Search.antt =====
-- `find_notes` of anki_mcp_server/primitives/essential/tools/find_notes_tool.py. The ids that a query
-- matches, or that the search raises, are an argument; a limit or an offset may be negative.
mod Examples
pub mod Pages
use anki_mcp_server_addon.Prelude.{
  ℕ, zero, suc, ◌+◌, Bool, true, false, Option, none, some, List, [], ◌∷◌, ◌++◌, length, take, drop,
  ltb, if◌then◌else◌,
}

-- An argument: a number, or one below zero.
pub data Argument : Type 0 where
  nonneg : ℕ → Argument
  negative : Argument

pub record Page : Type 0 where
  pub note_ids : List ℕ
  pub count : ℕ
  pub total : ℕ
  pub has_more : Bool

pub data Reply : Type 0 where
  validation_error limit_exceeded search_failed : Reply
  page : Page → Reply

abbrev pub max_limit : ℕ
max_limit = 500

abbrev pub page_of : ℕ → ℕ → List ℕ → Page
page_of limit offset [] = record { note_ids = []; count = 0; total = 0; has_more = false }
page_of limit offset (id ∷ ids) =
    let all = id ∷ ids in
    let note_ids = take limit (drop offset all) in
    record {
      note_ids = note_ids;
      count = length note_ids;
      total = length all;
      has_more = ltb (offset + limit) (length all);
    }

abbrev pub search : ℕ → ℕ → Option (List ℕ) → Reply
search limit offset none = search_failed
search limit offset (some ids) = page (page_of limit offset ids)

abbrev pub with_offset : ℕ → Argument → Option (List ℕ) → Reply
with_offset limit negative matches = validation_error
with_offset limit (nonneg offset) matches = search limit offset matches

unfoldable pub find_notes : Argument → Argument → Option (List ℕ) → Reply
find_notes negative offset matches = validation_error
find_notes (nonneg zero) offset matches = validation_error
find_notes (nonneg (suc n)) offset matches =
    if ltb max_limit (suc n) then limit_exceeded else with_offset (suc n) offset matches
