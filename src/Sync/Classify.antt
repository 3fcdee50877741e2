-- ===== src/Sync/Classify.antt =====
-- The pure helpers of anki_mcp_server/sync_state.py: the directions that a conflict allows, and the
-- category of a backend's error text. Texts that are searched are lists of code points.
pub mod Table
mod Examples
use anki_mcp_server_addon.Prelude.{
  ℕ, String, str_eq, Bool, false, Option, none, some, List, [], ◌∷◌, any, codes, contains,
  if◌then◌else◌,
}

unfoldable pub legal_directions_for : String → List String
legal_directions_for name =
    if str_eq name "FULL_SYNC"
    then "upload" ∷ "download" ∷ []
    else if str_eq name "FULL_UPLOAD"
    then "upload" ∷ []
    else if str_eq name "FULL_DOWNLOAD"
    then "download" ∷ []
    else []

unfoldable pub is_legal_resolution : List String → Option String → Bool
is_legal_resolution legal none = false
is_legal_resolution legal (some resolve) = any (str_eq resolve) legal

-- A category, and the phrases that show it; the first row that fits wins.
pub record Row : Type 0 where
  pub category : String
  pub needles : List (List ℕ)

abbrev pub error_rows : List Row
error_rows =
    record {
      category = "another_sync_running";
      needles = codes "only one copy" ∷ codes "one copy of anki" ∷ [];
    }
    ∷ record {
      category = "sanity_check_failed";
      needles = codes "check database" ∷ codes "sanity check" ∷ codes "sanity" ∷ [];
    }
    ∷ record {
      category = "clock_incorrect";
      needles = codes "clock" ∷ codes "not set to the correct time" ∷ [];
    }
    ∷ record { category = "upload_too_large"; needles = codes "too large" ∷ [] }
    ∷ record {
      category = "client_too_old";
      needles =
          codes "out of date" ∷ codes "too old" ∷ codes "please upgrade" ∷ codes "update anki" ∷ [];
    }
    ∷ record {
      category = "auth_failed";
      needles = codes "authentication" ∷ codes "invalid credentials" ∷ codes "please log in" ∷ [];
    }
    ∷ record {
      category = "server_error";
      needles =
          codes "server error"
          ∷ codes "server encountered"
          ∷ codes "internal server"
          ∷ codes "the server "
          ∷ [];
    }
    ∷ record { category = "resync_required"; needles = codes "resync" ∷ codes "sync again" ∷ [] }
    ∷ []

pub shows : List ℕ → Row → Bool
shows text row = any (λ needle. contains needle text) row.needles

pub first_category : List Row → List ℕ → String
unfolding shows
first_category [] text = "unknown"
first_category (row ∷ rows) text = if shows text row then row.category else first_category rows text

-- `lower` is Python's `str.lower`.
unfoldable pub classify_sync_error : (List ℕ → List ℕ) → List ℕ → String
unfolding first_category
classify_sync_error lower [] = "unknown"
classify_sync_error lower (c ∷ message) = first_category error_rows (lower (c ∷ message))
