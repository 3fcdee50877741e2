-- ===== src/Sync/Runner/Tasks.antt =====
-- The error payloads and the three background workers of
-- anki_mcp_server/primitives/essential/tools/_sync_runner.py.
use anki_mcp_server_addon.Prelude.{
  ℕ, String, str_eq, Bool, true, false, ◌||◌, Option, none, some, List, [], ◌∷◌, ◌==◌,
  if◌then◌else◌,
}
use anki_mcp_server_addon.Sync.Job.{ErrorPayload}
use anki_mcp_server_addon.Sync.Classify.{classify_sync_error}

-- An exception from the backend: its text, and whether it is a `SyncError` of kind AUTH.
pub record Exc : Type 0 where
  pub is_auth : Bool
  pub message : List ℕ

unfoldable pub error_hint : String → Option String
error_hint code =
    if str_eq code "auth_failed"
    then some
        "AnkiWeb authentication failed or expired -- re-authenticate (Tools > Preferences, or the Sync button), then start a new sync"
    else if str_eq code "another_sync_running"
    then some
        "Another client is already syncing to your AnkiWeb account; wait a minute, then start a new sync"
    else if str_eq code "clock_incorrect"
    then some "Fix your computer's clock, then start a new sync"
    else if str_eq code "client_too_old"
    then some "Update Anki to the latest version, then start a new sync"
    else if str_eq code "sanity_check_failed"
    then some "Run Tools > Check Database in Anki, then start a new sync"
    else if str_eq code "upload_too_large"
    then some "Your collection is too large to upload in one go; see AnkiWeb's size limits"
    else none

unfoldable pub error_payload : String → String → List ℕ → ErrorPayload
unfolding error_hint
error_payload code category message = record {
  code = code;
  message = message;
  category = category;
  hint = error_hint code;
}

-- The names of the `ChangesRequired` values; `none` is a value that is not in the table.
unfoldable pub required_name : ℕ → Option String
required_name n =
    if n == 0
    then some "NO_CHANGES"
    else if n == 1
    then some "NORMAL_SYNC"
    else if n == 2
    then some "FULL_SYNC"
    else if n == 3
    then some "FULL_DOWNLOAD"
    else if n == 4
    then some "FULL_UPLOAD"
    else none

abbrev pub is_in_sync : String → Bool
is_in_sync name = str_eq name "NO_CHANGES" || str_eq name "NORMAL_SYNC"

-- The payload that the normal worker returns, one constructor for each "outcome".
pub data WorkerResult : Type 0 where
  unknown_required : ℕ → WorkerResult
  in_sync : String → WorkerResult
  conflicting : String → ℕ → WorkerResult

-- `required_int` and `usn` are the fields of what `sync_collection` returned.
unfoldable pub normal_sync_worker : ℕ → ℕ → WorkerResult
unfolding required_name
normal_sync_worker required_int usn = elim (required_name required_int) [
  | none ↦ unknown_required required_int
  | some name ↦ if is_in_sync name then in_sync name else conflicting name usn
]

-- What a call of the full transfer's worker does to the collection, in order.
pub data Action : Type 0 where
  create_backup close_collection transfer_upload transfer_download : Action

-- Each call runs if all before it returned: `answers` says which return, and a list that is too
-- short means that the rest return. The result is the calls made, and whether the worker raised.
pub run_actions : List Action → List Bool → List Action × Bool
run_actions [] answers = ([], false)
run_actions (a ∷ actions) [] = let (made, raised) = run_actions actions [] in (a ∷ made, raised)
run_actions (a ∷ actions) (true ∷ answers) =
    let (made, raised) = run_actions actions answers in (a ∷ made, raised)
run_actions (a ∷ actions) (false ∷ answers) = (a ∷ [], true)

abbrev pub transfer_actions : Bool → List Action
transfer_actions true = close_collection ∷ transfer_upload ∷ []
transfer_actions false = create_backup ∷ close_collection ∷ transfer_download ∷ []

unfoldable pub full_transfer_worker : Bool → List Bool → List Action × Bool
unfolding run_actions
full_transfer_worker upload answers = run_actions (transfer_actions upload) answers

-- One answer of `media_sync_status()`.
pub data Poll : Type 0 where
  active : Poll
  inactive : Poll
  failed : Exc → Poll

module _ (lower : List ℕ → List ℕ) where
  -- `(code, category, message)`
  unfoldable pub classify_exception : Exc → String × String × List ℕ
  classify_exception exc =
      let category = classify_sync_error lower exc.message in
      if exc.is_auth
      then ("auth_failed", "auth_failed", exc.message)
      else (category, category, exc.message)

  -- The loop ends with the first answer that is not `active`; `none` means that it still polls.
  unfoldable pub monitor_media_worker : List Poll → Option (Option ErrorPayload)
  monitor_media_worker [] = none
  monitor_media_worker (active ∷ polls) = monitor_media_worker polls
  monitor_media_worker (inactive ∷ polls) = some none
  monitor_media_worker (failed exc ∷ polls) =
      let category = classify_sync_error lower exc.message in
      some (some (error_payload category category exc.message))
