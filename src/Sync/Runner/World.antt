-- ===== src/Sync/Runner/World.antt =====
-- The state of the sync: the registry, the collection's database, and the background tasks whose
-- `on_done` is still to come. Entry points return a reply or raise a `HandlerError`.
use anki_mcp_server_addon.Prelude.{
  ℕ, String, Bool, true, ◌&&◌, Option, none, some, List, [], if◌then◌else◌,
}
use anki_mcp_server_addon.Sync.Job.{Status, Extra, JobView}
use anki_mcp_server_addon.Sync.Registry
use anki_mcp_server_addon.Sync.Registry.{Registry}

-- A spawned worker with what its `on_done` closes over.
pub data Task : Type 0 where
  normal_sync : String → Bool → Task
  full_transfer : String → Bool → Option ℕ → Bool → Task
  media_monitor : String → Extra → Task

pub record World : Type 0 where
  pub registry : Registry
  pub db_open : Bool
  pub tasks : List Task

abbrev pub start : World
start = record { registry = Registry.init; db_open = true; tasks = [] }

-- The exceptions of the entry points; `reraised` is what a failed spawn or hook raised.
pub data Failure : Type 0 where
  no_main_window sync_not_configured job_id_required : Failure
  already_in_progress : Option String → Failure
  job_not_found : String → Failure
  not_awaiting_resolution : Status → Failure
  invalid_direction : List String → Failure
  sync_in_progress collection_not_available : Failure
  reraised : Failure

-- The `code` of each `HandlerError`; the check for the main window gives none.
unfoldable pub failure_code : Failure → Option String
failure_code no_main_window = none
failure_code sync_not_configured = some "not_found"
failure_code job_id_required = some "validation_error"
failure_code (already_in_progress holder) = some "conflict"
failure_code (job_not_found id) = some "not_found"
failure_code (not_awaiting_resolution status) = some "validation_error"
failure_code (invalid_direction legal) = some "validation_error"
failure_code sync_in_progress = some "collection_unavailable"
failure_code collection_not_available = some "collection_unavailable"
failure_code reraised = none

pub data Reply : Type 0 where
  accepted : String → Status → Reply
  snapshot : JobView → Reply
  fail : Failure → Reply

-- `_check_col_available`: `loaded` says that neither `mw` nor `mw.col` is None. A result of `none`
-- lets the tool go on.
unfoldable pub check_col_available : Bool → World → Option Failure
unfolding Registry.is_sync_active
check_col_available loaded w =
    if Registry.is_sync_active w.registry
    then some sync_in_progress
    else if loaded && w.db_open
    then none
    else some collection_not_available
