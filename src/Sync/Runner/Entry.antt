-- ===== src/Sync/Runner/Entry.antt =====
-- `start_sync`, `status_snapshot`, `resolve_sync` and `_cancel_conflict` of
-- anki_mcp_server/primitives/essential/tools/_sync_runner.py.
use anki_mcp_server_addon.Prelude.{
  ℕ, String, str_eq, Bool, false, Option, none, some, [], ◌∷◌, ◌++◌, if◌then◌else◌,
}
use anki_mcp_server_addon.Sync.Job.{SyncJob, Status, Phase, is_conflict, to_dict}
use anki_mcp_server_addon.Sync.Classify.{is_legal_resolution}
use anki_mcp_server_addon.Sync.Registry
use anki_mcp_server_addon.Sync.Registry.{Registry}
use anki_mcp_server_addon.Sync.Runner.World.{
  normal_sync, full_transfer, World, no_main_window, sync_not_configured, job_id_required,
  already_in_progress, job_not_found, not_awaiting_resolution, invalid_direction, reraised, Reply,
  accepted, snapshot, fail,
}

-- What Anki answers during a call: is there a main window, is the profile logged in, does it sync
-- media, do the hooks return, and does the task manager take the task.
pub record Anki : Type 0 where
  pub main_window : Bool
  pub logged_in : Bool
  pub media_enabled : Bool
  pub hooks_return : Bool
  pub spawns : Bool

abbrev pub job_id_of : Option SyncJob → Option String
job_id_of none = none
job_id_of (some job) = some job.job_id

unfoldable pub start_begun : Anki → World → Registry → Option SyncJob → World × Reply
start_begun anki w r none =
    (record w { registry = r }, fail (already_in_progress (job_id_of (Registry.active_job r))))
start_begun anki w r (some job) =
    if anki.spawns
    then (
      record w { registry = r; tasks = w.tasks ++ normal_sync job.job_id anki.media_enabled ∷ [] },
      accepted job.job_id Status.running,
    )
    else (record w { registry = Registry.end_job (some job.job_id) r }, fail reraised)

-- `id` and `now` are the fresh identifier and the time that `try_begin` reads.
unfoldable pub start_sync : Anki → String → ℕ → World → World × Reply
unfolding start_begun Registry.active_job Registry.end_job
start_sync anki id now w =
    if anki.main_window
    then (if anki.logged_in
        then (let (r, begun) = Registry.try_begin id now w.registry in start_begun anki w r begun)
        else (w, fail sync_not_configured))
    else (w, fail no_main_window)

unfoldable pub status_snapshot : String → World → Reply
status_snapshot id w = elim (Registry.get id w.registry) [
  | none ↦ fail (job_not_found id)
  | some job ↦ snapshot (to_dict job)
]

abbrev pub cancelled_at : ℕ → SyncJob → SyncJob
cancelled_at now job = record job {
  status = Status.cancelled;
  phase = Phase.done;
  finished_at = some now;
}

unfoldable pub cancel_conflict : String → ℕ → World → World × Reply
unfolding Registry.end_job
cancel_conflict id now w = (
  record w {
    registry = Registry.end_job (some id) (Registry.update id (cancelled_at now) w.registry).0;
  },
  accepted id Status.cancelled,
)

abbrev pub transferring : SyncJob → SyncJob
transferring job = record job { status = Status.running; phase = Phase.full_transfer }

abbrev pub raised_and_running : String → Registry → Registry
raised_and_running id r = (Registry.update id transferring (Registry.raise_gate r)).0

-- From raising the gate on. The hook stands before the `try`, the spawn inside it.
unfoldable pub begin_transfer : Anki → String → Option ℕ → Bool → World → World × Reply
unfolding Registry.end_job
begin_transfer anki id usn upload w =
    let r = raised_and_running id w.registry in
    if anki.hooks_return
    then (if anki.spawns
        then (
          record w {
            registry = r;
            tasks = w.tasks ++ full_transfer id anki.media_enabled usn upload ∷ [];
          },
          accepted id Status.running,
        )
        else (record w { registry = Registry.end_job (some id) r }, fail reraised))
    else (record w { registry = r }, fail reraised)

abbrev pub is_upload : Option String → Bool
is_upload none = false
is_upload (some direction) = str_eq direction "upload"

abbrev pub is_cancel : Option String → Bool
is_cancel none = false
is_cancel (some direction) = str_eq direction "cancel"

unfoldable pub resolve_job : Anki → String → Option String → ℕ → World → SyncJob → World × Reply
unfolding begin_transfer cancel_conflict
resolve_job anki id resolve now w job =
    if is_conflict job.status
    then (if is_cancel resolve
        then cancel_conflict id now w
        else if is_legal_resolution job.legal_directions resolve
        then (if anki.logged_in
            then (let usn = if anki.media_enabled then job.server_media_usn else none in
                begin_transfer anki id usn (is_upload resolve) w)
            else (w, fail sync_not_configured))
        else (w, fail (invalid_direction job.legal_directions)))
    else (w, fail (not_awaiting_resolution job.status))

unfoldable pub resolve_stored :
    Anki → String → Option String → ℕ → World → Option SyncJob → World × Reply
unfolding resolve_job
resolve_stored anki id resolve now w none = (w, fail (job_not_found id))
resolve_stored anki id resolve now w (some job) = resolve_job anki id resolve now w job

unfoldable pub resolve_named : Anki → Option String → Option String → ℕ → World → World × Reply
unfolding resolve_stored
resolve_named anki none resolve now w = (w, fail job_id_required)
resolve_named anki (some id) resolve now w =
    if str_eq id ""
    then (w, fail job_id_required)
    else resolve_stored anki id resolve now w (Registry.get id w.registry)

unfoldable pub resolve_sync : Anki → Option String → Option String → ℕ → World → World × Reply
unfolding resolve_named
resolve_sync anki id resolve now w =
    if anki.main_window then resolve_named anki id resolve now w else (w, fail no_main_window)
