-- ===== src/Sync/Runner/Callbacks.antt =====
-- The `on_done` callbacks of anki_mcp_server/primitives/essential/tools/_sync_runner.py and the
-- finalisation that they share.
use anki_mcp_server_addon.Prelude.{
  ℕ, String, Bool, ◌⊎◌, inl, inr, Option, none, some, List, [], ◌∷◌, ◌++◌, ◌||◌, codes,
  if◌then◌else◌,
}
use anki_mcp_server_addon.Sync.Job.{
  SyncJob, Status, Phase, ErrorPayload, Extra, required_was, resolved,
}
use anki_mcp_server_addon.Sync.Classify.{legal_directions_for}
use anki_mcp_server_addon.Sync.Registry
use anki_mcp_server_addon.Sync.Registry.{Registry}
use anki_mcp_server_addon.Sync.Runner.Tasks.{
  Exc, WorkerResult, unknown_required, in_sync, conflicting, error_payload, classify_exception,
}
use anki_mcp_server_addon.Sync.Runner.World.{media_monitor, World}

abbrev pub set_registry : (Registry → Registry) → World → World
set_registry f w = record w { registry = f w.registry }

abbrev pub succeeded_at : ℕ → Option ErrorPayload → Option Extra → SyncJob → SyncJob
succeeded_at now media_error extra job = record job {
  status = Status.success;
  phase = Phase.done;
  outcome = some (record { media_error = media_error; extra = extra });
  finished_at = some now;
}

unfoldable pub finalize_success : String → ℕ → Option ErrorPayload → Option Extra → World → World
unfolding Registry.end_job
finalize_success id now media_error extra w =
    set_registry
      (λ r.
        Registry.end_job (some id) (Registry.update id (succeeded_at now media_error extra) r).0)
      w

abbrev pub failed_at : ℕ → ErrorPayload → SyncJob → SyncJob
failed_at now error job = record job {
  status = Status.error;
  phase = Phase.done;
  failure = some error;
  finished_at = some now;
}

unfoldable pub store_error : String → ℕ → String → String → List ℕ → World → World
store_error id now code category message w =
    set_registry
      (λ r. (Registry.update id (failed_at now (error_payload code category message)) r).0) w

abbrev pub in_phase : Phase → SyncJob → SyncJob
in_phase phase job = record job { phase = phase }

-- `str(exc)` of a spawn that failed, after the fixed text.
unfoldable pub spawn_media_monitor : Bool → List ℕ → String → ℕ → Extra → World → World
unfolding finalize_success
spawn_media_monitor spawns reason id now extra w =
    let updated = set_registry (λ r. (Registry.update id (in_phase Phase.media) r).0) w in
    if spawns
    then record updated { tasks = updated.tasks ++ media_monitor id extra ∷ [] }
    else finalize_success id now
        (some
          (error_payload "unknown" "unknown" (codes "media monitor failed to start: " ++ reason)))
        (some extra) updated

-- A job's fate when its collection part succeeded: media is monitored, or the job ends.
unfoldable pub after_collection : Bool → Bool → List ℕ → String → ℕ → Extra → World → World
unfolding spawn_media_monitor finalize_success
after_collection media_enabled spawns reason id now extra w =
    if media_enabled
    then spawn_media_monitor spawns reason id now extra w
    else finalize_success id now none (some extra) w

abbrev pub awaiting : String → ℕ → SyncJob → SyncJob
awaiting required usn job = record job {
  status = Status.conflict;
  required = some required;
  legal_directions = legal_directions_for required;
  server_media_usn = some usn;
}

module _ (lower : List ℕ → List ℕ) where
  unfoldable pub record_error : String → ℕ → Exc → World → World
  unfolding store_error
  record_error id now exc w =
      let (code, category, message) = classify_exception lower exc in
      store_error id now code category message w

  -- An error is terminal: it is stored, and the job gives up the gate and the slot.
  unfoldable pub end_with_error : String → ℕ → Exc → World → World
  unfolding record_error Registry.end_job
  end_with_error id now exc w =
      set_registry (Registry.end_job (some id)) (record_error id now exc w)

  -- `unknown_text` renders the required value that is not in the table.
  unfoldable pub on_normal_done :
      (ℕ → List ℕ) → Exc ⊎ WorkerResult → String → Bool → Bool → List ℕ → ℕ → World → World
  unfolding end_with_error store_error after_collection Registry.end_job Registry.release_gate
  on_normal_done unknown_text (inl exc) id media_enabled spawns reason now w =
      end_with_error id now exc w
  on_normal_done unknown_text (inr (unknown_required n)) id media_enabled spawns reason now w =
      set_registry (Registry.end_job (some id))
        (store_error id now "unknown" "unknown" (unknown_text n) w)
  on_normal_done unknown_text (inr (conflicting required usn)) id media_enabled spawns reason now
        w =
      set_registry (λ r. Registry.release_gate (Registry.update id (awaiting required usn) r).0) w
  on_normal_done unknown_text (inr (in_sync required)) id media_enabled spawns reason now w =
      after_collection media_enabled spawns reason id now (required_was (some required))
        (set_registry Registry.release_gate w)

  -- `reopens` says whether `mw.reopen` and `mw.reset` return.
  unfoldable pub on_resolve_done :
      Option Exc → Bool → String → Bool → Bool → List ℕ → ℕ → World → World
  unfolding end_with_error after_collection Registry.release_gate
  on_resolve_done fut reopens id media_enabled spawns reason now w =
      let reopened =
        set_registry Registry.release_gate (record w { db_open = reopens || w.db_open }) in
      elim fut [
        | some exc ↦ end_with_error id now exc reopened
        | none ↦ after_collection media_enabled spawns reason id now resolved reopened
      ]

-- A crash of the monitor is a media error like one that it reports.
unfoldable pub on_media_done : Exc ⊎ Option ErrorPayload → String → ℕ → Extra → World → World
unfolding finalize_success
on_media_done (inl exc) id now extra w =
    finalize_success id now (some (error_payload "unknown" "unknown" exc.message)) (some extra) w
on_media_done (inr media_error) id now extra w = finalize_success id now media_error (some extra) w
