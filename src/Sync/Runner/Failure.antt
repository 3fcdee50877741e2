-- ===== src/Sync/Runner/Failure.antt =====
-- What a poll shows after a failure.
use anki_mcp_server_addon.Prelude.{
  ℕ, String, eq_iff, ◌≡◌, refl, Bool, false, none, some, List, arith, inl, if◌then◌else◌,
}
use anki_mcp_server_addon.Prelude.Dict
use anki_mcp_server_addon.Prelude.Dict.{get-put}
use anki_mcp_server_addon.Sync.Job.{SyncJob, to_dict}
use anki_mcp_server_addon.Sync.Classify.{classify_sync_error}
use anki_mcp_server_addon.Sync.Registry
use anki_mcp_server_addon.Sync.Runner.Tasks.{Exc, error_payload, classify_exception}
use anki_mcp_server_addon.Sync.Runner.World.{World, snapshot}
use anki_mcp_server_addon.Sync.Runner.Entry.{status_snapshot}
use anki_mcp_server_addon.Sync.Runner.Callbacks.{store_error, on_normal_done, failed_at}

-- When a normal sync fails, a poll shows the job's error: the code auth_failed exactly for an
-- authentication error, and else the category of its text; and the slot and the gate are free.
failure_polled :
    (lower : List ℕ → List ℕ) (unknown_text : ℕ → List ℕ) (exc : Exc) (id : String)
    (media spawns : Bool) (reason : List ℕ) (now : ℕ) (w : World) (job : SyncJob)
    → Dict.get id w.registry.jobs ≡ some job
    → let w' = on_normal_done lower unknown_text (inl exc) id media spawns reason now w in
      let code = if exc.is_auth then "auth_failed" else classify_sync_error lower exc.message in
      (status_snapshot id w'
        ≡ snapshot (to_dict (failed_at now (error_payload code code exc.message) job)))
      × (w'.registry.single_flight_id ≡ none)
      × (w'.registry.gate_active ≡ false)
unfolding status_snapshot on_normal_done store_error classify_exception Registry.get Registry.update
    Registry.end_job
failure_polled lower unknown_text exc id media spawns reason now w job stored = (
  ground (
    arith,
    stored,
    eq_iff id id,
    get-put id id (failed_at now (error_payload "auth_failed" "auth_failed" exc.message) job)
        w.registry.jobs,
    get-put id id
        (failed_at now
          (error_payload (classify_sync_error lower exc.message)
            (classify_sync_error lower exc.message) exc.message)
          job)
        w.registry.jobs,
  ),
  refl,
  refl,
)
