-- ===== src/Sync/Registry/Examples.antt =====
-- Test data for the registry, and the theorems about it at that data.
use anki_mcp_server_addon.Prelude.{inl, ℕ, ◌+◌, ◌≤◌, ◌≡◌, refl, true, none, some, [], ◌∷◌, length}
use anki_mcp_server_addon.Prelude.Dict
use anki_mcp_server_addon.Sync.Job.{SyncJob, Status, Phase}
use anki_mcp_server_addon.Sync.Registry.{
  Registry, job_ttl, max_finished_jobs, fresh_job, finished_items, evict,
}
use anki_mcp_server_addon.Sync.Registry.Evict.{evict_keeps}
use anki_mcp_server_addon.Sync.Registry.Bound.{evict_bounded}

abbrev old_job : SyncJob
old_job = record (fresh_job "old" 1) {
  status = Status.success;
  phase = Phase.done;
  finished_at = some 2;
}

abbrev two_jobs : Registry
two_jobs = record {
  jobs = ("old", old_job) ∷ ("new", fresh_job "new" 3) ∷ [];
  gate_active = true;
  single_flight_id = some "new";
}

abbrev much_later : ℕ
much_later = job_ttl + 4

-- An hour later the finished job is gone, and the one that runs is not.
old_job_leaves : Dict.get "old" (evict much_later two_jobs).jobs ≡ none
unfolding evict Dict.get Dict.remove
old_job_leaves = refl

evict_keeps_example : Dict.get "new" (evict much_later two_jobs).jobs ≡ some (fresh_job "new" 3)
unfolding Dict.get
evict_keeps_example =
    evict_keeps "new" much_later two_jobs (fresh_job "new" 3) (refl, (refl, tt)) refl (inl refl)

evict_bounded_example :
    length (finished_items (some "new") (evict much_later two_jobs).jobs) ≤ max_finished_jobs
evict_bounded_example = evict_bounded much_later two_jobs
