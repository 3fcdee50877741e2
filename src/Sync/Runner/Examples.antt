-- ===== src/Sync/Runner/Examples.antt =====
-- Test data for the sync's session, and the theorems about it at that data.
use anki_mcp_server_addon.Prelude.{
  ℕ, String, str_eq, subst, ◌≡◌, ◌≢◌, refl, true, false, ◌↔◌, inr, Option, none, some, List, [],
  ◌∷◌, any, codes,
}
use anki_mcp_server_addon.Prelude.Dict
use anki_mcp_server_addon.Sync.Job.{SyncJob, Status}
use anki_mcp_server_addon.Sync.Classify.{legal_directions_for, is_legal_resolution}
use anki_mcp_server_addon.Sync.Registry
use anki_mcp_server_addon.Sync.Registry.{Registry, fresh_job}
use anki_mcp_server_addon.Sync.Runner.Tasks.{normal_sync_worker}
use anki_mcp_server_addon.Sync.Runner.World.{
  normal_sync, World, start, accepted, check_col_available,
}
use anki_mcp_server_addon.Sync.Runner.Entry.{Anki, start_sync, resolve_sync}
use anki_mcp_server_addon.Sync.Runner.Callbacks.{on_normal_done}
use anki_mcp_server_addon.Sync.Runner.Session.{
  Backend, Event, starts, resolves, finishes, step, run,
}
use anki_mcp_server_addon.Sync.Runner.Invariant.Sessions.{HooksReturn}
use anki_mcp_server_addon.Sync.Runner.Safety.{
  Exclusive, uses_collection, run-Exclusive, tool_access,
}
use anki_mcp_server_addon.Sync.Runner.Progress.{IsFree, obliging, failing, slot_can_be_freed}
use anki_mcp_server_addon.Sync.Runner.Wedge.{
  Proceeds, hook_failure_wedges, closed_while_pending, stale_task_releases,
}
use anki_mcp_server_addon.Sync.Runner.Replies.{
  IsTurnedAway, second_start_refused, TransferStart, resolve_accepted,
}

abbrev same_text : List ℕ → List ℕ
same_text text = text

abbrev required_text : ℕ → List ℕ
required_text n = codes "required=?"

-- The server asks for a full sync, and media is not synced.
abbrev wants_full : Backend
wants_full = record failing {
  fails = false;
  required_int = 2;
  server_media_usn = 7;
  transfer_answers = [];
}

abbrev in_sync_backend : Backend
in_sync_backend = record wants_full { required_int = 0 }

abbrev without_media : Anki
without_media = record obliging { media_enabled = false }

abbrev broken_hooks : Anki
broken_hooks = record obliging { hooks_return = false }

-- Up to the conflict, and to the transfer that answers it.
abbrev to_conflict : List Event
to_conflict = starts obliging "a" 1 ∷ finishes 0 wants_full 2 ∷ []

abbrev to_transfer : List Event
to_transfer =
    starts obliging "a" 1
    ∷ finishes 0 wants_full 2
    ∷ resolves obliging (some "a") (some "download") 3
    ∷ []

abbrev to_end : List Event
to_end = starts without_media "a" 1 ∷ finishes 0 in_sync_backend 2 ∷ []

abbrev conflict_world : World
conflict_world = run same_text required_text start to_conflict

abbrev waiting_job : SyncJob
waiting_job = record (fresh_job "a" 1) {
  status = Status.conflict;
  required = some "FULL_SYNC";
  legal_directions = "upload" ∷ "download" ∷ [];
  server_media_usn = some 7;
}

conflict_stored : Dict.get "a" conflict_world.registry.jobs ≡ some waiting_job
unfolding run Dict.get start_sync Registry.try_begin on_normal_done normal_sync_worker
    Registry.update Dict.put legal_directions_for
conflict_stored = refl

run-Exclusive_example : Exclusive (run same_text required_text start to_transfer)
run-Exclusive_example = run-Exclusive same_text required_text to_transfer (tt, (tt, (refl, tt)))

tool_access_example :
    ((run same_text required_text start to_end).db_open ≡ true)
    × (any uses_collection (run same_text required_text start to_end).tasks ≡ false)
unfolding run check_col_available start_sync Registry.try_begin on_normal_done normal_sync_worker
    Registry.is_sync_active
tool_access_example = tool_access same_text required_text true to_end (tt, (tt, tt)) refl

abbrev IsNamed : Option String → Type 0
IsNamed none = Unit
IsNamed (some id) = str_eq id "" ≡ false

held_name :
    (id : String)
    → (run same_text required_text start to_transfer).registry.single_flight_id ≡ some id
    → str_eq id "" ≡ false
unfolding run Dict.get start_sync resolve_sync Registry.get Registry.try_begin on_normal_done
    normal_sync_worker Registry.update Dict.put legal_directions_for is_legal_resolution
    Registry.raise_gate
held_name id h = let same : some "a" ≡ some id = h in subst IsNamed same refl

slot_can_be_freed_example :
    (event : Event) × HooksReturn event
    × IsFree (step same_text required_text (run same_text required_text start to_transfer) event)
slot_can_be_freed_example =
    slot_can_be_freed same_text required_text to_transfer (tt, (tt, (refl, tt))) held_name

second_start_refused_example :
    IsTurnedAway obliging "b" 5 "a" (run same_text required_text start to_conflict)
second_start_refused_example =
    second_start_refused same_text required_text to_conflict obliging "b" "a" 5 (tt, (tt, tt)) refl
      refl (inr (waiting_job, conflict_stored, refl))

resolve_accepted_example :
    ((resolve_sync obliging (some "a") (some "download") 3 conflict_world).1
      ≡ accepted "a" Status.running)
    ↔ TransferStart obliging "a"
        (some "download")
        conflict_world
        (resolve_sync obliging (some "a") (some "download") 3 conflict_world).0
resolve_accepted_example = resolve_accepted obliging "a" (some "download") 3 conflict_world

-- The waiting job's download is accepted.
download_accepted :
    (resolve_sync obliging (some "a") (some "download") 3 conflict_world).1
    ≡ accepted "a" Status.running
unfolding run resolve_sync Registry.get Dict.get start_sync Registry.try_begin on_normal_done
    normal_sync_worker Registry.update Dict.put is_legal_resolution legal_directions_for
download_accepted = refl

proceeds : Proceeds broken_hooks "a" "upload" 3 conflict_world waiting_job
unfolding is_legal_resolution
proceeds = record {
  window = refl;
  named = refl;
  stored = conflict_stored;
  conflicted = refl;
  is_direction = refl;
  legal = refl;
  auth = refl;
}

hook_failure_wedges_example :
    ((run same_text required_text
        (resolve_sync broken_hooks (some "a") (some "upload") 3 conflict_world).0
        (finishes 0 failing 4 ∷ [])).registry.gate_active
      ≡ true)
    × ((run same_text required_text
          (resolve_sync broken_hooks (some "a") (some "upload") 3 conflict_world).0
          (finishes 0 failing 4 ∷ [])).registry.single_flight_id
        ≢ none)
hook_failure_wedges_example =
    hook_failure_wedges same_text required_text to_conflict (finishes 0 failing 4 ∷ []) broken_hooks
      "a" "upload" 3 waiting_job (tt, (tt, tt)) proceeds refl

-- The new job and its pending task, before and after the old task fails.
abbrev begun_anew : World
begun_anew = (start_sync obliging "b" 4 (closed_while_pending "a" true conflict_world)).0

stale_task_releases_example :
    (begun_anew.registry.single_flight_id ≡ some "b")
    × ((step same_text required_text begun_anew (finishes 0 failing 5)).tasks
        ≡ normal_sync "b" true ∷ [])
    × ((step same_text required_text begun_anew (finishes 0 failing 5)).registry.single_flight_id
        ≡ none)
    × ((step same_text required_text begun_anew (finishes 0 failing 5)).registry.gate_active
        ≡ false)
stale_task_releases_example =
    stale_task_releases same_text required_text obliging "a" "b" true 4 5 failing conflict_world
      refl refl refl refl
