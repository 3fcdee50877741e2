-- ===== src/Sync/Runner/Safety.antt =====
-- What a session guarantees to the tools and to the next sync.
use anki_mcp_server_addon.Prelude.{
  ℕ, ◌≤◌, String, eq_iff, ◌≡◌, refl, Bool, true, false, none, some, List, [], ◌∷◌, arith, any, All,
  length,
}
use anki_mcp_server_addon.Prelude.Dict
use anki_mcp_server_addon.Sync.Registry
use anki_mcp_server_addon.Sync.Registry.{is_holder}
use anki_mcp_server_addon.Sync.Runner.World.{
  Task, normal_sync, full_transfer, media_monitor, World, start, check_col_available,
}
use anki_mcp_server_addon.Sync.Runner.Session.{Event, run}
use anki_mcp_server_addon.Sync.Runner.Invariant.{
  Mode, idle, checks, waits, transfers, monitors, Inv,
}
use anki_mcp_server_addon.Sync.Runner.Invariant.Sessions.{AllHooksReturn, run-Inv}

abbrev pub task_id : Task → String
task_id (normal_sync id media) = id
task_id (full_transfer id media usn upload) = id
task_id (media_monitor id extra) = id

-- Tasks that sync or replace the collection; the media monitor only polls.
abbrev pub uses_collection : Task → Bool
uses_collection (normal_sync id media) = true
uses_collection (full_transfer id media usn upload) = true
uses_collection (media_monitor id extra) = false

pub start-Inv : Inv start
start-Inv = record {
  mode = idle refl refl refl;
  others = λ k job free found. unfold Dict.get in cc;
}

pub record Exclusive (w : World) : Type 0 where
  pub gate_exact : w.registry.gate_active ≡ any uses_collection w.tasks
  pub at_most_one : length w.tasks ≤ 1
  pub of_holder : All (λ task. is_holder w.registry.single_flight_id (task_id task) ≡ true) w.tasks

one-Exclusive :
    (w : World) (id : String) (task : Task)
    → w.registry.single_flight_id ≡ some id
    → w.tasks ≡ task ∷ []
    → w.registry.gate_active ≡ uses_collection task
    → task_id task ≡ id
    → Exclusive w
one-Exclusive w id task slot one gate named = record {
  gate_exact = ground arith;
  at_most_one = ground arith;
  of_holder = rw one (rw slot (ground (arith, eq_iff id (task_id task))), tt);
}

Mode-Exclusive : (w : World) → Mode w → Exclusive w
Mode-Exclusive w (idle free open_gate none_left) = record {
  gate_exact = ground arith;
  at_most_one = ground arith;
  of_holder = rw none_left tt;
}
Mode-Exclusive w (checks id media job slot gate one found fine) =
    one-Exclusive w id (normal_sync id media) slot one gate refl
Mode-Exclusive w (waits id job slot gate none_left found legal) = record {
  gate_exact = ground arith;
  at_most_one = ground arith;
  of_holder = rw none_left tt;
}
Mode-Exclusive w (transfers id media usn upload job slot gate one found fine) =
    one-Exclusive w id (full_transfer id media usn upload) slot one gate refl
Mode-Exclusive w (monitors id extra job slot gate one found fine) =
    one-Exclusive w id (media_monitor id extra) slot one gate refl

module _ (lower : List ℕ → List ℕ) (unknown_text : ℕ → List ℕ) where
  -- In every session whose hooks return, at most one background task is pending, it belongs to the
  -- job that holds the single-flight slot, and the gate is raised exactly while a task is pending
  -- that syncs or replaces the collection.
  pub run-Exclusive :
      (events : List Event)
      → AllHooksReturn events
      → Exclusive (run lower unknown_text start events)
  run-Exclusive events hooks =
      Mode-Exclusive _ (run-Inv lower unknown_text events start hooks start-Inv).mode

  -- In every session whose hooks return, a tool that the collection gate admits finds the
  -- collection's database open, and no task pending that syncs or replaces the collection.
  pub tool_access :
      (loaded : Bool) (events : List Event)
      → AllHooksReturn events
      → check_col_available loaded (run lower unknown_text start events) ≡ none
      → ((run lower unknown_text start events).db_open ≡ true)
        × (any uses_collection (run lower unknown_text start events).tasks ≡ false)
  unfolding check_col_available Registry.is_sync_active
  tool_access loaded events hooks admitted =
      let exact = (run-Exclusive events hooks).gate_exact in (ground arith, ground arith)
