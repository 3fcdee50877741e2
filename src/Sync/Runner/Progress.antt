-- ===== src/Sync/Runner/Progress.antt =====
-- How a session goes on: some event always frees the slot.
use anki_mcp_server_addon.Prelude.{
  ℕ, String, str_eq, ◌≡◌, refl, subst, sym, true, false, none, some, List, [], ◌∷◌, arith,
}
use anki_mcp_server_addon.Prelude.Dict
use anki_mcp_server_addon.Prelude.Dict.{get-put}
use anki_mcp_server_addon.Sync.Job.{SyncJob, Status}
use anki_mcp_server_addon.Sync.Registry
use anki_mcp_server_addon.Sync.Registry.{Registry, is_holder}
use anki_mcp_server_addon.Sync.Runner.Tasks.{full_transfer_worker}
use anki_mcp_server_addon.Sync.Runner.World.{
  Task, normal_sync, full_transfer, media_monitor, World, start,
}
use anki_mcp_server_addon.Sync.Runner.Entry.{
  Anki, resolve_sync, resolve_named, resolve_stored, resolve_job, cancel_conflict,
}
use anki_mcp_server_addon.Sync.Runner.Callbacks.{on_normal_done, on_resolve_done, on_media_done}
use anki_mcp_server_addon.Sync.Runner.Session.{
  Backend, Event, resolves, closes, finishes, pick, close_by, finish_task, finish_by, step, run,
}
use anki_mcp_server_addon.Sync.Runner.Invariant.{Mode, idle, checks, waits, transfers, monitors}
use anki_mcp_server_addon.Sync.Runner.Invariant.Sessions.{HooksReturn, AllHooksReturn, run-Inv}
use anki_mcp_server_addon.Sync.Runner.Safety.{start-Inv}

abbrev pub IsFree : World → Type 0
IsFree w = (w.registry.single_flight_id ≡ none) × (w.registry.gate_active ≡ false)

abbrev pub failing : Backend
failing = record {
  fails = true;
  error = record { is_auth = false; message = [] };
  required_int = 0;
  server_media_usn = 0;
  transfer_answers = false ∷ [];
  polls = [];
  reopens = true;
  spawns = true;
  reason = [];
}

abbrev pub obliging : Anki
obliging = record {
  main_window = true;
  logged_in = true;
  media_enabled = true;
  hooks_return = true;
  spawns = true;
}

module _ (lower : List ℕ → List ℕ) (unknown_text : ℕ → List ℕ) where
  failing_frees :
      (task : Task) (w : World) → IsFree (finish_task lower unknown_text failing 0 task [] w)
  unfolding finish_task on_normal_done on_resolve_done on_media_done Registry.end_job
      full_transfer_worker
  failing_frees (normal_sync id media) w = (refl, refl)
  failing_frees (full_transfer id media usn true) w = (refl, refl)
  failing_frees (full_transfer id media usn false) w = (refl, refl)
  failing_frees (media_monitor id extra) w = (refl, refl)

  finish_first_frees :
      (task : Task) (w : World)
      → w.tasks ≡ task ∷ []
      → IsFree (step lower unknown_text w (finishes 0 failing 0))
  unfolding step pick finish_by
  finish_first_frees task w one =
      subst (λ t. IsFree (finish_by lower unknown_text failing 0 (pick 0 t) w)) (sym one)
        (failing_frees task w)

  cancel_frees :
      (id : String) (job : SyncJob) (w : World)
      → str_eq id "" ≡ false
      → Dict.get id w.registry.jobs ≡ some job
      → job.status ≡ Status.conflict
      → IsFree (step lower unknown_text w (resolves obliging (some id) (some "cancel") 0))
  unfolding step resolve_sync resolve_named Registry.get resolve_stored resolve_job cancel_conflict
      Registry.end_job
  cancel_frees id job w named found conflicted = (ground arith, ground arith)

  -- From every state of a session whose hooks return, where the slot's holder has a nonempty
  -- identifier, one more event whose hooks return frees the slot and lowers the gate.
  pub slot_can_be_freed :
      (events : List Event)
      → AllHooksReturn events
      → ((id : String)
          → (run lower unknown_text start events).registry.single_flight_id ≡ some id
          → str_eq id "" ≡ false)
      → (event : Event) × HooksReturn event
        × IsFree (step lower unknown_text (run lower unknown_text start events) event)
  slot_can_be_freed events hooks named =
      by_mode (run lower unknown_text start events) named
        (run-Inv lower unknown_text events start hooks start-Inv).mode
    where
      by_mode :
          (w : World)
          → ((id : String) → w.registry.single_flight_id ≡ some id → str_eq id "" ≡ false)
          → Mode w
          → (event : Event) × HooksReturn event × IsFree (step lower unknown_text w event)
      by_mode w named (idle free open_gate none_left) =
          (closes 0, tt, unfold step close_by pick in rw none_left (free, open_gate))
      by_mode w named (checks id media job slot gate one found fine) =
          (finishes 0 failing 0, tt, finish_first_frees (normal_sync id media) w one)
      by_mode w named (waits id job slot gate none_left found legal) = (
        resolves obliging (some id) (some "cancel") 0,
        refl,
        cancel_frees id job w (named id slot) found legal.is_awaiting,
      )
      by_mode w named (transfers id media usn upload job slot gate one found fine) =
          (finishes 0 failing 0, tt, finish_first_frees (full_transfer id media usn upload) w one)
      by_mode w named (monitors id extra job slot gate one found fine) =
          (finishes 0 failing 0, tt, finish_first_frees (media_monitor id extra) w one)
