-- ===== src/Sync/Runner/Wedge.antt =====
-- Where a session is stuck, after a hook that raised; and a task that outlives its profile.
use anki_mcp_server_addon.Prelude.{
  ℕ, String, str_eq, eq_iff, ◌≡◌, ◌≢◌, refl, ◌∙◌, subst, sym, Bool, true, false, Option, none, some,
  List, [], ◌∷◌, arith, if◌then◌else◌,
}
use anki_mcp_server_addon.Prelude.Dict
use anki_mcp_server_addon.Prelude.Dict.{get-put}
use anki_mcp_server_addon.Sync.Job.{SyncJob, is_conflict}
use anki_mcp_server_addon.Sync.Classify.{is_legal_resolution}
use anki_mcp_server_addon.Sync.Registry
use anki_mcp_server_addon.Sync.Registry.{Registry, is_holder}
use anki_mcp_server_addon.Sync.Runner.World.{normal_sync, World, start}
use anki_mcp_server_addon.Sync.Runner.Entry.{
  Anki, start_sync, start_begun, resolve_sync, resolve_named, resolve_stored, resolve_job,
  begin_transfer, transferring,
}
use anki_mcp_server_addon.Sync.Runner.Callbacks.{store_error, on_normal_done}
use anki_mcp_server_addon.Sync.Runner.Session.{
  Backend, Event, starts, resolves, closes, finishes, pick, close_by, finish_task, finish_by, step,
  run, teardown,
}
use anki_mcp_server_addon.Sync.Runner.Invariant.{
  Inv, update-NoOtherConflict, get-update, slot-update, gate-update,
}
use anki_mcp_server_addon.Sync.Runner.Invariant.Entries.{start_held, conflict-Waits}
use anki_mcp_server_addon.Sync.Runner.Invariant.Sessions.{AllHooksReturn, run-Inv}
use anki_mcp_server_addon.Sync.Runner.Safety.{start-Inv}

-- The gate up, the slot taken, no task to finish and no conflict to cancel.
pub record Wedged (w : World) : Type 0 where
  pub holder : String
  pub slot : w.registry.single_flight_id ≡ some holder
  pub gate : w.registry.gate_active ≡ true
  pub none_left : w.tasks ≡ []
  pub no_conflict :
      (k : String) (job : SyncJob)
      → Dict.get k w.registry.jobs ≡ some job
      → is_conflict job.status ≡ false

resolve-Wedged :
    (anki : Anki) (id resolve : Option String) (now : ℕ) (w : World)
    → Wedged w
    → (resolve_sync anki id resolve now w).0 ≡ w
unfolding resolve_sync resolve_named Registry.get
resolve-Wedged anki none resolve now w stuck = ground arith
resolve-Wedged anki (some id) resolve now w stuck =
    ground (arith, stored (Dict.get id w.registry.jobs) refl)
  where
    stored :
        (found : Option SyncJob)
        → Dict.get id w.registry.jobs ≡ found
        → (resolve_stored anki id resolve now w found).0 ≡ w
    stored none e = unfold resolve_stored in refl
    stored (some job) e = unfold resolve_stored resolve_job in rw (stuck.no_conflict id job e)

module _ (lower : List ℕ → List ℕ) (unknown_text : ℕ → List ℕ) where
  step-Wedged : (w : World) (event : Event) → Wedged w → step lower unknown_text w event ≡ w
  unfolding step
  step-Wedged w (starts anki id now) stuck = start_held anki id stuck.holder now {w = w} stuck.slot
  step-Wedged w (resolves anki id resolve now) stuck = resolve-Wedged anki id resolve now w stuck
  step-Wedged w (closes n) stuck =
      subst (λ t. close_by (pick n t) w ≡ w) (sym stuck.none_left) (unfold close_by pick in refl)
  step-Wedged w (finishes n b now) stuck =
      subst (λ t. finish_by lower unknown_text b now (pick n t) w ≡ w) (sym stuck.none_left)
        (unfold finish_by pick in refl)

  pub run-Wedged :
      (events : List Event) (w : World) → Wedged w → run lower unknown_text w events ≡ w
  unfolding run
  run-Wedged [] w stuck = refl
  run-Wedged (event ∷ events) w stuck = rw (step-Wedged w event stuck) (run-Wedged events w stuck)

-- The entry to `begin_transfer`, for a stored conflict and a direction that it allows.
module _ (anki : Anki) (id direction : String) (now : ℕ) (w : World) (job : SyncJob) where
  pub record Proceeds : Type 0 where
    pub window : anki.main_window ≡ true
    pub named : str_eq id "" ≡ false
    pub stored : Dict.get id w.registry.jobs ≡ some job
    pub conflicted : is_conflict job.status ≡ true
    pub is_direction : str_eq direction "cancel" ≡ false
    pub legal : is_legal_resolution job.legal_directions (some direction) ≡ true
    pub auth : anki.logged_in ≡ true

  pub usn_of : Option ℕ
  usn_of = if anki.media_enabled then job.server_media_usn else none

  pub resolve_proceeds :
      Proceeds
      → resolve_sync anki (some id) (some direction) now w
        ≡ begin_transfer anki id usn_of (str_eq direction "upload") w
  unfolding resolve_sync resolve_named Registry.get resolve_stored resolve_job usn_of
  resolve_proceeds p =
      ground (arith, p.window, p.named, p.stored, p.conflicted, p.is_direction, p.legal, p.auth)

  hook_wedges :
      Inv w
      → Proceeds
      → anki.hooks_return ≡ false
      → Wedged (resolve_sync anki (some id) (some direction) now w).0
  unfolding begin_transfer Registry.raise_gate
  hook_wedges h p raises =
      let r : Registry = record w.registry { gate_active = true } in
      let waiting = conflict-Waits id job h p.stored p.conflicted in
      let others = update-NoOtherConflict r id job p.stored transferring waiting.slot h.others in
      rw (resolve_proceeds p) (
        rw raises (record {
          holder = id;
          slot = slot-update r id job p.stored transferring ∙ waiting.slot;
          gate = gate-update r id job p.stored transferring;
          none_left = waiting.none_left;
          no_conflict = λ k other found. ground (
            arith,
            get-update r id job p.stored transferring,
            others k other,
            slot-update r id job p.stored transferring,
            waiting.slot,
            eq_iff id k,
          );
        }))

-- In every session whose hooks return, if the client then resolves a stored conflict in a direction
-- that it allows and the hook `collection_will_temporarily_close` raises, the gate stays raised and
-- the slot taken whatever events follow.
pub hook_failure_wedges :
    (lower : List ℕ → List ℕ) (unknown_text : ℕ → List ℕ) (before after : List Event) (anki : Anki)
    (id direction : String) (now : ℕ) (job : SyncJob)
    → AllHooksReturn before
    → Proceeds anki id direction now (run lower unknown_text start before) job
    → anki.hooks_return ≡ false
    → let w = run lower unknown_text start before in
      let r =
        (run lower unknown_text
          (resolve_sync anki (some id) (some direction) now w).0
          after).registry in
      (r.gate_active ≡ true) × (r.single_flight_id ≢ none)
hook_failure_wedges lower unknown_text before after anki id direction now job hooks p raises =
    let w = run lower unknown_text start before in
    let stuck =
      hook_wedges anki id direction now w job
        (run-Inv lower unknown_text before start hooks start-Inv) p raises in
    rw
      (run-Wedged lower unknown_text after (resolve_sync anki (some id) (some direction) now w).0
        stuck)
      (stuck.gate, λ e. cc (e, stuck.slot))

-- The state at the end of a profile whose sync of the collection is still pending.
abbrev pub closed_while_pending : String → Bool → World → World
closed_while_pending old media w = teardown (record w { tasks = normal_sync old media ∷ [] })

-- If the profile closes while a sync of the collection is pending, a new sync is then started, and the
-- old task then fails, the new job has lost the slot and the gate while its task is still pending.
pub stale_task_releases :
    (lower : List ℕ → List ℕ) (unknown_text : ℕ → List ℕ) (anki : Anki) (old new : String)
    (media : Bool) (now later : ℕ) (b : Backend) (w : World)
    → anki.main_window ≡ true
    → anki.logged_in ≡ true
    → anki.spawns ≡ true
    → b.fails ≡ true
    → let begun = (start_sync anki new now (closed_while_pending old media w)).0 in
      let w' = step lower unknown_text begun (finishes 0 b later) in
      (begun.registry.single_flight_id ≡ some new)
      × (w'.tasks ≡ normal_sync new anki.media_enabled ∷ [])
      × (w'.registry.single_flight_id ≡ none)
      × (w'.registry.gate_active ≡ false)
unfolding teardown start_sync start_begun Registry.try_begin Registry.reset step pick finish_by
    finish_task on_normal_done store_error Registry.update Registry.end_job
stale_task_releases lower unknown_text anki old new media now later b w window auth spawns fails =
    rw (window, auth, spawns, fails) (refl, ground arith, ground arith, ground arith)
