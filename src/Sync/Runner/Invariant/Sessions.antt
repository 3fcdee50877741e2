-- ===== src/Sync/Runner/Invariant/Sessions.antt =====
-- The invariant along a session, and what it gives: exclusive use of the collection, and progress.
use anki_mcp_server_addon.Prelude.{
  ℕ, zero, suc, String, ◌≡◌, refl, ap, ◌∙◌, subst, sym, Bool, true, false, ◌&&◌, not, Option, none,
  some, List, [], ◌∷◌, ◌⊎◌, inl, inr, any, Bool-cases, if◌then◌else◌,
}
use anki_mcp_server_addon.Prelude.Dict
use anki_mcp_server_addon.Sync.Job.{SyncJob, Status, Extra, ErrorPayload}
use anki_mcp_server_addon.Sync.Runner.Tasks.{full_transfer_worker, monitor_media_worker}
use anki_mcp_server_addon.Sync.Runner.World.{Task, normal_sync, full_transfer, media_monitor, World}
use anki_mcp_server_addon.Sync.Runner.Session.{
  Backend, Event, starts, resolves, closes, finishes, pick, is_close, close_by, media_finished,
  finish_task, finish_by, step, run,
}
use anki_mcp_server_addon.Sync.Runner.Invariant.{
  Mode, idle, checks, waits, transfers, monitors, Inv,
}
use anki_mcp_server_addon.Sync.Runner.Invariant.Entries.{start_sync-Inv, resolve_sync-Inv}
use anki_mcp_server_addon.Sync.Runner.Invariant.Finish.{
  Runs, on_normal_done-Inv, on_resolve_done-Inv, on_media_done-Inv,
}

-- The hooks that an event runs return.
abbrev pub HooksReturn : Event → Type 0
HooksReturn (resolves anki id resolve now) = anki.hooks_return ≡ true
HooksReturn _ = Unit

abbrev pub AllHooksReturn : List Event → Type 0
AllHooksReturn [] = Unit
AllHooksReturn (event ∷ events) = HooksReturn event × AllHooksReturn events

pick_only :
    (n : ℕ) (task : Task) → (pick n (task ∷ []) ≡ none) ⊎ (pick n (task ∷ []) ≡ some (task, []))
unfolding pick
pick_only zero task = inr refl
pick_only (suc n) task = inl refl

running-Runs :
    (id : String) (job : SyncJob) (w : World) (db_open : Bool)
    → Inv w
    → w.registry.single_flight_id ≡ some id
    → Dict.get id w.registry.jobs ≡ some job
    → job.status ≡ Status.running
    → Runs id job (record w { tasks = []; db_open = db_open })
running-Runs id job w db_open h slot found fine = record {
  slot = slot;
  none_left = refl;
  stored = found;
  is_running = fine;
  others = h.others;
}

Inv-db : (w : World) (db_open : Bool) → Inv w → Inv (record w { db_open = db_open })
Inv-db w db_open h = record { mode = by_mode h.mode; others = h.others }
  where
    by_mode : Mode w → Mode (record w { db_open = db_open })
    by_mode (idle a b c) = idle a b c
    by_mode (checks id media job a b c d e) = checks id media job a b c d e
    by_mode (waits id job a b c d e) = waits id job a b c d e
    by_mode (transfers id media usn upload job a b c d e) =
        transfers id media usn upload job a b c d e
    by_mode (monitors id extra job a b c d e) = monitors id extra job a b c d e

close_by-Inv : (found : Option (Task × List Task)) (w : World) → Inv w → Inv (close_by found w)
unfolding close_by
close_by-Inv none w h = h
close_by-Inv (some (normal_sync id media, rest)) w h = h
close_by-Inv (some (full_transfer id media usn upload, rest)) w h = Inv-db w false h
close_by-Inv (some (media_monitor id extra, rest)) w h = h

media-Inv :
    (result : Option (Option ErrorPayload)) (id : String) (extra : Extra) (now : ℕ) {job : SyncJob}
    (w : World)
    → Inv w
    → Runs id job (record w { tasks = [] })
    → Inv (media_finished result [] id extra now w)
unfolding media_finished
media-Inv none id extra now w h r = h
media-Inv (some media_error) id extra now w h r = on_media_done-Inv id now (inr media_error) extra r

module _ (lower : List ℕ → List ℕ) (unknown_text : ℕ → List ℕ) where
  by_monitor-Inv :
      (b : Backend) (id : String) (extra : Extra) (now : ℕ) {job : SyncJob} (w : World)
      → Inv w
      → Runs id job (record w { tasks = [] })
      → Inv (finish_task lower unknown_text b now (media_monitor id extra) [] w)
  unfolding finish_task
  by_monitor-Inv b id extra now w h r = elim (Bool-cases b.fails) [
    | inl e ↦ rw e (on_media_done-Inv id now (inl b.error) extra r)
    | inr e ↦ rw e (media-Inv (monitor_media_worker lower b.polls) id extra now w h r)
  ]

  finish_one-Inv :
      (b : Backend) (now n : ℕ) (task : Task) (w : World)
      → w.tasks ≡ task ∷ []
      → Inv w
      → Inv (finish_task lower unknown_text b now task [] w)
      → Inv (finish_by lower unknown_text b now (pick n w.tasks) w)
  unfolding finish_by
  finish_one-Inv b now n task w one h done = elim (pick_only n task) [
    | inl e ↦
        subst (λ t. Inv (finish_by lower unknown_text b now t w)) (sym (ap (pick n) one ∙ e)) h
    | inr e ↦
        subst (λ t. Inv (finish_by lower unknown_text b now t w)) (sym (ap (pick n) one ∙ e)) done
  ]

  finish-Inv :
      (b : Backend) (now n : ℕ) (w : World)
      → Inv w
      → Inv (finish_by lower unknown_text b now (pick n w.tasks) w)
  unfolding finish_task
  finish-Inv b now n w h = by_mode h.mode
    where
      by_mode : Mode w → Inv (finish_by lower unknown_text b now (pick n w.tasks) w)
      by_mode (idle free open_gate none_left) =
          subst (λ t. Inv (finish_by lower unknown_text b now t w)) (sym (ap (pick n) none_left))
            (unfold pick finish_by in h)
      by_mode (checks id media job slot gate one found fine) =
          finish_one-Inv b now n (normal_sync id media) w one h (
            on_normal_done-Inv lower unknown_text id now media b.spawns b.reason
              (running-Runs id job w w.db_open h slot found fine) b.fails b.error b.required_int
              b.server_media_usn)
      by_mode (waits id job slot gate none_left found legal) =
          subst (λ t. Inv (finish_by lower unknown_text b now t w)) (sym (ap (pick n) none_left))
            (unfold pick finish_by in h)
      by_mode (transfers id media usn upload job slot gate one found fine) =
          let (made, raised) = full_transfer_worker upload b.transfer_answers in
          finish_one-Inv b now n (full_transfer id media usn upload) w one h (
            on_resolve_done-Inv lower unknown_text id now media b.spawns b.reason
              (running-Runs id job w (w.db_open && not (any is_close made)) h slot found fine)
              (if raised then some b.error else none) b.reopens)
      by_mode (monitors id extra job slot gate one found fine) =
          finish_one-Inv b now n (media_monitor id extra) w one h
            (by_monitor-Inv b id extra now w h (running-Runs id job w w.db_open h slot found fine))

  step-Inv :
      (w : World) (event : Event)
      → HooksReturn event
      → Inv w
      → Inv (step lower unknown_text w event)
  unfolding step
  step-Inv w (starts anki id now) hooks h = start_sync-Inv anki id now h
  step-Inv w (resolves anki id resolve now) hooks h = resolve_sync-Inv anki id resolve now hooks h
  step-Inv w (closes n) hooks h = close_by-Inv (pick n w.tasks) w h
  step-Inv w (finishes n b now) hooks h = finish-Inv b now n w h

  pub run-Inv :
      (events : List Event) (w : World)
      → AllHooksReturn events
      → Inv w
      → Inv (run lower unknown_text w events)
  unfolding run
  run-Inv [] w hooks h = h
  run-Inv (event ∷ events) w hooks h =
      run-Inv events (step lower unknown_text w event) hooks.1 (step-Inv w event hooks.0 h)
