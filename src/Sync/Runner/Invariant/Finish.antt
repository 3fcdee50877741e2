-- ===== src/Sync/Runner/Invariant/Finish.antt =====
-- Every callback of a background task keeps the invariant.
use anki_mcp_server_addon.Prelude.{
  ℕ, String, ◌≡◌, refl, ◌∙◌, Bool, true, false, Option, none, some, List, [], ◌∷◌, arith, ◌⊎◌, ◌||◌,
  inl, inr, if◌then◌else◌,
}
use anki_mcp_server_addon.Prelude.Dict
use anki_mcp_server_addon.Prelude.Dict.{get-put}
use anki_mcp_server_addon.Sync.Job.{
  SyncJob, Status, Phase, Extra, ErrorPayload, required_was, resolved,
}
use anki_mcp_server_addon.Sync.Classify.{legal_directions_for}
use anki_mcp_server_addon.Sync.Registry
use anki_mcp_server_addon.Sync.Registry.{Registry, is_holder}
use anki_mcp_server_addon.Sync.Runner.Tasks.{
  Exc, WorkerResult, unknown_required, in_sync, conflicting, error_payload, classify_exception,
  normal_sync_worker,
}
use anki_mcp_server_addon.Sync.Runner.World.{World}
use anki_mcp_server_addon.Sync.Runner.Callbacks.{
  set_registry, succeeded_at, finalize_success, failed_at, store_error, in_phase,
  spawn_media_monitor, after_collection, awaiting, record_error, end_with_error, on_normal_done,
  on_resolve_done, on_media_done,
}
use anki_mcp_server_addon.Sync.Runner.Invariant.{
  CanResolve, waits, monitors, NoOtherConflict, Inv, release-Inv, update-NoOtherConflict,
  get-update, slot-update, gate-update,
}

-- A job that runs and holds the slot, with no task left.
pub record Runs (id : String) (job : SyncJob) (w : World) : Type 0 where
  pub slot : w.registry.single_flight_id ≡ some id
  pub none_left : w.tasks ≡ []
  pub stored : Dict.get id w.registry.jobs ≡ some job
  pub is_running : job.status ≡ Status.running
  pub others : NoOtherConflict w.registry

module _ (id : String) (now : ℕ) where
  pub finalize_success-Inv :
      (media_error : Option ErrorPayload) (extra : Option Extra) {job : SyncJob} {w : World}
      → Runs id job w
      → Inv (finalize_success id now media_error extra w)
  unfolding finalize_success
  finalize_success-Inv media_error extra {job} {w} h =
      release-Inv w.registry id job h.stored _ (succeeded_at now media_error extra) h.slot h.others
        refl refl h.none_left

  pub store_error-Inv :
      (code category : String) (message : List ℕ) {job : SyncJob} {w : World}
      → Runs id job w
      → Inv (set_registry (Registry.end_job (some id)) (store_error id now code category message w))
  unfolding store_error
  store_error-Inv code category message {job} {w} h =
      release-Inv w.registry id job h.stored _ (failed_at now (error_payload code category message))
        h.slot h.others refl refl h.none_left

  pub on_media_done-Inv :
      (fut : Exc ⊎ Option ErrorPayload) (extra : Extra) {job : SyncJob} {w : World}
      → Runs id job w
      → Inv (on_media_done fut id now extra w)
  unfolding on_media_done
  on_media_done-Inv (inl exc) extra h = finalize_success-Inv _ (some extra) h
  on_media_done-Inv (inr media_error) extra h = finalize_success-Inv media_error (some extra) h

  in_media-Runs :
      {job : SyncJob} {w : World}
      → Runs id job w
      → Runs id
          (in_phase Phase.media job)
          (set_registry (λ r. (Registry.update id (in_phase Phase.media) r).0) w)
  in_media-Runs {job} {w} h = record {
    slot = slot-update w.registry id job h.stored (in_phase Phase.media) ∙ h.slot;
    none_left = h.none_left;
    stored = get-update w.registry id job h.stored (in_phase Phase.media);
    is_running = h.is_running;
    others =
        update-NoOtherConflict w.registry id job h.stored (in_phase Phase.media) h.slot h.others;
  }

  pub spawn_media_monitor-Inv :
      (spawns : Bool) (reason : List ℕ) (extra : Extra) {job : SyncJob} {w : World}
      → Runs id job w
      → w.registry.gate_active ≡ false
      → Inv (spawn_media_monitor spawns reason id now extra w)
  unfolding spawn_media_monitor
  spawn_media_monitor-Inv false reason extra h open_gate =
      finalize_success-Inv _ (some extra) (in_media-Runs h)
  spawn_media_monitor-Inv true reason extra {job} {w} h open_gate =
      let m = in_media-Runs h in
      record {
        mode =
            monitors id extra (in_phase Phase.media job) m.slot
              (gate-update w.registry id job h.stored (in_phase Phase.media) ∙ open_gate)
              (rw h.none_left) m.stored m.is_running;
        others = m.others;
      }

  pub after_collection-Inv :
      (media_enabled spawns : Bool) (reason : List ℕ) (extra : Extra) {job : SyncJob} {w : World}
      → Runs id job w
      → w.registry.gate_active ≡ false
      → Inv (after_collection media_enabled spawns reason id now extra w)
  unfolding after_collection
  after_collection-Inv true spawns reason extra h open_gate =
      spawn_media_monitor-Inv spawns reason extra h open_gate
  after_collection-Inv false spawns reason extra h open_gate =
      finalize_success-Inv none (some extra) h

released-Runs :
    {id : String} {job : SyncJob} {w : World}
    → Runs id job w
    → Runs id job (set_registry Registry.release_gate w)
unfolding Registry.release_gate
released-Runs h = record {
  slot = h.slot;
  none_left = h.none_left;
  stored = h.stored;
  is_running = h.is_running;
  others = h.others;
}

-- The worker reports a conflict only for the three full synchronisations.
pub conflicting_required :
    (n usn usn' : ℕ) (required : String)
    → normal_sync_worker n usn ≡ conflicting required usn'
    → (required ≡ "FULL_SYNC") ⊎ (required ≡ "FULL_DOWNLOAD") ⊎ (required ≡ "FULL_UPLOAD")
unfolding normal_sync_worker
conflicting_required n usn usn' required h = ground arith

-- A conflict that the worker reports allows a direction.
pub conflicting-CanResolve :
    (n usn usn' : ℕ) (required : String) (job : SyncJob)
    → normal_sync_worker n usn ≡ conflicting required usn'
    → CanResolve (awaiting required usn' job)
unfolding legal_directions_for
conflicting-CanResolve n usn usn' required job h =
    elim (conflicting_required n usn usn' required h) [
      | inl e ↦ rw e (directed refl)
      | inr (inl e) ↦ rw e (directed refl)
      | inr (inr e) ↦ rw e (directed refl)
    ]
  where
    directed :
        {name first : String} {others : List String}
        → legal_directions_for name ≡ first ∷ others
        → CanResolve (awaiting name usn' job)
    directed {first} {others} e = record {
      is_awaiting = refl;
      first_direction = first;
      other_directions = others;
      has_direction = e;
    }

module _ (lower : List ℕ → List ℕ) (unknown_text : ℕ → List ℕ) (id : String) (now : ℕ) where
  end_with_error-Inv :
      (exc : Exc) {job : SyncJob} {w : World}
      → Runs id job w
      → Inv (end_with_error lower id now exc w)
  unfolding end_with_error record_error
  end_with_error-Inv exc h =
      let (code, category, message) = classify_exception lower exc in
      store_error-Inv id now code category message h

  module _ (media spawns : Bool) (reason : List ℕ) {job : SyncJob} {w : World}
      (h : Runs id job w) where
    result-Inv :
        (n usn : ℕ) (result : WorkerResult)
        → normal_sync_worker n usn ≡ result
        → Inv (on_normal_done lower unknown_text (inr result) id media spawns reason now w)
    unfolding on_normal_done
    result-Inv n usn (unknown_required m) e =
        store_error-Inv id now "unknown" "unknown" (unknown_text m) h
    result-Inv n usn (in_sync required) e =
        after_collection-Inv id now media spawns reason (required_was (some required))
          (released-Runs h) (unfold Registry.release_gate in refl)
    result-Inv n usn (conflicting required usn') e =
        let change = awaiting required usn' in
        let r = w.registry in
        record {
          mode =
              waits id (change job)
                (unfold Registry.release_gate in slot-update r id job h.stored change ∙ h.slot)
                (unfold Registry.release_gate in refl) h.none_left
                (unfold Registry.release_gate in get-update r id job h.stored change)
                (conflicting-CanResolve n usn usn' required job e);
          others =
              unfold Registry.release_gate in
              update-NoOtherConflict r id job h.stored change h.slot h.others;
        }

    pub on_normal_done-Inv :
        (fails : Bool) (exc : Exc) (n usn : ℕ)
        → Inv (
            on_normal_done lower unknown_text
              (if fails then inl exc else inr (normal_sync_worker n usn))
              id
              media
              spawns
              reason
              now
              w)
    unfolding on_normal_done
    on_normal_done-Inv true exc n usn = end_with_error-Inv exc h
    on_normal_done-Inv false exc n usn = result-Inv n usn (normal_sync_worker n usn) refl

    reopened-Runs :
        (reopens : Bool)
        → Runs id job
            (set_registry Registry.release_gate (record w { db_open = reopens || w.db_open }))
    unfolding Registry.release_gate
    reopened-Runs reopens = record {
      slot = h.slot;
      none_left = h.none_left;
      stored = h.stored;
      is_running = h.is_running;
      others = h.others;
    }

    pub on_resolve_done-Inv :
        (fut : Option Exc) (reopens : Bool)
        → Inv (on_resolve_done lower fut reopens id media spawns reason now w)
    unfolding on_resolve_done
    on_resolve_done-Inv (some exc) reopens = end_with_error-Inv exc (reopened-Runs reopens)
    on_resolve_done-Inv none reopens =
        after_collection-Inv id now media spawns reason resolved (reopened-Runs reopens)
          (unfold Registry.release_gate in refl)
