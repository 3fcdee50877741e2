-- ===== src/Sync/Runner/Invariant/Entries.antt =====
-- The entry points keep the invariant, as long as the hooks that they run return.
use anki_mcp_server_addon.Prelude.{
  ℕ, String, str_eq, eq_iff, ◌≡◌, refl, ◌∙◌, subst, Bool, true, Option, none, some, [], arith, inl,
  inr, Bool-cases,
}
use anki_mcp_server_addon.Prelude.Dict
use anki_mcp_server_addon.Prelude.Dict.{get-put}
use anki_mcp_server_addon.Sync.Job.{SyncJob, Status, is_conflict}
use anki_mcp_server_addon.Sync.Classify.{is_legal_resolution}
use anki_mcp_server_addon.Sync.Registry
use anki_mcp_server_addon.Sync.Registry.{Registry, is_holder, evict, fresh_job}
use anki_mcp_server_addon.Sync.Registry.Evict.{Keeps-evict}
use anki_mcp_server_addon.Sync.Runner.World.{World}
use anki_mcp_server_addon.Sync.Runner.Entry.{
  Anki, start_sync, start_begun, cancel_conflict, cancelled_at, begin_transfer, transferring,
  resolve_job, resolve_stored, resolve_named, resolve_sync, is_cancel, is_upload,
}
use anki_mcp_server_addon.Sync.Runner.Invariant.{
  CanResolve, Mode, idle, checks, waits, transfers, monitors, NoOtherConflict, Inv, release-Inv,
  update-NoOtherConflict, get-update, slot-update, gate-update,
}

-- With the slot taken, `start_sync` changes nothing.
pub start_held :
    (anki : Anki) (id holder : String) (now : ℕ) {w : World}
    → w.registry.single_flight_id ≡ some holder
    → (start_sync anki id now w).0 ≡ w
unfolding start_sync Registry.try_begin
start_held anki id holder now h = ground arith

module _ (id : String) (now : ℕ) (r : Registry) (free : r.single_flight_id ≡ none) where
  begun : Registry
  begun = record {
    jobs = Dict.put id (fresh_job id now) (evict now r).jobs;
    gate_active = true;
    single_flight_id = some id;
  }

  begun_others : NoOtherConflict r → NoOtherConflict begun
  unfolding begun
  begun_others others k job other found =
      ground (
        arith,
        get-put id k (fresh_job id now) (evict now r).jobs,
        Keeps-evict k now r,
        others k job,
      )

  try_begin_free : Registry.try_begin id now r ≡ (begun, some (fresh_job id now))
  unfolding Registry.try_begin begun Registry.create
  try_begin_free = ground arith

start_free :
    (anki : Anki) (id : String) (now : ℕ) (w : World) (free : w.registry.single_flight_id ≡ none)
    → w.tasks ≡ []
    → NoOtherConflict w.registry
    → Inv (start_begun anki w (begun id now w.registry free) (some (fresh_job id now))).0
unfolding start_begun begun Registry.end_job
start_free anki id now w free none_left others = elim (Bool-cases anki.spawns) [
  | inl e ↦ rw e (record {
    mode =
        checks id anki.media_enabled (fresh_job id now) refl refl (rw none_left)
          (ground
            (arith, get-put id id (fresh_job id now) (evict now w.registry).jobs, eq_iff id id))
          refl;
    others = begun_others id now w.registry free others;
  })
  | inr e ↦ rw e (record {
    mode = idle refl refl none_left;
    others = λ k other held found. ground (
      arith,
      get-put id k (fresh_job id now) (evict now w.registry).jobs,
      Keeps-evict k now w.registry,
      others k other,
    );
  })
]

start_ready :
    (anki : Anki) (id : String) (now : ℕ) {w : World}
    → w.registry.single_flight_id ≡ none
    → w.tasks ≡ []
    → Inv w
    → Inv (start_sync anki id now w).0
unfolding start_sync
start_ready anki id now {w} free none_left h = elim (Bool-cases anki.main_window) [
  | inl window ↦ elim (Bool-cases anki.logged_in) [
    | inl auth ↦
        rw (window, auth, try_begin_free id now w.registry free)
          (start_free anki id now w free none_left h.others)
    | inr guest ↦ rw (window, guest) h
  ]
  | inr hidden ↦ rw hidden h
]

pub start_sync-Inv :
    (anki : Anki) (id : String) (now : ℕ) {w : World} → Inv w → Inv (start_sync anki id now w).0
start_sync-Inv anki id now {w} h = by_mode h.mode
  where
    held :
        (holder : String)
        → w.registry.single_flight_id ≡ some holder
        → Inv (start_sync anki id now w).0
    held holder e = rw (start_held anki id holder now {w = w} e) h

    by_mode : Mode w → Inv (start_sync anki id now w).0
    by_mode (idle free open_gate none_left) = start_ready anki id now free none_left h
    by_mode (checks holder _ _ e _ _ _ _) = held holder e
    by_mode (waits holder _ e _ _ _ _) = held holder e
    by_mode (transfers holder _ _ _ _ e _ _ _ _) = held holder e
    by_mode (monitors holder _ _ e _ _ _ _) = held holder e

-- A conflicted job that is stored is the holder's, and no task is left.
pub record Waits (id : String) (job : SyncJob) (w : World) : Type 0 where
  pub slot : w.registry.single_flight_id ≡ some id
  pub none_left : w.tasks ≡ []
  pub legal : CanResolve job

pub conflict-Waits :
    (id : String) (job : SyncJob) {w : World}
    → Inv w
    → Dict.get id w.registry.jobs ≡ some job
    → is_conflict job.status ≡ true
    → Waits id job w
conflict-Waits id job {w} h stored conflicted = by_mode h.mode
  where
    running_apart :
        (holder : String) (other : SyncJob)
        → w.registry.single_flight_id ≡ some holder
        → Dict.get holder w.registry.jobs ≡ some other
        → other.status ≡ Status.running
        → Waits id job w
    running_apart holder other slot found fine =
        absurd (ground (arith, eq_iff holder id, h.others id job))

    by_mode : Mode w → Waits id job w
    by_mode (idle free open_gate none_left) = absurd (ground (arith, h.others id job))
    by_mode (checks holder media other slot gate one found fine) =
        running_apart holder other slot found fine
    by_mode (waits holder other slot gate none_left found legal) =
        elim (Bool-cases (str_eq holder id)) [
          | inl same ↦ record {
            slot = ground (arith, eq_iff holder id);
            none_left = none_left;
            legal = subst CanResolve (ground (arith, eq_iff holder id)) legal;
          }
          | inr apart ↦ absurd (ground (arith, h.others id job))
        ]
    by_mode (transfers holder media usn upload other slot gate one found fine) =
        running_apart holder other slot found fine
    by_mode (monitors holder extra other slot gate one found fine) =
        running_apart holder other slot found fine

module _ (anki : Anki) (id : String) (now : ℕ) {w : World} {job : SyncJob} where
  begin_transfer-Inv :
      (usn : Option ℕ) (upload : Bool)
      → anki.hooks_return ≡ true
      → Inv w
      → Dict.get id w.registry.jobs ≡ some job
      → Waits id job w
      → Inv (begin_transfer anki id usn upload w).0
  unfolding begin_transfer Registry.raise_gate Registry.end_job
  begin_transfer-Inv usn upload hooks h stored waiting =
      let r : Registry = record w.registry { gate_active = true } in
      let others = update-NoOtherConflict r id job stored transferring waiting.slot h.others in
      elim (Bool-cases anki.spawns) [
        | inl e ↦
            rw (hooks, e)
              (record {
                mode =
                    transfers id anki.media_enabled usn upload (transferring job)
                      (slot-update r id job stored transferring ∙ waiting.slot)
                      (gate-update r id job stored transferring) (rw waiting.none_left)
                      (get-update r id job stored transferring) refl;
                others = others;
              })
        | inr e ↦
            rw (hooks, e)
              (release-Inv r id job stored _ transferring waiting.slot h.others refl refl
                waiting.none_left)
      ]

  resolve_job-Inv :
      (resolve : Option String)
      → anki.hooks_return ≡ true
      → Inv w
      → Dict.get id w.registry.jobs ≡ some job
      → Inv (resolve_job anki id resolve now w job).0
  unfolding resolve_job cancel_conflict
  resolve_job-Inv resolve hooks h stored = elim (Bool-cases (is_conflict job.status)) [
    | inr fine ↦ rw fine h
    | inl conflicted ↦
        let waiting = conflict-Waits id job h stored conflicted in
        elim (Bool-cases (is_cancel resolve)) [
          | inl cancel ↦
              rw (conflicted, cancel)
                (release-Inv w.registry id job stored _ (cancelled_at now) waiting.slot h.others
                  refl refl waiting.none_left)
          | inr direction ↦ elim (Bool-cases (is_legal_resolution job.legal_directions resolve)) [
            | inr illegal ↦ rw (conflicted, direction, illegal) h
            | inl legal ↦ elim (Bool-cases anki.logged_in) [
              | inr guest ↦ rw (conflicted, direction, legal, guest) h
              | inl auth ↦
                  rw (conflicted, direction, legal, auth)
                    (begin_transfer-Inv _ (is_upload resolve) hooks h stored waiting)
            ]
          ]
        ]
  ]

resolve_stored-Inv :
    (anki : Anki) (id : String) (resolve : Option String) (now : ℕ) (w : World)
    (found : Option SyncJob)
    → anki.hooks_return ≡ true
    → Inv w
    → Dict.get id w.registry.jobs ≡ found
    → Inv (resolve_stored anki id resolve now w found).0
unfolding resolve_stored
resolve_stored-Inv anki id resolve now w none hooks h e = h
resolve_stored-Inv anki id resolve now w (some job) hooks h e =
    resolve_job-Inv anki id now resolve hooks h e

pub resolve_sync-Inv :
    (anki : Anki) (id resolve : Option String) (now : ℕ) {w : World}
    → anki.hooks_return ≡ true
    → Inv w
    → Inv (resolve_sync anki id resolve now w).0
unfolding resolve_sync resolve_named Registry.get
resolve_sync-Inv anki none resolve now hooks h = elim (Bool-cases anki.main_window) [
  | inl e ↦ rw e h
  | inr e ↦ rw e h
]
resolve_sync-Inv anki (some id) resolve now {w} hooks h = elim (Bool-cases anki.main_window) [
  | inl window ↦ elim (Bool-cases (str_eq id "")) [
    | inl e ↦ rw (window, e) h
    | inr e ↦
        rw (window, e)
          (resolve_stored-Inv anki id resolve now w (Dict.get id w.registry.jobs) hooks h refl)
  ]
  | inr e ↦ rw e h
]
