-- ===== src/Sync/Runner/Invariant.antt =====
-- One sync at a time, and the gate exactly while the collection is checked or transferred.
pub mod Finish
pub mod Sessions
pub mod Entries
use anki_mcp_server_addon.Prelude.{
  ℕ, String, str_eq, eq_iff, ◌≡◌, refl, Bool, true, false, Option, none, some, List, [], ◌∷◌, arith,
  ◌⊎◌, inl, inr, Bool-cases, Option-cases, if◌then◌else◌,
}
use anki_mcp_server_addon.Prelude.Dict
use anki_mcp_server_addon.Prelude.Dict.{get-put}
use anki_mcp_server_addon.Sync.Job.{SyncJob, Status, Extra, is_conflict}
use anki_mcp_server_addon.Sync.Registry
use anki_mcp_server_addon.Sync.Registry.{Registry, is_holder}
use anki_mcp_server_addon.Sync.Runner.World.{normal_sync, full_transfer, media_monitor, World}

-- The directions that the server's requirement allows, at least one.
pub record CanResolve (job : SyncJob) : Type 0 where
  pub is_awaiting : job.status ≡ Status.conflict
  pub first_direction : String
  pub other_directions : List String
  pub has_direction : job.legal_directions ≡ first_direction ∷ other_directions

pub data Mode (w : World) : Type 0 where
  idle : w.registry.single_flight_id ≡ none → w.registry.gate_active ≡ false → w.tasks ≡ [] → Mode w
  checks :
      (id : String) (media : Bool) (job : SyncJob)
      → w.registry.single_flight_id ≡ some id
      → w.registry.gate_active ≡ true
      → w.tasks ≡ normal_sync id media ∷ []
      → Dict.get id w.registry.jobs ≡ some job
      → job.status ≡ Status.running
      → Mode w
  waits :
      (id : String) (job : SyncJob)
      → w.registry.single_flight_id ≡ some id
      → w.registry.gate_active ≡ false
      → w.tasks ≡ []
      → Dict.get id w.registry.jobs ≡ some job
      → CanResolve job
      → Mode w
  transfers :
      (id : String) (media : Bool) (usn : Option ℕ) (upload : Bool) (job : SyncJob)
      → w.registry.single_flight_id ≡ some id
      → w.registry.gate_active ≡ true
      → w.tasks ≡ full_transfer id media usn upload ∷ []
      → Dict.get id w.registry.jobs ≡ some job
      → job.status ≡ Status.running
      → Mode w
  monitors :
      (id : String) (extra : Extra) (job : SyncJob)
      → w.registry.single_flight_id ≡ some id
      → w.registry.gate_active ≡ false
      → w.tasks ≡ media_monitor id extra ∷ []
      → Dict.get id w.registry.jobs ≡ some job
      → job.status ≡ Status.running
      → Mode w

-- Only the holder of the slot can be in conflict.
abbrev pub NoOtherConflict : Registry → Type 0
NoOtherConflict r =
    (k : String) (job : SyncJob)
    → is_holder r.single_flight_id k ≡ false
    → Dict.get k r.jobs ≡ some job
    → is_conflict job.status ≡ false

pub record Inv (w : World) : Type 0 where
  pub mode : Mode w
  pub others : NoOtherConflict w.registry

-- The three ways in which an operation leaves the registry.
module _ (r : Registry) (id : String) (job : SyncJob) (stored : Dict.get id r.jobs ≡ some job) where
  -- The job ends, and the slot and the gate are free.
  pub release-Inv :
      (w : World) (change : SyncJob → SyncJob)
      → r.single_flight_id ≡ some id
      → NoOtherConflict r
      → is_conflict (change job).status ≡ false
      → w.registry ≡ Registry.end_job (some id) (Registry.update id change r).0
      → w.tasks ≡ []
      → Inv w
  unfolding Registry.end_job Registry.update
  release-Inv w change slot others fine e none_left = record {
    mode = idle (ground arith) (ground arith) none_left;
    others = λ k other free found.
        ground (arith, stored, others k other, get-put id k (change job) r.jobs, eq_iff id k);
  }

  -- A change that is no conflict leaves every other job alone.
  pub update-NoOtherConflict :
      (change : SyncJob → SyncJob)
      → r.single_flight_id ≡ some id
      → NoOtherConflict r
      → NoOtherConflict (Registry.update id change r).0
  unfolding Registry.update
  update-NoOtherConflict change slot others k other free found =
      ground (arith, stored, others k other, get-put id k (change job) r.jobs, eq_iff id k)

  pub get-update :
      (change : SyncJob → SyncJob)
      → Dict.get id (Registry.update id change r).0.jobs ≡ some (change job)
  unfolding Registry.update
  get-update change = ground (arith, stored, get-put id id (change job) r.jobs, eq_iff id id)

  pub slot-update :
      (change : SyncJob → SyncJob)
      → (Registry.update id change r).0.single_flight_id ≡ r.single_flight_id
  unfolding Registry.update
  slot-update change = ground (arith, stored)

  pub gate-update :
      (change : SyncJob → SyncJob) → (Registry.update id change r).0.gate_active ≡ r.gate_active
  unfolding Registry.update
  gate-update change = ground (arith, stored)
