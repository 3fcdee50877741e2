-- ===== src/Sync/Registry.antt =====
-- `SyncJobRegistry` of anki_mcp_server/sync_state.py: jobs, the gate and the single-flight slot.
-- Every method runs under the registry's lock, so a method is one function on the state. The fresh
-- identifier (`uuid4().hex`) and the clock (`time.time()`) are arguments.
pub mod Evict
pub mod Bound
pub mod Examples
use anki_mcp_server_addon.Prelude.{
  ℕ, ◌-◌, ◌*◌, String, str_eq, Bool, true, false, not, ◌&&◌, Option, none, some, [], ◌∷◌, ltb, leb,
  length, take, filter, if◌then◌else◌,
}
use anki_mcp_server_addon.Prelude.Dict
use anki_mcp_server_addon.Prelude.Dict.{Dict}
use anki_mcp_server_addon.Sync.Job.{SyncJob, Status, Phase}

abbrev pub job_ttl : ℕ
job_ttl = 3600 * 1000000

abbrev pub max_finished_jobs : ℕ
max_finished_jobs = 50

pub record Registry : Type 0 where
  pub jobs : Dict SyncJob
  pub gate_active : Bool
  pub single_flight_id : Option String

abbrev pub init : Registry
init = record { jobs = []; gate_active = false; single_flight_id = none }

abbrev pub is_holder : Option String → String → Bool
is_holder none id = false
is_holder (some holder) id = str_eq holder id

abbrev pub is_finished : Option ℕ → Bool
is_finished none = false
is_finished (some t) = true

abbrev pub finished_time : Option ℕ → ℕ
finished_time none = 0
finished_time (some t) = t

abbrev pub is_finished_item : Option String → String × SyncJob → Bool
is_finished_item holder (id, job) = is_finished job.finished_at && not (is_holder holder id)

unfoldable pub finished_items : Option String → Dict SyncJob → Dict SyncJob
finished_items holder = filter (is_finished_item holder)

abbrev pub past_ttl : ℕ → SyncJob → Bool
past_ttl now job = elim job.finished_at [
  | none ↦ false
  | some finished ↦ ltb job_ttl (now - finished)
]

-- The first loop of `_evict_locked`, over the items that were listed before it.
unfoldable pub ttl_sweep : ℕ → Dict SyncJob → Dict SyncJob → Dict SyncJob
ttl_sweep now [] jobs = jobs
ttl_sweep now ((id, job) ∷ items) jobs =
    ttl_sweep now items (if past_ttl now job then Dict.remove id jobs else jobs)

unfoldable pub pop_all : Dict SyncJob → Dict SyncJob → Dict SyncJob
pop_all [] jobs = jobs
pop_all ((id, job) ∷ items) jobs = pop_all items (Dict.remove id jobs)

-- `finished.sort(key=…)`: stable, oldest first.
unfoldable pub insert_by_finish : String × SyncJob → Dict SyncJob → Dict SyncJob
insert_by_finish (id, job) [] = (id, job) ∷ []
insert_by_finish (id, job) ((k, other) ∷ items) =
    if leb (finished_time job.finished_at) (finished_time other.finished_at)
    then (id, job) ∷ (k, other) ∷ items
    else (k, other) ∷ insert_by_finish (id, job) items

unfoldable pub sort_by_finish : Dict SyncJob → Dict SyncJob
unfolding insert_by_finish
sort_by_finish [] = []
sort_by_finish (item ∷ items) = insert_by_finish item (sort_by_finish items)

unfoldable pub size_cap : Option String → Dict SyncJob → Dict SyncJob
unfolding sort_by_finish pop_all finished_items
size_cap holder jobs =
    let finished = finished_items holder jobs in
    if ltb max_finished_jobs (length finished)
    then pop_all (take (length finished - max_finished_jobs) (sort_by_finish finished)) jobs
    else jobs

unfoldable pub evict : ℕ → Registry → Registry
unfolding size_cap ttl_sweep finished_items
evict now r = record r {
  jobs =
      size_cap r.single_flight_id (ttl_sweep now (finished_items r.single_flight_id r.jobs) r.jobs);
}

abbrev pub fresh_job : String → ℕ → SyncJob
fresh_job id now = record {
  job_id = id;
  status = Status.running;
  phase = Phase.checking;
  legal_directions = [];
  required = none;
  server_media_usn = none;
  outcome = none;
  failure = none;
  started_at = now;
  finished_at = none;
}

unfoldable pub create : String → ℕ → Registry → Registry × SyncJob
unfolding evict
create id now r =
    let kept = evict now r in
    let job = fresh_job id now in (record kept { jobs = Dict.put id job kept.jobs }, job)

unfoldable pub try_begin : String → ℕ → Registry → Registry × Option SyncJob
unfolding create
try_begin id now r = elim r.single_flight_id [
  | some holder ↦ (r, none)
  | none ↦
      let (created, job) = create id now r in
      (record created { single_flight_id = some id; gate_active = true }, some job)
]

unfoldable pub get : String → Registry → Option SyncJob
get id r = Dict.get id r.jobs

unfoldable pub active_job : Registry → Option SyncJob
active_job r = elim r.single_flight_id [ none ↦ none | some id ↦ Dict.get id r.jobs ]

unfoldable pub is_sync_active : Registry → Bool
is_sync_active r = r.gate_active

-- `replace(job, **changes)`, with the changes as a function on the job.
unfoldable pub update : String → (SyncJob → SyncJob) → Registry → Registry × Option SyncJob
update id change r = elim (Dict.get id r.jobs) [
  | none ↦ (r, none)
  | some job ↦ (record r { jobs = Dict.put id (change job) r.jobs }, some (change job))
]

unfoldable pub raise_gate : Registry → Registry
raise_gate r = record r { gate_active = true }

unfoldable pub release_gate : Registry → Registry
release_gate r = record r { gate_active = false }

-- Both controls are cleared, whatever job is named.
unfoldable pub end_job : Option String → Registry → Registry
end_job id r = record r { gate_active = false; single_flight_id = none }

unfoldable pub reset : Registry → Registry
reset r = record { jobs = []; gate_active = false; single_flight_id = none }
