-- ===== src/Sync/Registry/Evict.antt =====
-- What `_evict_locked` keeps: the slot's holder, unfinished jobs, and at most fifty finished ones.
use anki_mcp_server_addon.Prelude.{
  ℕ, ◌-◌, zero, suc, String, str_eq, eq_iff, ◌≡◌, refl, ◌∙◌, false, Option, none, some, [], ◌∷◌,
  arith, ◌⊎◌, inl, inr, Bool-cases, ltb, length, take,
}
use anki_mcp_server_addon.Prelude.Dict
use anki_mcp_server_addon.Prelude.Dict.{Dict, get-remove}
use anki_mcp_server_addon.Sync.Job.{SyncJob}
use anki_mcp_server_addon.Sync.Registry.{
  Registry, is_finished_item, finished_items, past_ttl, ttl_sweep, pop_all, insert_by_finish,
  sort_by_finish, size_cap, evict, max_finished_jobs,
}

-- A job that is looked up afterwards is the one from before.
abbrev pub Keeps : String → Dict SyncJob → Dict SyncJob → Type 0
Keeps k before after = (Dict.get k after ≡ none) ⊎ (Dict.get k after ≡ Dict.get k before)

Keeps-remove :
    (k id : String) (before after : Dict SyncJob)
    → Keeps k before after
    → Keeps k before (Dict.remove id after)
Keeps-remove k id before after h = ground (arith, get-remove id k after)

Keeps-ttl_sweep :
    (k : String) (now : ℕ) (items before after : Dict SyncJob)
    → Keeps k before after
    → Keeps k before (ttl_sweep now items after)
unfolding ttl_sweep
Keeps-ttl_sweep k now [] before after h = h
Keeps-ttl_sweep k now ((id, job) ∷ items) before after h = elim (Bool-cases (past_ttl now job)) [
  | inl e ↦
      rw e (
        Keeps-ttl_sweep k now items before (Dict.remove id after)
          (Keeps-remove k id before after h))
  | inr e ↦ rw e (Keeps-ttl_sweep k now items before after h)
]

Keeps-pop_all :
    (k : String) (items before after : Dict SyncJob)
    → Keeps k before after
    → Keeps k before (pop_all items after)
unfolding pop_all
Keeps-pop_all k [] before after h = h
Keeps-pop_all k ((id, job) ∷ items) before after h =
    Keeps-pop_all k items before (Dict.remove id after) (Keeps-remove k id before after h)

Keeps-size_cap :
    (k : String) (holder : Option String) (before after : Dict SyncJob)
    → Keeps k before after
    → Keeps k before (size_cap holder after)
unfolding size_cap
Keeps-size_cap k holder before after h =
    elim (Bool-cases (ltb max_finished_jobs (length (finished_items holder after)))) [
      | inl e ↦ rw e (
          Keeps-pop_all k
            (take (length (finished_items holder after) - max_finished_jobs)
              (sort_by_finish (finished_items holder after)))
            before after h)
      | inr e ↦ rw e h
    ]

pub Keeps-evict : (k : String) (now : ℕ) (r : Registry) → Keeps k r.jobs (evict now r).jobs
unfolding evict
Keeps-evict k now r =
    Keeps-size_cap k r.single_flight_id r.jobs _
      (Keeps-ttl_sweep k now (finished_items r.single_flight_id r.jobs) r.jobs r.jobs (inr refl))

pub ttl_sweep-IsDict :
    (now : ℕ) (items jobs : Dict SyncJob)
    → Dict.IsDict jobs
    → Dict.IsDict (ttl_sweep now items jobs)
unfolding ttl_sweep
ttl_sweep-IsDict now [] jobs d = d
ttl_sweep-IsDict now ((id, job) ∷ items) jobs d = elim (Bool-cases (past_ttl now job)) [
  | inl e ↦ rw e (ttl_sweep-IsDict now items (Dict.remove id jobs) (Dict.remove-IsDict id jobs d))
  | inr e ↦ rw e (ttl_sweep-IsDict now items jobs d)
]

pop_all-IsDict : (items jobs : Dict SyncJob) → Dict.IsDict jobs → Dict.IsDict (pop_all items jobs)
unfolding pop_all
pop_all-IsDict [] jobs d = d
pop_all-IsDict ((id, job) ∷ items) jobs d =
    pop_all-IsDict items (Dict.remove id jobs) (Dict.remove-IsDict id jobs d)

pub evict-IsDict : (now : ℕ) (r : Registry) → Dict.IsDict r.jobs → Dict.IsDict (evict now r).jobs
unfolding evict size_cap
evict-IsDict now r d =
    let swept = ttl_sweep now (finished_items r.single_flight_id r.jobs) r.jobs in
    let listed = finished_items r.single_flight_id swept in
    let dict = ttl_sweep-IsDict now (finished_items r.single_flight_id r.jobs) r.jobs d in
    elim (Bool-cases (ltb max_finished_jobs (length listed))) [
      | inl e ↦ rw e (
          pop_all-IsDict (take (length listed - max_finished_jobs) (sort_by_finish listed)) swept
            dict)
      | inr e ↦ rw e dict
    ]

-- Keys that no listed item has are left alone.
abbrev Absent : String → Dict SyncJob → Type 0
Absent k items = Dict.get k items ≡ none

get-pop_all :
    (k : String) (items jobs : Dict SyncJob)
    → Absent k items
    → Dict.get k (pop_all items jobs) ≡ Dict.get k jobs
unfolding pop_all Dict.get
get-pop_all k [] jobs h = refl
get-pop_all k ((id, job) ∷ items) jobs h =
    ground (arith, get-pop_all k items (Dict.remove id jobs), get-remove id k jobs)

get-ttl_sweep :
    (k : String) (now : ℕ) (items jobs : Dict SyncJob)
    → Absent k items
    → Dict.get k (ttl_sweep now items jobs) ≡ Dict.get k jobs
unfolding ttl_sweep Dict.get
get-ttl_sweep k now [] jobs h = refl
get-ttl_sweep k now ((id, job) ∷ items) jobs h = elim (Bool-cases (past_ttl now job)) [
  | inl e ↦ rw e (
      get-ttl_sweep k now items (Dict.remove id jobs) (ground arith)
      ∙ ground (arith, get-remove id k jobs))
  | inr e ↦ rw e (get-ttl_sweep k now items jobs (ground arith))
]

Absent-insert :
    (k id : String) (job : SyncJob) (items : Dict SyncJob)
    → str_eq id k ≡ false
    → Absent k items
    → Absent k (insert_by_finish (id, job) items)
unfolding insert_by_finish Dict.get
Absent-insert k id job [] ne h = ground arith
Absent-insert k id job ((j, other) ∷ items) ne h = ground (arith, Absent-insert k id job items)

Absent-sort : (k : String) (items : Dict SyncJob) → Absent k items → Absent k (sort_by_finish items)
unfolding sort_by_finish Dict.get
Absent-sort k [] h = refl
Absent-sort k ((id, job) ∷ items) h = elim (Bool-cases (str_eq id k)) [
  | inl e ↦ ground arith
  | inr e ↦ Absent-insert k id job (sort_by_finish items) e (Absent-sort k items (ground arith))
]

Absent-take : (k : String) (n : ℕ) (items : Dict SyncJob) → Absent k items → Absent k (take n items)
unfolding Dict.get
Absent-take k zero items h = refl
Absent-take k (suc n) [] h = refl
Absent-take k (suc n) ((id, job) ∷ items) h = ground (arith, Absent-take k n items)

-- A dict's job that is unfinished, or that holds the slot, is not on the list.
Absent-finished_items :
    (k : String) (holder : Option String) (jobs : Dict SyncJob) (job : SyncJob)
    → Dict.IsDict jobs
    → Dict.get k jobs ≡ some job
    → is_finished_item holder (k, job) ≡ false
    → Absent k (finished_items holder jobs)
unfolding finished_items Dict.get
Absent-finished_items k holder [] job d h f = refl
Absent-finished_items k holder ((id, other) ∷ jobs) job d h f = ground (
  arith,
  eq_iff id k,
  Absent-finished_items k holder jobs job d.1,
  Dict.get-filter-none (is_finished_item holder) k jobs,
)

abbrev swept : ℕ → Registry → Dict SyncJob
swept now r = ttl_sweep now (finished_items r.single_flight_id r.jobs) r.jobs

is_finished_item-kept :
    (k : String) (job : SyncJob) (r : Registry)
    → (r.single_flight_id ≡ some k) ⊎ (job.finished_at ≡ none)
    → is_finished_item r.single_flight_id (k, job) ≡ false
is_finished_item-kept k job r (inl holds) = ground (arith, holds, eq_iff k k)
is_finished_item-kept k job r (inr unfinished) = rw unfinished refl

-- The job that holds the slot, and every job that has not finished, is looked up after an eviction
-- as before it.
pub evict_keeps :
    (k : String) (now : ℕ) (r : Registry) (job : SyncJob)
    → Dict.IsDict r.jobs
    → Dict.get k r.jobs ≡ some job
    → (r.single_flight_id ≡ some k) ⊎ (job.finished_at ≡ none)
    → Dict.get k (evict now r).jobs ≡ some job
unfolding evict size_cap
evict_keeps k now r job d h kept_by =
    let f = is_finished_item-kept k job r kept_by in
    let holder = r.single_flight_id in
    let kept : Dict.get k (swept now r) ≡ some job =
      get-ttl_sweep k now (finished_items holder r.jobs) r.jobs
        (Absent-finished_items k holder r.jobs job d h f)
      ∙ h in
    let listed = finished_items holder (swept now r) in
    let dict : Dict.IsDict (swept now r) =
      ttl_sweep-IsDict now (finished_items holder r.jobs) r.jobs d in
    let absent : Absent k listed = Absent-finished_items k holder (swept now r) job dict kept f in
    elim (Bool-cases (ltb max_finished_jobs (length listed))) [
      | inl e ↦ rw e (
          get-pop_all k (take (length listed - max_finished_jobs) (sort_by_finish listed))
            (swept now r)
            (Absent-take k (length listed - max_finished_jobs) (sort_by_finish listed)
              (Absent-sort k listed absent))
          ∙ kept)
      | inr e ↦ rw e kept
    ]
