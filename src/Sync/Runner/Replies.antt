-- ===== src/Sync/Runner/Replies.antt =====
-- What the entry points answer.
use anki_mcp_server_addon.Prelude.{
  ℕ, String, str_eq, eq_iff, ◌≡◌, ◌≢◌, refl, ap, ◌∙◌, sym, subst, Bool, true, false, Option, none,
  some, List, [], ◌∷◌, ◌++◌, arith, ◌⊎◌, ◌↔◌, inl, inr, any, All, Bool-cases, if◌then◌else◌,
}
use anki_mcp_server_addon.Prelude.Dict
use anki_mcp_server_addon.Prelude.Dict.{get-put}
use anki_mcp_server_addon.Sync.Job.{SyncJob, Status, is_conflict}
use anki_mcp_server_addon.Sync.Classify.{is_legal_resolution}
use anki_mcp_server_addon.Sync.Registry
use anki_mcp_server_addon.Sync.Runner.World.{
  Task, full_transfer, World, start, already_in_progress, Reply, accepted, fail,
}
use anki_mcp_server_addon.Sync.Runner.Entry.{
  Anki, start_sync, start_begun, resolve_sync, resolve_named, resolve_stored, resolve_job,
  begin_transfer, cancel_conflict, is_upload,
}
use anki_mcp_server_addon.Sync.Runner.Session.{Event, run}
use anki_mcp_server_addon.Sync.Runner.Safety.{task_id, start-Inv}
use anki_mcp_server_addon.Sync.Runner.Invariant.{
  Mode, idle, checks, waits, transfers, monitors, NoOtherConflict,
}
use anki_mcp_server_addon.Sync.Runner.Invariant.Sessions.{AllHooksReturn, run-Inv}

-- A start while the slot is held by a stored job.
start_held :
    (anki : Anki) (id held : String) (now : ℕ) (w : World) (job : SyncJob)
    → anki.main_window ≡ true
    → anki.logged_in ≡ true
    → w.registry.single_flight_id ≡ some held
    → Dict.get held w.registry.jobs ≡ some job
    → start_sync anki id now w ≡ (w, fail (already_in_progress (some job.job_id)))
unfolding start_sync start_begun Registry.try_begin Registry.active_job
start_held anki id held now w job window auth slot stored = ground arith

-- A job is engaged while a task of it is pending, or while it waits for a resolution.
abbrev pub IsEngaged : String → World → Type 0
IsEngaged id w =
    (any (λ (task : Task). str_eq (task_id task) id) w.tasks ≡ true)
    ⊎ ((job : SyncJob) × (Dict.get id w.registry.jobs ≡ some job) × (job.status ≡ Status.conflict))

-- The slot is free and nothing is pending, or it is held by a stored job, whose tasks are pending.
abbrev Held : World → Type 0
Held w =
    ((w.registry.single_flight_id ≡ none) × (w.tasks ≡ []))
    ⊎ ((id : String) × (job : SyncJob) × (w.registry.single_flight_id ≡ some id)
        × (Dict.get id w.registry.jobs ≡ some job)
        × All (λ (task : Task). task_id task ≡ id) w.tasks)

Mode-Held : (w : World) → Mode w → Held w
Mode-Held w (idle free gate none_left) = inl (free, none_left)
Mode-Held w (checks id media job slot gate one found fine) =
    inr (id, job, slot, found, rw one (refl, tt))
Mode-Held w (waits id job slot gate none_left found legal) =
    inr (id, job, slot, found, rw none_left tt)
Mode-Held w (transfers id media usn upload job slot gate one found fine) =
    inr (id, job, slot, found, rw one (refl, tt))
Mode-Held w (monitors id extra job slot gate one found fine) =
    inr (id, job, slot, found, rw one (refl, tt))

any-named :
    (id k : String) (tasks : List Task)
    → All (λ (task : Task). task_id task ≡ id) tasks
    → any (λ (task : Task). str_eq (task_id task) k) tasks ≡ true
    → id ≡ k
any-named id k [] named h = cc
any-named id k (task ∷ tasks) (same, named) h = elim (Bool-cases (str_eq (task_id task) k)) [
  | inl e ↦ sym same ∙ (eq_iff (task_id task) k).0 e
  | inr e ↦ any-named id k tasks named (ground arith)
]

-- What a refused start answers: the identifier of the job that is stored under the name.
abbrev pub IsTurnedAway : Anki → String → ℕ → String → World → Type 0
IsTurnedAway anki fresh now id w =
    (job : SyncJob) × (Dict.get id w.registry.jobs ≡ some job)
    × (start_sync anki fresh now w ≡ (w, fail (already_in_progress (some job.job_id))))

engaged_refused :
    (anki : Anki) (fresh id : String) (now : ℕ) (w : World)
    → anki.main_window ≡ true
    → anki.logged_in ≡ true
    → NoOtherConflict w.registry
    → Held w
    → IsEngaged id w
    → IsTurnedAway anki fresh now id w
engaged_refused anki fresh id now w window auth others (inl (free, none_left)) (inl pending) =
    absurd (ground (arith, none_left))
engaged_refused anki fresh id now w window auth others (inl (free, none_left))
      (inr (job, stored, waiting)) =
    absurd (ground (arith, others id job (rw free refl) stored))
engaged_refused anki fresh id now w window auth others (inr (held, job, slot, stored, named))
      engaged =
    subst (λ k. IsTurnedAway anki fresh now k w) (by_name engaged)
      (job, stored, start_held anki fresh held now w job window auth slot stored)
  where
    by_name : IsEngaged id w → held ≡ id
    by_name (inl pending) = any-named held id w.tasks named pending
    by_name (inr (other, found, waiting)) = elim (Bool-cases (str_eq held id)) [
      | inl e ↦ (eq_iff held id).0 e
      | inr e ↦ absurd (ground (arith, others id other (rw slot e) found))
    ]

module _ (lower : List ℕ → List ℕ) (unknown_text : ℕ → List ℕ) where
  -- In every session whose hooks return, a start with a main window and a login is refused, and
  -- changes nothing, as long as a task of any job is pending or any job waits for a resolution; the
  -- refusal has the identifier of that job.
  pub second_start_refused :
      (events : List Event) (anki : Anki) (fresh id : String) (now : ℕ)
      → AllHooksReturn events
      → anki.main_window ≡ true
      → anki.logged_in ≡ true
      → IsEngaged id (run lower unknown_text start events)
      → IsTurnedAway anki fresh now id (run lower unknown_text start events)
  second_start_refused events anki fresh id now hooks window auth engaged =
      let h = run-Inv lower unknown_text events start hooks start-Inv in
      engaged_refused anki fresh id now (run lower unknown_text start events) window auth h.others
        (Mode-Held (run lower unknown_text start events) h.mode) engaged

abbrev IsIn : String → List String → Type 0
IsIn name [] = ⊥
IsIn name (other ∷ names) = (name ≡ other) ⊎ IsIn name names

any-IsIn : (name : String) (names : List String) → any (str_eq name) names ≡ true → IsIn name names
any-IsIn name [] h = cc
any-IsIn name (other ∷ names) h = elim (Bool-cases (str_eq name other)) [
  | inl e ↦ inl ((eq_iff name other).0 e)
  | inr e ↦ inr (any-IsIn name names (ground arith))
]

IsIn-any : (name : String) (names : List String) → IsIn name names → any (str_eq name) names ≡ true
IsIn-any name [] h = absurd h
IsIn-any name (other ∷ names) (inl e) = ground (arith, eq_iff name other)
IsIn-any name (other ∷ names) (inr h) = ground (arith, IsIn-any name names h)

str_eq-ne : (a b : String) → a ≢ b → str_eq a b ≡ false
str_eq-ne a b ne = ground (arith, eq_iff a b)

ne-str_eq : (a b : String) → str_eq a b ≡ false → a ≢ b
ne-str_eq a b h same = ground (arith, eq_iff a b)

-- Why and how a resolution starts a transfer.
pub record TransferStart (anki : Anki) (id : String) (direction : Option String) (w w' : World)
    : Type 0 where
  pub window : anki.main_window ≡ true
  pub named : id ≢ ""
  pub job : SyncJob
  pub stored : Dict.get id w.registry.jobs ≡ some job
  pub conflicted : job.status ≡ Status.conflict
  pub chosen : String
  pub given : direction ≡ some chosen
  pub no_cancel : chosen ≢ "cancel"
  pub legal : IsIn chosen job.legal_directions
  pub logged_in : anki.logged_in ≡ true
  pub returns : anki.hooks_return ≡ true
  pub takes : anki.spawns ≡ true
  pub upload : Bool
  pub way : ((chosen ≡ "upload") × (upload ≡ true)) ⊎ ((chosen ≢ "upload") × (upload ≡ false))
  pub spawned :
      w'.tasks
      ≡ w.tasks
        ++ full_transfer id anki.media_enabled
            (if anki.media_enabled then job.server_media_usn else none)
            upload
          ∷ []
  pub gated : w'.registry.gate_active ≡ true

conflict_status : (status : Status) → is_conflict status ≡ true → status ≡ Status.conflict
conflict_status Status.running h = cc
conflict_status Status.conflict h = refl
conflict_status Status.success h = cc
conflict_status Status.error h = cc
conflict_status Status.cancelled h = cc

way_of :
    (chosen : String)
    → ((chosen ≡ "upload") × (is_upload (some chosen) ≡ true))
      ⊎ ((chosen ≢ "upload") × (is_upload (some chosen) ≡ false))
way_of chosen = elim (Bool-cases (str_eq chosen "upload")) [
  | inl e ↦ inl ((eq_iff chosen "upload").0 e, e)
  | inr e ↦ inr (ne-str_eq chosen "upload" e, e)
]

begin_stored :
    (anki : Anki) (id : String) (direction : Option String) (now : ℕ) (w : World)
    (found : Option SyncJob)
    → anki.main_window ≡ true
    → id ≢ ""
    → Dict.get id w.registry.jobs ≡ found
    → (resolve_stored anki id direction now w found).1 ≡ accepted id Status.running
    → TransferStart anki id direction w (resolve_stored anki id direction now w found).0
unfolding resolve_stored resolve_job begin_transfer cancel_conflict Registry.update
    Registry.raise_gate is_legal_resolution
begin_stored anki id direction now w none window named e ok = cc
begin_stored anki id none now w (some job) window named e ok = absurd (ground arith)
begin_stored anki id (some chosen) now w (some job) window named e ok = record {
  window = window;
  named = named;
  job = job;
  stored = e;
  conflicted = conflict_status job.status (ground arith);
  chosen = chosen;
  given = refl;
  no_cancel = ne-str_eq chosen "cancel" (ground arith);
  legal = any-IsIn chosen job.legal_directions (ground arith);
  logged_in = ground arith;
  returns = ground arith;
  takes = ground arith;
  upload = is_upload (some chosen);
  way = way_of chosen;
  spawned = ground arith;
  gated = ground arith;
}

resolve_reaches :
    (anki : Anki) (id : String) (direction : Option String) (now : ℕ) (w : World)
    → anki.main_window ≡ true
    → id ≢ ""
    → resolve_sync anki (some id) direction now w
      ≡ resolve_stored anki id direction now w (Dict.get id w.registry.jobs)
unfolding resolve_sync resolve_named Registry.get
resolve_reaches anki id direction now w window named = rw (window, str_eq-ne id "" named) refl

resolve_opened :
    (anki : Anki) (id : String) (direction : Option String) (now : ℕ) (w : World)
    → (resolve_sync anki (some id) direction now w).1 ≡ accepted id Status.running
    → (anki.main_window ≡ true) × (str_eq id "" ≡ false)
unfolding resolve_sync resolve_named
resolve_opened anki id direction now w ok = (ground arith, ground arith)

conditions_accepted :
    (anki : Anki) (id : String) (direction : Option String) (now : ℕ) (w w' : World)
    → TransferStart anki id direction w w'
    → (resolve_sync anki (some id) direction now w).1 ≡ accepted id Status.running
unfolding resolve_stored resolve_job begin_transfer is_legal_resolution
conditions_accepted anki id direction now w w' t =
    let legal = IsIn-any t.chosen t.job.legal_directions t.legal in
    let other = str_eq-ne t.chosen "cancel" t.no_cancel in
    rw (resolve_reaches anki id direction now w t.window t.named) (
      rw (t.stored, t.given)
        (rw (t.conflicted, other, legal, t.logged_in, t.returns, t.takes) refl))

-- A resolution is accepted as running exactly if there is a main window, a login, a name, a stored
-- job of that name in conflict, and a direction, not cancel, that the job allows, and the hooks
-- return and the task is taken; then the gate is up and one transfer is added to the tasks, an upload
-- exactly for the direction upload.
pub resolve_accepted :
    (anki : Anki) (id : String) (direction : Option String) (now : ℕ) (w : World)
    → ((resolve_sync anki (some id) direction now w).1 ≡ accepted id Status.running)
      ↔ TransferStart anki id direction w (resolve_sync anki (some id) direction now w).0
resolve_accepted anki id direction now w = (
  λ ok.
      let (window, plain) = resolve_opened anki id direction now w ok in
      let named = ne-str_eq id "" plain in
      let reaches = resolve_reaches anki id direction now w window named in
      rw reaches (
        begin_stored anki id direction now w (Dict.get id w.registry.jobs) window named refl
          (ap (λ (r : World × Reply). r.1) (sym reaches) ∙ ok)),
  conditions_accepted anki id direction now w (resolve_sync anki (some id) direction now w).0,
)
