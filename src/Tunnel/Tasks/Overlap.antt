-- ===== src/Tunnel/Tasks/Overlap.antt =====
-- A stop that overlaps a start.
use anki_mcp_server_addon.Prelude.{
  String, str_eq, eq_iff, ◌≡◌, ◌≢◌, refl, ap, ◌∙◌, Bool, true, false, Option, none, some, List, [],
  ◌∷◌, arith,
}
use anki_mcp_server_addon.Tunnel.Tasks.{
  Tasks, starting, stopping, create, cleared, begin_start, begin_stop, finish, end_task, Event,
  begins_start, begins_stop, ends, resumes, step, run,
}

-- A tunnel that is up or connecting.
abbrev pub with_tunnel : Bool → Option String → String → Tasks
with_tunnel running manager task = record {
  tunnel_running = running;
  tunnel_manager = manager;
  tunnel_task = some task;
  alive = task ∷ [];
  waiting = [];
}

-- A start replaces the task, and a stop begins while it waits for the old task to end.
abbrev pub overlap : String → String → List Event
overlap old name = begins_start name ∷ begins_stop ∷ ends old ∷ resumes ∷ resumes ∷ []

abbrev orphaned : String → Tasks
orphaned name = record {
  tunnel_running = false;
  tunnel_manager = none;
  tunnel_task = none;
  alive = name ∷ [];
  waiting = [];
}

module _ (running : Bool) (manager : Option String) (old name : String) where
  abbrev both_wait : Tasks
  both_wait = record (with_tunnel running manager old) {
    waiting = starting old name ∷ stopping old ∷ [];
  }

  begun : step begins_stop (step (begins_start name) (with_tunnel running manager old)) ≡ both_wait
  unfolding step begin_start begin_stop
  begun = let same : str_eq old old ≡ true = (eq_iff old old).1 refl in simp same

  -- The start goes on first, since it waited first.
  created :
      step resumes (step (ends old) both_wait)
      ≡ record (create name (cleared both_wait)) { alive = name ∷ []; waiting = stopping old ∷ [] }
  unfolding step end_task finish
  created = let same : str_eq old old ≡ true = (eq_iff old old).1 refl in simp same

  forgotten :
      str_eq old name ≡ false
      → step resumes (record (create name (cleared both_wait)) {
        alive = name ∷ [];
        waiting = stopping old ∷ [];
      })
        ≡ orphaned name
  unfolding step finish
  forgotten apart = simp apart

  run-overlap :
      str_eq old name ≡ false
      → run (overlap old name) (with_tunnel running manager old) ≡ orphaned name
  unfolding run
  run-overlap apart =
      ap (λ s. step resumes (step resumes (step (ends old) s))) begun
      ∙ ap (step resumes) created
      ∙ forgotten apart

-- Where a stop begins while a start waits for an old task to end, the new task is alive when both are
-- over, but it is not known and the tunnel counts as stopped; a further stop leaves it alive, and a
-- further start makes a second one.
pub overlap_orphans :
    (running : Bool) (manager : Option String) (old name other : String)
    → name ≢ old
    → let after = run (overlap old name) (with_tunnel running manager old) in
      (after.alive ≡ name ∷ [])
      × (after.tunnel_task ≡ none)
      × (after.tunnel_running ≡ false)
      × (after.waiting ≡ [])
      × ((step begins_stop after).alive ≡ name ∷ [])
      × ((step (begins_start other) after).alive ≡ other ∷ name ∷ [])
unfolding step begin_start begin_stop
overlap_orphans running manager old name other apart =
    let differ : str_eq old name ≡ false = ground (arith, eq_iff old name, apart) in
    rw (run-overlap running manager old name differ) (refl, refl, refl, refl, refl, refl)
