-- ===== src/Tunnel/Tasks/Ordered.antt =====
-- One tunnel at a time, while starts and stops do not overlap.
use anki_mcp_server_addon.Prelude.{
  String, str_eq, eq_iff, ◌≡◌, refl, sym, ap, ◌∙◌, ◌⊎◌, inl, inr, true, false, subst, Option, none,
  some, List, [], ◌∷◌, arith, filter, not, Bool-cases,
}
use anki_mcp_server_addon.Tunnel.Tasks.{
  Coroutine, stopping, starting, Tasks, idle, is_alive, cleared, create, resume_picked, begin_start,
  begin_stop, finish, pick, end_task, Event, begins_start, begins_stop, established, gives_up, ends,
  resumes, step, run,
}

-- A start or a stop begins only when none is under way.
abbrev pub IsApart : Event → Tasks → Type 0
IsApart (begins_start name) s = s.waiting ≡ []
IsApart begins_stop s = s.waiting ≡ []
IsApart _ s = Unit

abbrev pub AllApart : List Event → Tasks → Type 0
AllApart [] s = Unit
AllApart (event ∷ events) s = IsApart event s × AllApart events (step event s)

-- The tasks that may be alive: none, or the one that is known.
abbrev pub IsOne : Option String → List String → Type 0
IsOne task alive = (alive ≡ []) ⊎ ((name : String) × (alive ≡ name ∷ []) × (task ≡ some name))

abbrev AwaitsKnown : List Coroutine → Tasks → Type 0
AwaitsKnown [] s = Unit
AwaitsKnown (stopping task ∷ []) s = (s.alive ≡ []) ⊎ (s.alive ≡ task ∷ [])
AwaitsKnown (starting task name ∷ []) s = (s.alive ≡ []) ⊎ (s.alive ≡ task ∷ [])
AwaitsKnown _ s = ⊥

record Inv (s : Tasks) : Type 0 where
  one : IsOne s.tunnel_task s.alive
  known : AwaitsKnown s.waiting s

-- A task that is known is the one that is alive, if one is.
IsOne-known :
    (task : String) (alive : List String)
    → IsOne (some task) alive
    → (alive ≡ []) ⊎ (alive ≡ task ∷ [])
IsOne-known task alive (inl none_there) = inl none_there
IsOne-known task alive (inr (name, there, e)) =
    let same : task ≡ name = cc in inr (there ∙ ap (λ n. n ∷ []) (sym same))

-- A known task that is not alive leaves none alive.
none_alive :
    (task : String) (alive : List String)
    → (alive ≡ []) ⊎ (alive ≡ task ∷ [])
    → is_alive task alive ≡ false
    → alive ≡ []
none_alive task alive (inl e) gone = e
none_alive task alive (inr e) gone = absurd (ground (arith, eq_iff task task))

create-Inv : (name : String) (s : Tasks) → s.alive ≡ [] → s.waiting ≡ [] → Inv (create name s)
create-Inv name s empty alone = record {
  one = inr (name, ap (λ xs. name ∷ xs) empty, refl);
  known = rw alone tt;
}

cleared-Inv : (s : Tasks) → s.alive ≡ [] → s.waiting ≡ [] → Inv (cleared s)
cleared-Inv s empty alone = record { one = inl empty; known = rw alone tt }

begin_start-Inv :
    (name : String) (task : Option String) (s : Tasks)
    → IsOne task s.alive
    → s.tunnel_task ≡ task
    → s.waiting ≡ []
    → Inv (begin_start name task s)
unfolding begin_start
begin_start-Inv name none s (inl e) t alone = create-Inv name s e alone
begin_start-Inv name none s (inr (other, there, e)) t alone = absurd cc
begin_start-Inv name (some task) s one t alone = elim (Bool-cases (is_alive task s.alive)) [
  | inr gone ↦
      rw gone
        (create-Inv name s (none_alive task s.alive (IsOne-known task s.alive one) gone) alone)
  | inl there ↦ rw there (record {
    one = subst (λ o. IsOne o s.alive) (sym t) one;
    known = rw alone (IsOne-known task s.alive one);
  })
]

begin_stop-Inv :
    (task : Option String) (s : Tasks)
    → IsOne task s.alive
    → s.tunnel_task ≡ task
    → s.waiting ≡ []
    → Inv (begin_stop task s)
unfolding begin_stop
begin_stop-Inv none s (inl e) t alone = cleared-Inv s e alone
begin_stop-Inv none s (inr (other, there, e)) t alone = absurd cc
begin_stop-Inv (some task) s one t alone = elim (Bool-cases (is_alive task s.alive)) [
  | inr gone ↦
      rw gone (cleared-Inv s (none_alive task s.alive (IsOne-known task s.alive one) gone) alone)
  | inl there ↦ rw there (record {
    one = subst (λ o. IsOne o s.alive) (sym t) one;
    known = rw alone (IsOne-known task s.alive one);
  })
]

-- The same tasks alive, or none.
AwaitsKnown-alive :
    (waiting : List Coroutine) (s t : Tasks)
    → (t.alive ≡ s.alive) ⊎ (t.alive ≡ [])
    → AwaitsKnown waiting s
    → AwaitsKnown waiting t
AwaitsKnown-alive [] s t same h = tt
AwaitsKnown-alive (stopping task ∷ []) s t (inl same) (inl e) = inl (same ∙ e)
AwaitsKnown-alive (stopping task ∷ []) s t (inl same) (inr e) = inr (same ∙ e)
AwaitsKnown-alive (stopping task ∷ []) s t (inr gone) h = inl gone
AwaitsKnown-alive (starting task name ∷ []) s t (inl same) (inl e) = inl (same ∙ e)
AwaitsKnown-alive (starting task name ∷ []) s t (inl same) (inr e) = inr (same ∙ e)
AwaitsKnown-alive (starting task name ∷ []) s t (inr gone) h = inl gone
AwaitsKnown-alive (stopping task ∷ c ∷ waiting) s t same h = absurd h
AwaitsKnown-alive (starting task name ∷ c ∷ waiting) s t same h = absurd h

emptied :
    (name : String) (task : Option String) (alive : List String)
    → IsOne task alive
    → is_alive name alive ≡ true
    → filter (λ other. not (str_eq name other)) alive ≡ []
emptied name task alive (inl e) there = rw e refl
emptied name task alive (inr (other, e, known)) there = ground (arith, e, there)

-- The end of a task that is alive leaves none.
end_task-Inv : (name : String) (s : Tasks) → Inv s → Inv (end_task name s)
unfolding end_task
end_task-Inv name s h = elim (Bool-cases (is_alive name s.alive)) [
  | inr gone ↦ rw gone h
  | inl there ↦ rw there (record {
    one = inl (emptied name s.tunnel_task s.alive h.one there);
    known =
        AwaitsKnown-alive s.waiting s _ (inr (emptied name s.tunnel_task s.alive h.one there))
          h.known;
  })
]

resume-Inv :
    (waiting : List Coroutine) (s : Tasks)
    → s.waiting ≡ waiting
    → Inv s
    → AwaitsKnown waiting s
    → Inv (resume_picked (pick s.alive waiting) s)
unfolding finish
resume-Inv [] s e h known = record { one = h.one; known = tt }
resume-Inv (stopping task ∷ []) s e h known = elim (Bool-cases (is_alive task s.alive)) [
  | inr gone ↦
      rw gone (cleared-Inv (record s { waiting = [] }) (none_alive task s.alive known gone) refl)
  | inl there ↦ rw there (record { one = h.one; known = known })
]
resume-Inv (starting task name ∷ []) s e h known = elim (Bool-cases (is_alive task s.alive)) [
  | inr gone ↦ rw gone (
      create-Inv name (cleared (record s { waiting = [] })) (none_alive task s.alive known gone)
        refl)
  | inl there ↦ rw there (record { one = h.one; known = known })
]
resume-Inv (stopping task ∷ c ∷ waiting) s e h known = absurd known
resume-Inv (starting task name ∷ c ∷ waiting) s e h known = absurd known

step-Inv : (event : Event) (s : Tasks) → IsApart event s → Inv s → Inv (step event s)
unfolding step
step-Inv (begins_start name) s apart h = begin_start-Inv name s.tunnel_task s h.one refl apart
step-Inv begins_stop s apart h = begin_stop-Inv s.tunnel_task s h.one refl apart
step-Inv established s apart h = record {
  one = h.one;
  known = AwaitsKnown-alive s.waiting s _ (inl refl) h.known;
}
step-Inv gives_up s apart h = record {
  one = h.one;
  known = AwaitsKnown-alive s.waiting s _ (inl refl) h.known;
}
step-Inv (ends name) s apart h = end_task-Inv name s h
step-Inv resumes s apart h = resume-Inv s.waiting s refl h h.known

run-Inv : (events : List Event) (s : Tasks) → AllApart events s → Inv s → Inv (run events s)
unfolding run
run-Inv [] s apart h = h
run-Inv (event ∷ events) s (one, apart) h =
    run-Inv events (step event s) apart (step-Inv event s one h)

-- While starts and stops do not overlap, at most one tunnel task is alive and it is the task that is
-- known, so none is alive where none is known.
pub run-IsOne :
    (events : List Event)
    → AllApart events idle
    → IsOne (run events idle).tunnel_task (run events idle).alive
unfolding idle
run-IsOne events apart = (run-Inv events idle apart (record { one = inl refl; known = tt })).one
