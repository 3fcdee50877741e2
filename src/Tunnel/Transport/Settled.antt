-- ===== src/Tunnel/Transport/Settled.antt =====
-- Calls that no longer wait, and the loop of `stop` over the pending futures.
use anki_mcp_server_addon.Prelude.{
  String, eq_iff, str_eq, ◌≡◌, ◌≢◌, refl, ap, ◌∙◌, ◌⊎◌, inl, inr, Option, none, some, [], ◌∷◌,
  arith, Bool-cases, Option-cases,
}
use anki_mcp_server_addon.Prelude.Dict
use anki_mcp_server_addon.Prelude.Dict.{Dict, get-put, get-remove}
use anki_mcp_server_addon.Tunnel.Transport.{
  Phase, waiting, result, no_reply, raised, Call, resolve, reject_all,
}

-- A call that is not waiting, or not there.
abbrev pub IsSettled : String → Dict Call → Type 0
IsSettled name calls = (call : Call) → Dict.get name calls ≡ some call → call.phase ≢ waiting

pub get-resolve :
    (name : String) (phase : Phase) (calls : Dict Call) (call : Call)
    → Dict.get name calls ≡ some call
    → call.phase ≡ waiting
    → resolve name (Dict.get name calls) phase calls
      ≡ Dict.put name (record call { phase = phase }) calls
get-resolve name phase calls call here waits = rw here (rw waits)

resolve-same :
    (name : String) (phase : Phase) (calls : Dict Call)
    → IsSettled name calls
    → resolve name (Dict.get name calls) phase calls ≡ calls
resolve-same name phase calls settled = by_found (Dict.get name calls) refl
  where
    by_phase :
        (call : Call) (p : Phase)
        → call.phase ≡ p
        → p ≢ waiting
        → resolve name (some call) phase calls ≡ calls
    by_phase call waiting e ne = absurd (ne refl)
    by_phase call (result text) e ne = rw e
    by_phase call no_reply e ne = rw e
    by_phase call raised e ne = rw e

    by_found :
        (found : Option Call) → Dict.get name calls ≡ found → resolve name found phase calls ≡ calls
    by_found none e = refl
    by_found (some call) e = by_phase call call.phase refl (settled call e)

Phase-cases : (p : Phase) → (p ≡ waiting) ⊎ (p ≢ waiting)
Phase-cases waiting = inl refl
Phase-cases (result text) = inr (λ e. cc)
Phase-cases no_reply = inr (λ e. cc)
Phase-cases raised = inr (λ e. cc)

-- A call waits, or is settled.
pub waits_or_settled :
    (name : String) (calls : Dict Call)
    → ((call : Call) × (Dict.get name calls ≡ some call) × (call.phase ≡ waiting))
      ⊎ IsSettled name calls
waits_or_settled name calls = elim (Option-cases (Dict.get name calls)) [
  | inl gone ↦ inr (λ call found. cc)
  | inr (call, here) ↦ elim (Phase-cases call.phase) [
    | inl w ↦ inl (call, here, w)
    | inr s ↦ inr (λ other found w.
        s (let same : call ≡ other = ground arith in ap (λ (c : Call). c.phase) same ∙ w))
  ]
]

resolve-IsSettled :
    (name other : String) (calls : Dict Call)
    → IsSettled other calls
    → IsSettled other (resolve name (Dict.get name calls) raised calls)
resolve-IsSettled name other calls settled = elim (waits_or_settled name calls) [
  | inr done ↦ rw (resolve-same name raised calls done) settled
  | inl (call, here, w) ↦ rw (get-resolve name raised calls call here w) (λ it found waits.
      ground (arith, get-put name other (record call { phase = raised }) calls, settled it))
]

resolved-IsSettled :
    (name : String) (calls : Dict Call)
    → IsSettled name (resolve name (Dict.get name calls) raised calls)
resolved-IsSettled name calls = elim (waits_or_settled name calls) [
  | inr done ↦ rw (resolve-same name raised calls done) done
  | inl (call, here, w) ↦ rw (get-resolve name raised calls call here w) (λ it found waits.
      ground (arith, eq_iff name name, get-put name name (record call { phase = raised }) calls))
]

pub reject_all-IsSettled :
    (name : String) (pending : Dict String) (calls : Dict Call)
    → IsSettled name calls
    → IsSettled name (reject_all pending calls)
unfolding reject_all
reject_all-IsSettled name [] calls settled = settled
reject_all-IsSettled name ((id, other) ∷ pending) calls settled =
    reject_all-IsSettled name pending (resolve other (Dict.get other calls) raised calls)
      (resolve-IsSettled other name calls settled)

pub pending-IsSettled :
    (id name : String) (pending : Dict String) (calls : Dict Call)
    → Dict.get id pending ≡ some name
    → IsSettled name (reject_all pending calls)
unfolding reject_all Dict.get
pending-IsSettled id name [] calls h = cc
pending-IsSettled id name ((k, other) ∷ pending) calls h = elim (Bool-cases (str_eq k id)) [
  | inl e ↦
      let same : other ≡ name = ground arith in
      reject_all-IsSettled name pending (resolve other (Dict.get other calls) raised calls)
        (rw same (resolved-IsSettled name calls))
  | inr e ↦
      pending-IsSettled id name pending (resolve other (Dict.get other calls) raised calls)
        (ground arith)
]
