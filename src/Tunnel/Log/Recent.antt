-- ===== src/Tunnel/Log/Recent.antt =====
-- The buffer is the end of a log that forgets nothing.
use anki_mcp_server_addon.Prelude.{
  ℕ, zero, suc, ◌≤◌, drop, inl, inr, ltb→lt, length-append, length-drop, drop-nil, ◌-◌, ◌≡◌, refl,
  ap, sym, ◌∙◌, List, [], ◌∷◌, ◌++◌, length, ltb, Bool-cases, arith,
}
use anki_mcp_server_addon.Tunnel.Log.{
  request, LogEntry, TunnelLog, new, pop_left, append, add, request_message, Call, logs,
  logs_request, clears, entry_of, apply, apply_all, get_entries,
}

-- Without a bound: the entries since the buffer was last cleared, and all that were ever added.
pub record History : Type 0 where
  pub current : List LogEntry
  pub all : List LogEntry

abbrev pub record_entry : LogEntry → History → History
record_entry entry h = record { current = h.current ++ entry ∷ []; all = h.all ++ entry ∷ [] }

abbrev pub record_call : Call → History → History
record_call (logs level now message) h = record_entry (entry_of level now message) h
record_call (logs_request now path status duration) h =
    record_entry (entry_of request now (request_message path status duration)) h
record_call clears h = record h { current = [] }

abbrev pub record_all : List Call → History → History
record_all [] h = h
record_all (call ∷ calls) h = record_all calls (record_call call h)

-- The last `n` entries.
abbrev pub last : ℕ → List LogEntry → List LogEntry
last n xs = drop (length xs - n) xs

drop-append : (n : ℕ) (xs ys : List LogEntry) → n ≤ length xs → drop n (xs ++ ys) ≡ drop n xs ++ ys
drop-append zero xs ys h = refl
drop-append (suc n) [] ys h = absurd (omega arith)
drop-append (suc n) (x ∷ xs) ys h = drop-append n xs ys (omega arith)

pop_left-drop : (n : ℕ) (xs : List LogEntry) → pop_left (drop n xs) ≡ drop (suc n) xs
pop_left-drop zero [] = refl
pop_left-drop zero (x ∷ xs) = refl
pop_left-drop (suc n) [] = refl
pop_left-drop (suc n) (x ∷ xs) = pop_left-drop n xs

append-last :
    (n : ℕ) (xs : List LogEntry) (entry : LogEntry)
    → append n (last n xs) entry ≡ last n (xs ++ entry ∷ [])
unfolding append
append-last n xs entry =
    let joined : last n xs ++ entry ∷ [] ≡ drop (length xs - n) (xs ++ entry ∷ []) =
      sym (drop-append (length xs - n) xs (entry ∷ []) (omega arith)) in
    let sizes = length-append (last n xs) (entry ∷ []) in
    let size = length-drop (length xs - n) xs in
    let whole = length-append xs (entry ∷ []) in
    elim (Bool-cases (ltb n (length (last n xs ++ entry ∷ [])))) [
      | inl over ↦ rw over (
          ap pop_left joined
          ∙ pop_left-drop (length xs - n) (xs ++ entry ∷ [])
          ∙ ap (λ k. drop k (xs ++ entry ∷ [])) {x = suc (length xs - n)}
              (let lt = ltb→lt _ _ over in omega arith))
      | inr fits ↦ rw fits (joined ∙ ap (λ k. drop k (xs ++ entry ∷ [])) (ground arith))
    ]

-- What a log of that size shows of its history.
record Shows (n : ℕ) (log : TunnelLog) (h : History) : Type 0 where
  size : log.max_entries ≡ n
  shown : log.entries ≡ last n h.current
  signalled : log.emitted ≡ h.all

add-Shows :
    (n : ℕ) (entry : LogEntry) (log : TunnelLog) (h : History)
    → Shows n log h
    → Shows n (add entry log) (record_entry entry h)
unfolding add
add-Shows n entry log h s = record {
  size = s.size;
  shown = rw (s.size, s.shown) (append-last n h.current entry);
  signalled = ap (λ xs. xs ++ entry ∷ []) s.signalled;
}

apply-Shows :
    (n : ℕ) (call : Call) (log : TunnelLog) (h : History)
    → Shows n log h
    → Shows n (apply call log) (record_call call h)
unfolding apply
apply-Shows n (logs level now message) log h s = add-Shows n (entry_of level now message) log h s
apply-Shows n (logs_request now path status duration) log h s =
    add-Shows n (entry_of request now (request_message path status duration)) log h s
apply-Shows n clears log h s = record {
  size = s.size;
  shown = sym (drop-nil (0 - n));
  signalled = s.signalled;
}

apply_all-Shows :
    (n : ℕ) (calls : List Call) (log : TunnelLog) (h : History)
    → Shows n log h
    → Shows n (apply_all calls log) (record_all calls h)
unfolding apply_all
apply_all-Shows n [] log h s = s
apply_all-Shows n (call ∷ calls) log h s =
    apply_all-Shows n calls (apply call log) (record_call call h) (apply-Shows n call log h s)

-- After any calls, a new log gives the last `max_entries` of the entries that were added since it was
-- last cleared, and it has emitted all entries that were ever added, in order.
pub apply_all_refines :
    (max_entries : ℕ) (calls : List Call)
    → let log = apply_all calls (new max_entries) in
      let h = record_all calls (record { current = []; all = [] }) in
      (get_entries log ≡ last max_entries h.current) × (log.emitted ≡ h.all)
unfolding new get_entries
apply_all_refines max_entries calls =
    let s =
      apply_all-Shows max_entries calls (new max_entries) (record { current = []; all = [] })
        (record { size = refl; shown = sym (drop-nil (0 - max_entries)); signalled = refl }) in
    (s.shown, s.signalled)
