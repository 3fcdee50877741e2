-- ===== src/Search/Pages.antt =====
-- Reading page after page.
use anki_mcp_server_addon.Prelude.{
  ℕ, zero, suc, ◌+◌, ◌≤◌, ◌<◌, ◌≡◌, refl, sym, ap, ◌∙◌, Option, none, some, inl, inr, List, [], ◌∷◌,
  ◌++◌, length, take, drop, drop-nil, drop-drop, take_all, take-append-drop, length-drop, ltb,
  ltb→lt, Bool-cases, if◌then◌else◌, arith,
}
use anki_mcp_server_addon.Search.{
  nonneg, Reply, validation_error, limit_exceeded, search_failed, page, max_limit, page_of,
  find_notes,
}

abbrev pub append_ids : List ℕ → Option (List ℕ) → Option (List ℕ)
append_ids ids none = none
append_ids ids (some rest) = some (ids ++ rest)

-- A client that asks for the next page as long as one is announced; `none` is an error, or too little
-- fuel.
abbrev pub continue_with : Reply → Option (List ℕ) → Option (List ℕ)
continue_with validation_error rest = none
continue_with limit_exceeded rest = none
continue_with search_failed rest = none
continue_with (page p) rest = if p.has_more then append_ids p.note_ids rest else some p.note_ids

abbrev pub read_pages : ℕ → ℕ → ℕ → List ℕ → Option (List ℕ)
read_pages zero limit offset ids = none
read_pages (suc fuel) limit offset ids =
    continue_with (find_notes (nonneg limit) (nonneg offset) (some ids))
      (read_pages fuel limit (offset + limit) ids)

found_page :
    (limit offset : ℕ) (ids : List ℕ)
    → 0 < limit
    → limit ≤ max_limit
    → find_notes (nonneg limit) (nonneg offset) (some ids) ≡ page (page_of limit offset ids)
unfolding find_notes
found_page zero offset ids positive fits = absurd (omega arith)
found_page (suc n) offset ids positive fits = elim (Bool-cases (ltb max_limit (suc n))) [
  | inl over ↦ absurd (let lt = ltb→lt _ _ over in omega arith)
  | inr within ↦ rw within refl
]

read_on :
    (limit offset fuel : ℕ) (ids : List ℕ)
    → 0 < limit
    → limit ≤ max_limit
    → length ids < offset + fuel
    → offset ≤ length ids
    → read_pages fuel limit offset ids ≡ some (drop offset ids)
read_on limit offset zero ids positive fits enough inside = absurd (omega arith)
read_on limit offset (suc fuel) [] positive fits enough inside =
    rw (found_page limit offset [] positive fits) (ap some (sym (drop-nil offset)))
read_on limit offset (suc fuel) (id ∷ ids) positive fits enough inside =
    rw (found_page limit offset (id ∷ ids) positive fits)
      elim (Bool-cases (ltb (offset + limit) (length (id ∷ ids)))) [
        | inl more ↦ rw more (
            rw
              (read_on limit (offset + limit) fuel (id ∷ ids) positive fits (omega arith)
                (let lt = ltb→lt _ _ more in omega arith))
              (ap some (
                ap (λ rest. take limit (drop offset (id ∷ ids)) ++ rest)
                  (sym (drop-drop offset limit (id ∷ ids)))
                ∙ take-append-drop limit (drop offset (id ∷ ids)))))
        | inr last ↦ rw last (
            ap some (
              take_all limit (drop offset (id ∷ ids))
                (let left = length-drop offset (id ∷ ids) in ground arith)))
      ]

-- With any limit that is allowed, reading page after page while more is announced gives all ids that
-- match, each once and in order, after at most one page more than there are ids.
pub pages_complete :
    (limit : ℕ) (ids : List ℕ)
    → 0 < limit
    → limit ≤ max_limit
    → read_pages (length ids + 1) limit 0 ids ≡ some ids
pages_complete limit ids positive fits =
    read_on limit 0 (length ids + 1) ids positive fits (omega arith) (omega arith)
