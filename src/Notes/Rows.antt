-- ===== src/Notes/Rows.antt =====
-- What the batch tools share: entries that fail at once have their row at once, the others after the
-- batch, and the rows are sorted by their place in the request.
use anki_mcp_server_addon.Prelude.{
  ℕ, ◌+◌, ◌<◌, ◌≡◌, refl, ap, ◌∙◌, ◌⊎◌, inl, inr, List, [], ◌∷◌, ◌++◌, All, leb, Bool-cases,
  if◌then◌else◌, arith,
}

pub record Row (S : Type 0) : Type 0 where
  pub index : ℕ
  pub result : S

abbrev pub row : {S : Type 0} → ℕ → S → Row S
row i s = record { index = i; result = s }

module _ {S : Type 0} where
  -- `results.sort(key=lambda r: r["index"])`
  unfoldable pub insert_row : Row S → List (Row S) → List (Row S)
  insert_row r [] = r ∷ []
  insert_row r (next ∷ rows) =
      if leb r.index next.index then r ∷ next ∷ rows else next ∷ insert_row r rows

  unfoldable pub sort_rows : List (Row S) → List (Row S)
  unfolding insert_row
  sort_rows [] = []
  sort_rows (r ∷ rows) = insert_row r (sort_rows rows)

  -- All rows stand behind an index.
  abbrev Above : ℕ → List (Row S) → Type 0
  Above i rows = All (λ (r : Row S). i < r.index) rows

  insert_row-first :
      (r : Row S) (rows : List (Row S)) → Above r.index rows → insert_row r rows ≡ r ∷ rows
  unfolding insert_row
  insert_row-first r [] above = refl
  insert_row-first r (next ∷ rows) (first, above) = ground arith

  insert_row-Above :
      (i : ℕ) (r : Row S) (rows : List (Row S))
      → i < r.index
      → Above i rows
      → Above i (insert_row r rows)
  unfolding insert_row
  insert_row-Above i r [] lt above = (lt, tt)
  insert_row-Above i r (next ∷ rows) lt (first, above) =
      elim (Bool-cases (leb r.index next.index)) [
        | inl e ↦ rw e (lt, (first, above))
        | inr e ↦ rw e (first, insert_row-Above i r rows lt above)
      ]

  sort_rows-Above : (i : ℕ) (rows : List (Row S)) → Above i rows → Above i (sort_rows rows)
  unfolding sort_rows
  sort_rows-Above i [] above = tt
  sort_rows-Above i (r ∷ rows) (lt, above) =
      insert_row-Above i r (sort_rows rows) lt (sort_rows-Above i rows above)

  Above-append : (i : ℕ) (xs ys : List (Row S)) → Above i xs → Above i ys → Above i (xs ++ ys)
  Above-append i [] ys a b = b
  Above-append i (x ∷ xs) ys (lt, a) b = (lt, Above-append i xs ys a b)

  insert_row-behind :
      (r first : Row S) (rows : List (Row S))
      → first.index < r.index
      → insert_row r (first ∷ rows) ≡ first ∷ insert_row r rows
  unfolding insert_row
  insert_row-behind r first rows lt = ground arith

  -- The least row comes first, wherever it stands.
  sort_rows-least :
      (xs : List (Row S)) (r : Row S) (ys : List (Row S))
      → Above r.index xs
      → Above r.index ys
      → sort_rows (xs ++ (r ∷ ys)) ≡ r ∷ sort_rows (xs ++ ys)
  unfolding sort_rows
  sort_rows-least [] r ys a b = insert_row-first r (sort_rows ys) (sort_rows-Above r.index ys b)
  sort_rows-least (x ∷ xs) r ys (lt, a) b =
      ap (insert_row x) (sort_rows-least xs r ys a b)
      ∙ insert_row-behind x r (sort_rows (xs ++ ys)) lt

-- `judge` gives an entry its result at once, or makes it valid; `finish` gives a valid one its result
-- after the batch.
module _ {E S V : Type 0} (judge : E → S ⊎ V) (finish : ℕ → V → S) where
  abbrev pub add_judged : ℕ → S ⊎ V → List (Row S) × List (ℕ × V) → List (Row S) × List (ℕ × V)
  add_judged i (inl s) (rows, valid) = (row i s ∷ rows, valid)
  add_judged i (inr v) (rows, valid) = (rows, (i, v) ∷ valid)

  -- The loop over the entries.
  unfoldable pub judge_all : ℕ → List E → List (Row S) × List (ℕ × V)
  judge_all i [] = ([], [])
  judge_all i (entry ∷ entries) = add_judged i (judge entry) (judge_all (i + 1) entries)

  unfoldable pub finish_all : List (ℕ × V) → List (Row S)
  finish_all [] = []
  finish_all ((i, v) ∷ valid) = row i (finish i v) ∷ finish_all valid

  unfoldable pub results : List E → List (Row S)
  unfolding judge_all finish_all sort_rows
  results entries = let (rows, valid) = judge_all 0 entries in sort_rows (rows ++ finish_all valid)

  -- The result of an entry, from what it was judged to be.
  abbrev pub result_of : ℕ → S ⊎ V → S
  result_of i (inl s) = s
  result_of i (inr v) = finish i v

  abbrev pub rows_from : ℕ → List E → List (Row S)
  rows_from i [] = []
  rows_from i (entry ∷ entries) = row i (result_of i (judge entry)) ∷ rows_from (i + 1) entries

  add_judged-Above :
      (k i : ℕ) (j : S ⊎ V) (rest : List (Row S) × List (ℕ × V))
      → k < i
      → Above k rest.0 × Above k (finish_all rest.1)
      → Above k (add_judged i j rest).0 × Above k (finish_all (add_judged i j rest).1)
  unfolding finish_all
  add_judged-Above k i (inl s) rest lt (a, b) = ((lt, a), b)
  add_judged-Above k i (inr v) rest lt (a, b) = (a, (lt, b))

  judge_all-Above :
      (k i : ℕ) (entries : List E)
      → k < i
      → Above k (judge_all i entries).0 × Above k (finish_all (judge_all i entries).1)
  unfolding judge_all
  judge_all-Above k i [] lt = unfold finish_all in (tt, tt)
  judge_all-Above k i (entry ∷ entries) lt =
      add_judged-Above k i (judge entry) (judge_all (i + 1) entries) lt
        (judge_all-Above k (i + 1) entries (omega arith))

  sorted_add :
      (i : ℕ) (j : S ⊎ V) (rows : List (Row S)) (valid : List (ℕ × V))
      → Above i rows
      → Above i (finish_all valid)
      → sort_rows ((add_judged i j (rows, valid)).0 ++ finish_all (add_judged i j (rows, valid)).1)
        ≡ row i (result_of i j) ∷ sort_rows (rows ++ finish_all valid)
  unfolding finish_all
  sorted_add i (inl s) rows valid a b =
      sort_rows-least [] (row i s) (rows ++ finish_all valid) tt (Above-append i rows _ a b)
  sorted_add i (inr v) rows valid a b =
      sort_rows-least rows (row i (finish i v)) (finish_all valid) a b

  sorted_all :
      (i : ℕ) (entries : List E)
      → sort_rows ((judge_all i entries).0 ++ finish_all (judge_all i entries).1)
        ≡ rows_from i entries
  unfolding judge_all
  sorted_all i [] = unfold finish_all sort_rows in refl
  sorted_all i (entry ∷ entries) =
      let above = judge_all-Above i (i + 1) entries (omega arith) in
      sorted_add i (judge entry) (judge_all (i + 1) entries).0 (judge_all (i + 1) entries).1 above.0
        above.1
      ∙ ap (λ rows. row i (result_of i (judge entry)) ∷ rows) (sorted_all (i + 1) entries)

  -- Each entry has its row, in the order of the request.
  pub results-eq : (entries : List E) → results entries ≡ rows_from 0 entries
  unfolding results
  results-eq entries = sorted_all 0 entries
