-- ===== src/Sync/Registry/Bound.antt =====
-- After an eviction at most fifty finished jobs are left besides the slot's holder.
use anki_mcp_server_addon.Prelude.{
  ℕ, ◌-◌, ◌≤◌, suc, String, str_eq, eq_refl, ◌≡◌, refl, ap, sym, ◌∙◌, Bool, true, false, not, ◌&&◌,
  Option, [], ◌∷◌, arith, inl, inr, Bool-cases, ltb, length, take, drop, filter, All, length-append,
  length-drop, take-append-drop, filter-append, length-filter-le,
}
use anki_mcp_server_addon.Prelude.Dict
use anki_mcp_server_addon.Prelude.Dict.{Dict}
use anki_mcp_server_addon.Sync.Job.{SyncJob}
use anki_mcp_server_addon.Sync.Registry.{
  Registry, finished_items, ttl_sweep, pop_all, insert_by_finish, sort_by_finish, size_cap, evict,
  max_finished_jobs,
}

abbrev Item : Type 0
Item = String × SyncJob

-- The items with none of the listed keys.
abbrev unlisted : Dict SyncJob → Item → Bool
unlisted [] item = true
unlisted ((id, job) ∷ items) (k, other) = not (str_eq k id) && unlisted items (k, other)

filter-remove :
    (holder : Option String) (id : String) (jobs : Dict SyncJob)
    → finished_items holder (Dict.remove id jobs) ≡ Dict.remove id (finished_items holder jobs)
unfolding finished_items Dict.remove
filter-remove holder id [] = refl
filter-remove holder id ((k, job) ∷ jobs) = ground (arith, filter-remove holder id jobs)

filter-pop_all :
    (holder : Option String) (items jobs : Dict SyncJob)
    → finished_items holder (pop_all items jobs) ≡ pop_all items (finished_items holder jobs)
unfolding pop_all
filter-pop_all holder [] jobs = refl
filter-pop_all holder ((id, job) ∷ items) jobs =
    filter-pop_all holder items (Dict.remove id jobs)
    ∙ ap (pop_all items) (filter-remove holder id jobs)

filter-unlisted-remove :
    (items : Dict SyncJob) (id : String) (job : SyncJob) (jobs : Dict SyncJob)
    → filter (unlisted items) (Dict.remove id jobs) ≡ filter (unlisted ((id, job) ∷ items)) jobs
unfolding Dict.remove
filter-unlisted-remove items id job [] = refl
filter-unlisted-remove items id job ((k, other) ∷ jobs) =
    ground (arith, filter-unlisted-remove items id job jobs)

filter_all : (jobs : Dict SyncJob) → filter (unlisted []) jobs ≡ jobs
filter_all [] = refl
filter_all ((k, job) ∷ jobs) = ap (λ r. (k, job) ∷ r) (filter_all jobs)

pop_all-filter : (items jobs : Dict SyncJob) → pop_all items jobs ≡ filter (unlisted items) jobs
unfolding pop_all
pop_all-filter [] jobs = sym (filter_all jobs)
pop_all-filter ((id, job) ∷ items) jobs =
    pop_all-filter items (Dict.remove id jobs) ∙ filter-unlisted-remove items id job jobs

length-filter-insert :
    (p : Item → Bool) (item : Item) (items : Dict SyncJob)
    → length (filter p (insert_by_finish item items)) ≡ length (filter p (item ∷ items))
unfolding insert_by_finish
length-filter-insert p (id, job) [] = refl
length-filter-insert p (id, job) ((k, other) ∷ items) =
    ground (arith, length-filter-insert p (id, job) items)

length-filter-sort :
    (p : Item → Bool) (items : Dict SyncJob)
    → length (filter p (sort_by_finish items)) ≡ length (filter p items)
unfolding sort_by_finish
length-filter-sort p [] = refl
length-filter-sort p (item ∷ items) =
    ground (arith, length-filter-insert p item (sort_by_finish items), length-filter-sort p items)

-- Every item is listed by a list that it stands on.
All-listed_more :
    (id : String) (job : SyncJob) (items more : Dict SyncJob)
    → All (λ x. unlisted items x ≡ false) more
    → All (λ x. unlisted ((id, job) ∷ items) x ≡ false) more
All-listed_more id job items [] h = tt
All-listed_more id job items ((k, other) ∷ more) h =
    (ground arith, All-listed_more id job items more h.1)

All-listed : (items : Dict SyncJob) → All (λ x. unlisted items x ≡ false) items
All-listed [] = tt
All-listed ((id, job) ∷ items) =
    (rw (eq_refl id), All-listed_more id job items items (All-listed items))

filter_none :
    (p : Item → Bool) (items : Dict SyncJob) → All (λ x. p x ≡ false) items → filter p items ≡ []
filter_none p [] h = refl
filter_none p (x ∷ items) h = rw h.0 (filter_none p items h.1)

-- Popping the first `n` of the sorted items leaves the others at most.
length-pop_all :
    (n : ℕ) (items : Dict SyncJob)
    → length (pop_all (take n (sort_by_finish items)) items) ≤ length items - n
length-pop_all n items =
    let sorted = sort_by_finish items in
    let p = unlisted (take n sorted) in
    omega (
      arith,
      ap length (pop_all-filter (take n sorted) items),
      length-filter-sort p items,
      length-filter-sort (λ x. true) items,
      ap length (ap (filter p) (take-append-drop n sorted)),
      ap length (filter-append p (take n sorted) (drop n sorted)),
      ap length (filter_none p (take n sorted) (All-listed (take n sorted))),
      length-append (filter p (take n sorted)) (filter p (drop n sorted)),
      length-filter-le p (drop n sorted),
      length-drop n sorted,
      length-filter_true items,
      length-filter_true sorted,
    )
  where
    length-filter_true : (xs : Dict SyncJob) → length (filter (λ x. true) xs) ≡ length xs
    length-filter_true [] = refl
    length-filter_true (x ∷ xs) = ap suc (length-filter_true xs)

-- Whatever was stored, an eviction leaves at most fifty finished jobs besides the slot's holder.
pub evict_bounded :
    (now : ℕ) (r : Registry)
    → length (finished_items r.single_flight_id (evict now r).jobs) ≤ max_finished_jobs
unfolding evict size_cap
evict_bounded now r =
    let holder = r.single_flight_id in
    let swept = ttl_sweep now (finished_items holder r.jobs) r.jobs in
    let listed = finished_items holder swept in
    elim (Bool-cases (ltb max_finished_jobs (length listed))) [
      | inl e ↦ rw e (
          rw
            (filter-pop_all holder
              (take (length listed - max_finished_jobs) (sort_by_finish listed)) swept)
            (ground (arith, length-pop_all (length listed - max_finished_jobs) listed)))
      | inr e ↦ rw e (ground arith)
    ]
