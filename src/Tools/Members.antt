-- ===== src/Tools/Members.antt =====
-- The sets of actions that a tool is made without.
use anki_mcp_server_addon.Prelude.{
  ℕ, ◌≡◌, refl, ap, sym, true, false, not, ◌&&◌, ◌||◌, ◌⊎◌, inl, inr, Option, none, some, List, [],
  ◌∷◌, ◌++◌, arith, All, filter, Bool-cases,
}
use anki_mcp_server_addon.Text.{text_eq, text_eq-eq, text_eq_refl}
use anki_mcp_server_addon.Tools.{mem, ActionModel, marked_actions, add_marked}

pub mem-append : (a : List ℕ) (xs ys : List (List ℕ)) → mem a (xs ++ ys) ≡ (mem a xs || mem a ys)
mem-append a [] ys = refl
mem-append a (x ∷ xs) ys = ground (arith, mem-append a xs ys)

pub mem-filter-not :
    (a : List ℕ) (names excluded : List (List ℕ))
    → mem a (filter (λ d. not (mem d excluded)) names) ≡ (mem a names && not (mem a excluded))
mem-filter-not a [] excluded = refl
mem-filter-not a (d ∷ names) excluded = elim (Bool-cases (text_eq a d)) [
  | inl same ↦
      let e = text_eq-eq a d same in
      let keep : mem d excluded ≡ mem a excluded = ap (λ t. mem t excluded) (sym e) in
      ground (arith, same, keep, mem-filter-not a names excluded)
  | inr other ↦ ground (arith, other, mem-filter-not a names excluded)
]

-- A member whose action, if it is marked, is among some names.
abbrev pub IsListed : List (List ℕ) → ActionModel → Option (List ℕ) → Type 0
IsListed names m none = Unit
IsListed names m (some action) = (m.destructive ≡ false) ⊎ (mem action names ≡ true)

pub marked-IsListed :
    (members : List ActionModel) (names : List (List ℕ))
    → ((action : List ℕ) → mem action (marked_actions members) ≡ true → mem action names ≡ true)
    → All (λ m. IsListed names m m.action) members
unfolding marked_actions
marked-IsListed [] names sub = tt
marked-IsListed (m ∷ members) names sub = (
  by_action m.action refl,
  marked-IsListed members names (λ action h. sub action (later action m.action h)),
)
  where
    later :
        (action : List ℕ) (literal : Option (List ℕ))
        → mem action (marked_actions members) ≡ true
        → mem action (add_marked m literal (marked_actions members)) ≡ true
    later action none h = h
    later action (some literal) h = ground arith

    by_action : (literal : Option (List ℕ)) → m.action ≡ literal → IsListed names m literal
    by_action none e = tt
    by_action (some action) e = elim (Bool-cases m.destructive) [
      | inr plain ↦ inl plain
      | inl marked ↦ inr (sub action (rw e (rw marked (rw (text_eq_refl action) refl))))
    ]
