-- ===== src/Tools/Entries.antt =====
-- What an entry of `disabled_tools` or `enabled_destructive_tools` stands for.
use anki_mcp_server_addon.Prelude.{
  ℕ, ◌≡◌, refl, ap, Bool, false, ◌&&◌, ◌⊎◌, inl, inr, List, [], ◌∷◌, ◌++◌, arith, any, ◌==◌,
  Bool-cases,
}
use anki_mcp_server_addon.Text.{text_eq}
use anki_mcp_server_addon.Tools.{colon, mem, split_entry, parse_disabled, actions_of}

abbrev pub has_colon : List ℕ → Bool
has_colon = any (λ c. c == colon)

-- An entry is a tool, or a tool and an action around its first colon.
record Parts (entry : List ℕ) : Type 0 where
  tool : List ℕ
  action : List ℕ
  split : split_entry entry ≡ inr (tool, action)
  joined : entry ≡ tool ++ colon ∷ action
  first : has_colon tool ≡ false

split_cases :
    (entry : List ℕ) → ((split_entry entry ≡ inl entry) × (has_colon entry ≡ false)) ⊎ Parts entry
unfolding split_entry
split_cases [] = inl (refl, refl)
split_cases (c ∷ entry) = elim (Bool-cases (c == colon)) [
  | inl e ↦
      inr (record {
        tool = [];
        action = entry;
        split = rw e refl;
        joined = ground arith;
        first = refl;
      })
  | inr e ↦ elim (split_cases entry) [
    | inl (whole, clean) ↦ inl (rw (e, whole) refl, rw e clean)
    | inr p ↦ inr (record {
      tool = c ∷ p.tool;
      action = p.action;
      split = rw (e, p.split) refl;
      joined = ap (λ text. c ∷ text) p.joined;
      first = rw e p.first;
    })
  ]
]

text_eq-colon_left :
    (name tool action : List ℕ)
    → has_colon name ≡ false
    → text_eq (tool ++ colon ∷ action) name ≡ false
text_eq-colon_left [] [] action h = refl
text_eq-colon_left [] (d ∷ tool) action h = refl
text_eq-colon_left (c ∷ name) [] action h = ground arith
text_eq-colon_left (c ∷ name) (d ∷ tool) action h =
    ground (arith, text_eq-colon_left name tool action)

text_eq-colon_right :
    (name tool action : List ℕ)
    → has_colon name ≡ false
    → text_eq name (tool ++ colon ∷ action) ≡ false
text_eq-colon_right [] [] action h = refl
text_eq-colon_right [] (d ∷ tool) action h = refl
text_eq-colon_right (c ∷ name) [] action h = ground arith
text_eq-colon_right (c ∷ name) (d ∷ tool) action h =
    ground (arith, text_eq-colon_right name tool action)

text_eq-joined :
    (name tool a b : List ℕ)
    → has_colon name ≡ false
    → has_colon tool ≡ false
    → text_eq (name ++ colon ∷ a) (tool ++ colon ∷ b) ≡ (text_eq name tool && text_eq a b)
text_eq-joined [] [] a b h k = ground arith
text_eq-joined [] (d ∷ tool) a b h k = ground arith
text_eq-joined (c ∷ name) [] a b h k = ground arith
text_eq-joined (c ∷ name) (d ∷ tool) a b h k = ground (arith, text_eq-joined name tool a b)

-- A tool is in the set of whole tools exactly if its name is an entry.
pub mem-whole :
    (name : List ℕ) (entries : List (List ℕ))
    → has_colon name ≡ false
    → mem name (parse_disabled entries).0 ≡ mem name entries
unfolding parse_disabled
mem-whole name [] h = refl
mem-whole name (entry ∷ entries) h = elim (split_cases entry) [
  | inl (whole, clean) ↦ rw (whole, mem-whole name entries h) refl
  | inr p ↦
      let differs : text_eq name entry ≡ false =
        rw p.joined (text_eq-colon_right name p.tool p.action h) in
      rw (p.split, differs, mem-whole name entries h) refl
]

-- An action is in a tool's set exactly if the tool's name, a colon and the action are an entry.
pub mem-actions :
    (name action : List ℕ) (entries : List (List ℕ))
    → has_colon name ≡ false
    → mem action (actions_of name (parse_disabled entries).1) ≡ mem (name ++ colon ∷ action) entries
unfolding parse_disabled actions_of
mem-actions name action [] h = refl
mem-actions name action (entry ∷ entries) h = elim (split_cases entry) [
  | inl (whole, clean) ↦
      let differs = text_eq-colon_left entry name action clean in
      rw (whole, differs, mem-actions name action entries h) refl
  | inr p ↦
      let both : text_eq (name ++ colon ∷ action) entry
          ≡ (text_eq name p.tool && text_eq action p.action) =
        rw p.joined (text_eq-joined name p.tool action p.action h p.first) in
      rw (p.split, both) (ground (arith, mem-actions name action entries h))
]
