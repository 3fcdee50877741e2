-- ===== src/Tools/Gate.antt =====
-- What is offered was opted in to, where it is destructive, and is not disabled.
use anki_mcp_server_addon.Prelude.{
  ℕ, ◌≡◌, refl, sym, ◌∙◌, subst, Bool, true, false, not, ◌&&◌, ◌⊎◌, inl, inr, Option, none, some,
  List, [], ◌∷◌, ◌++◌, arith, All, filter, Bool-cases,
}
use anki_mcp_server_addon.Tools.{
  colon, mem, ActionModel, Tool, parse_disabled, actions_of, marked_actions,
  get_destructive_actions, filter_union_type, skipped, missing_description, single_action,
  multi_action, described, make_mcp_tool, effective_disabled, make_multi, offer_remaining, Made,
  register_tool, register_tools, is_disabled, add_made,
}
use anki_mcp_server_addon.Tools.Entries.{has_colon, mem-whole, mem-actions}
use anki_mcp_server_addon.Tools.Members.{mem-append, mem-filter-not, IsListed, marked-IsListed}

module _ (disabled_tools enabled_destructive_tools : List (List ℕ)) where
  -- No entry disables the name, and an entry opts it in where it is destructive.
  abbrev pub IsPermitted : List ℕ → Bool → Type 0
  IsPermitted name destructive =
      (mem name disabled_tools ≡ false)
      × ((destructive ≡ false) ⊎ (mem name enabled_destructive_tools ≡ true))

  abbrev pub ActionIsPermitted : List ℕ → ActionModel → Option (List ℕ) → Type 0
  ActionIsPermitted name m none = Unit
  ActionIsPermitted name m (some action) = IsPermitted (name ++ colon ∷ action) m.destructive

  abbrev pub MadeIsPermitted : Tool → Made → Type 0
  MadeIsPermitted tool skipped = Unit
  MadeIsPermitted tool missing_description = Unit
  MadeIsPermitted tool single_action = IsPermitted tool.name tool.destructive
  MadeIsPermitted tool (multi_action members) =
      IsPermitted tool.name tool.destructive
      × All (λ m. ActionIsPermitted tool.name m m.action) members

  -- The set of actions that a tool is made without.
  abbrev hidden_of : Tool → List (List ℕ)
  hidden_of tool =
      effective_disabled (actions_of tool.name (parse_disabled disabled_tools).1)
        (get_destructive_actions tool.union_members)
        (actions_of tool.name (parse_disabled enabled_destructive_tools).1)

  kept-Permitted :
      (tool : Tool) (m : ActionModel) (literal : Option (List ℕ))
      → has_colon tool.name ≡ false
      → IsListed (get_destructive_actions tool.union_members) m literal
      → is_disabled (hidden_of tool) literal ≡ false
      → ActionIsPermitted tool.name m literal
  kept-Permitted tool m none h listed kept = tt
  kept-Permitted tool m (some action) h listed kept =
      let off = actions_of tool.name (parse_disabled disabled_tools).1 in
      let on = actions_of tool.name (parse_disabled enabled_destructive_tools).1 in
      let marked = get_destructive_actions tool.union_members in
      let parts = mem-append action off (filter (λ d. not (mem d on)) marked) in
      let rest = mem-filter-not action marked on in
      let is_off = mem-actions tool.name action disabled_tools h in
      let is_on = mem-actions tool.name action enabled_destructive_tools h in
      ground (arith, parts, rest, is_off, is_on)

  filter-All :
      (P : ActionModel → Type 0) (hidden : List (List ℕ)) (members : List ActionModel)
      → All P members
      → All (λ m. P m × (is_disabled hidden m.action ≡ false)) (filter_union_type hidden members)
  unfolding filter_union_type
  filter-All P hidden [] h = tt
  filter-All P hidden (m ∷ members) h = elim (Bool-cases (is_disabled hidden m.action)) [
    | inl e ↦ rw e (filter-All P hidden members h.1)
    | inr e ↦ rw e ((h.0, e), filter-All P hidden members h.1)
  ]

  is_disabled_nil : (literal : Option (List ℕ)) → is_disabled [] literal ≡ false
  is_disabled_nil none = refl
  is_disabled_nil (some action) = refl

  -- The members that a tool is offered with.
  abbrev MembersAre : (ActionModel → Type 0) → Made → Type 0
  MembersAre P (multi_action members) = All P members
  MembersAre P _ = Unit

  make_multi-MembersAre :
      (P : ActionModel → Type 0) (has_base : Bool) (members : List ActionModel)
      (hidden : List (List ℕ))
      → All P members
      → MembersAre
          (λ m. P m × (is_disabled hidden m.action ≡ false))
          (make_multi has_base members hidden)
  make_multi-MembersAre P has_base members [] h = by_base has_base
    where
      without_hidden :
          (members : List ActionModel)
          → All P members
          → All (λ m. P m × (is_disabled [] m.action ≡ false)) members
      without_hidden [] h = tt
      without_hidden (m ∷ members) h = ((h.0, is_disabled_nil m.action), without_hidden members h.1)

      by_base :
          (has_base : Bool)
          → MembersAre (λ m. P m × (is_disabled [] m.action ≡ false)) (described has_base members)
      by_base true = without_hidden members h
      by_base false = tt
  make_multi-MembersAre P has_base members (action ∷ hidden) h =
      by_rest (filter_union_type (action ∷ hidden) members) has_base
        (filter-All P (action ∷ hidden) members h)
    where
      by_rest :
          (rest : List ActionModel) (has_base : Bool)
          → All (λ m. P m × (is_disabled (action ∷ hidden) m.action ≡ false)) rest
          → MembersAre
              (λ m. P m × (is_disabled (action ∷ hidden) m.action ≡ false))
              (offer_remaining has_base rest)
      by_rest [] has_base k = tt
      by_rest (m ∷ rest) true k = k
      by_rest (m ∷ rest) false k = tt

  made-Permitted :
      (tool : Tool) (made : Made)
      → has_colon tool.name ≡ false
      → IsPermitted tool.name tool.destructive
      → MembersAre
          (λ m.
            IsListed (get_destructive_actions tool.union_members) m m.action
            × (is_disabled (hidden_of tool) m.action ≡ false))
          made
      → MadeIsPermitted tool made
  made-Permitted tool skipped h whole members = tt
  made-Permitted tool missing_description h whole members = tt
  made-Permitted tool single_action h whole members = whole
  made-Permitted tool (multi_action shown) h whole members = (whole, each shown members)
    where
      each :
          (shown : List ActionModel)
          → All
              (λ m.
                IsListed (get_destructive_actions tool.union_members) m m.action
                × (is_disabled (hidden_of tool) m.action ≡ false))
              shown
          → All (λ m. ActionIsPermitted tool.name m m.action) shown
      each [] k = tt
      each (m ∷ shown) k = (kept-Permitted tool m m.action h k.0.0 k.0.1, each shown k.1)

  make_mcp_tool-Permitted :
      (tool : Tool)
      → has_colon tool.name ≡ false
      → IsPermitted tool.name tool.destructive
      → MadeIsPermitted tool (make_mcp_tool tool (hidden_of tool))
  make_mcp_tool-Permitted tool h whole =
      made-Permitted tool (make_mcp_tool tool (hidden_of tool)) h whole
        (by_union tool.union_members refl)
    where
      by_union :
          (union : Option (List ActionModel))
          → tool.union_members ≡ union
          → MembersAre
              (λ m.
                IsListed (get_destructive_actions tool.union_members) m m.action
                × (is_disabled (hidden_of tool) m.action ≡ false))
              (make_mcp_tool tool (hidden_of tool))
      by_union none e = unfold make_mcp_tool in rw e tt
      by_union (some members) e =
          unfold make_mcp_tool get_destructive_actions in
          rw e (
            make_multi-MembersAre (λ m. IsListed (marked_actions members) m m.action)
              tool.has_base_description members
              (effective_disabled (actions_of tool.name (parse_disabled disabled_tools).1)
                (marked_actions members)
                (actions_of tool.name (parse_disabled enabled_destructive_tools).1))
              (marked-IsListed members (marked_actions members) (λ action h. h)))

  register_tool-Permitted :
      (tool : Tool)
      → has_colon tool.name ≡ false
      → MadeIsPermitted tool (register_tool disabled_tools enabled_destructive_tools tool)
  unfolding register_tool
  register_tool-Permitted tool h =
      elim (Bool-cases (mem tool.name (parse_disabled disabled_tools).0)) [
        | inl off ↦ rw off tt
        | inr free ↦
            elim (Bool-cases (
              tool.destructive
              && not (mem tool.name (parse_disabled enabled_destructive_tools).0))) [
                | inl shut ↦ rw (free, shut) tt
                | inr open_gate ↦
                    rw (free, open_gate)
                      (make_mcp_tool-Permitted tool h
                        (sym (mem-whole tool.name disabled_tools h) ∙ free, opted tool h open_gate))
              ]
      ]
    where
      opted :
          (tool : Tool)
          → has_colon tool.name ≡ false
          → (tool.destructive && not (mem tool.name (parse_disabled enabled_destructive_tools).0))
            ≡ false
          → (tool.destructive ≡ false) ⊎ (mem tool.name enabled_destructive_tools ≡ true)
      opted tool h open_gate = elim (Bool-cases tool.destructive) [
        | inr plain ↦ inl plain
        | inl marked ↦ inr (ground (arith, mem-whole tool.name enabled_destructive_tools h))
      ]

  -- Where no tool's name has a colon, every tool that is offered, and every action of it, has no entry
  -- that disables it, and has an entry that opts it in if it is marked destructive; the entry of an
  -- action is the tool's name, a colon and the action.
  pub register_tools-Permitted :
      (tools : List Tool) (offered : List (Tool × Made))
      → All (λ tool. has_colon tool.name ≡ false) tools
      → register_tools disabled_tools enabled_destructive_tools tools ≡ some offered
      → All (λ (t : Tool × Made). MadeIsPermitted t.0 t.1) offered
  unfolding register_tools
  register_tools-Permitted [] [] h e = tt
  register_tools-Permitted [] (t ∷ offered) h e = cc
  register_tools-Permitted (tool ∷ tools) offered h e =
      by_made (register_tool disabled_tools enabled_destructive_tools tool)
        (register_tools disabled_tools enabled_destructive_tools tools) offered
        (register_tool-Permitted tool h.0) (λ later. register_tools-Permitted tools later h.1) e
    where
      by_made :
          (made : Made) (rest : Option (List (Tool × Made))) (offered : List (Tool × Made))
          → MadeIsPermitted tool made
          → ((later : List (Tool × Made))
              → rest ≡ some later
              → All (λ (t : Tool × Made). MadeIsPermitted t.0 t.1) later)
          → add_made tool made rest ≡ some offered
          → All (λ (t : Tool × Made). MadeIsPermitted t.0 t.1) offered
      by_made missing_description rest offered p k e = cc
      by_made skipped rest offered p k e = k offered e
      by_made single_action none offered p k e = cc
      by_made single_action (some later) offered p k e =
          let same : (tool, single_action) ∷ later ≡ offered = ground arith in
          subst (All (λ (t : Tool × Made). MadeIsPermitted t.0 t.1)) same (p, k later refl)
      by_made (multi_action members) none offered p k e = cc
      by_made (multi_action members) (some later) offered p k e =
          let same : (tool, multi_action members) ∷ later ≡ offered = ground arith in
          subst (All (λ (t : Tool × Made). MadeIsPermitted t.0 t.1)) same (p, k later refl)
