-- ===== src/HttpAuth/Header.antt =====
-- The header that the middleware looks at, and how it is cut.
use anki_mcp_server_addon.Prelude.{
  ℕ, String, str_eq, eq_iff, ◌≡◌, ◌≢◌, refl, ap, ◌∙◌, subst, Bool, true, false, ◌⊎◌, inl, inr,
  Option, none, some, List, [], ◌∷◌, ◌++◌, arith, All, Bool-cases, if◌then◌else◌,
}
use anki_mcp_server_addon.Text.{is_nil, lstrip}
use anki_mcp_server_addon.HttpAuth.{extract_authorization, split_word, split_once}

-- The value of the first header of that name.
abbrev pub IsFirst : List (String × List ℕ) → List ℕ → Type 0
IsFirst [] value = ⊥
IsFirst ((name, text) ∷ headers) value =
    ((name ≡ "authorization") × (text ≡ value)) ⊎ ((name ≢ "authorization") × IsFirst headers value)

pub extract-IsFirst :
    (headers : List (String × List ℕ)) (value : List ℕ)
    → extract_authorization headers ≡ some value
    → IsFirst headers value
unfolding extract_authorization
extract-IsFirst [] value h = cc
extract-IsFirst ((name, text) ∷ headers) value h = elim (Bool-cases (str_eq name "authorization")) [
  | inl e ↦ inl ((eq_iff name "authorization").0 e, ground arith)
  | inr e ↦ inr (
    λ same. ground (arith, eq_iff name "authorization"),
    extract-IsFirst headers value (ground arith),
  )
]

pub IsFirst-extract :
    (headers : List (String × List ℕ)) (value : List ℕ)
    → IsFirst headers value
    → extract_authorization headers ≡ some value
unfolding extract_authorization
IsFirst-extract [] value h = absurd h
IsFirst-extract ((name, text) ∷ headers) value (inl (same, e)) =
    ground (arith, eq_iff name "authorization")
IsFirst-extract ((name, text) ∷ headers) value (inr (other, h)) =
    ground (arith, eq_iff name "authorization", IsFirst-extract headers value h)

module _ (is_space : ℕ → Bool) where
  -- A word, a space, and a rest that is not all spaces.
  pub record Cut (text word rest : List ℕ) : Type 0 where
    pub gap : ℕ
    pub parts : text ≡ word ++ gap ∷ rest
    pub is_word : All (λ (c : ℕ). is_space c ≡ false) word
    pub is_gap : is_space gap ≡ true
    pub has_rest : is_nil (lstrip is_space rest) ≡ false

  abbrev Gap : List ℕ → Type 0
  Gap rest =
      (rest ≡ []) ⊎ ((gap : ℕ) × (more : List ℕ) × (rest ≡ gap ∷ more) × (is_space gap ≡ true))

  abbrev Splits : List ℕ → List ℕ × List ℕ → Type 0
  Splits text (word, rest) =
      (text ≡ word ++ rest) × All (λ (c : ℕ). is_space c ≡ false) word × Gap rest

  split_word-Splits : (text : List ℕ) → Splits text (split_word is_space text)
  unfolding split_word
  split_word-Splits [] = (refl, tt, inl refl)
  split_word-Splits (c ∷ text) = elim (Bool-cases (is_space c)) [
    | inl e ↦ rw e (refl, tt, inr (c, text, refl, e))
    | inr e ↦
        let (parts, clean, gap) = split_word-Splits text in
        rw e (ap (λ t. c ∷ t) parts, (e, clean), gap)
  ]

  abbrev cut_at : List ℕ × List ℕ → Option (List ℕ × List ℕ)
  cut_at (word, rest) =
      if is_nil (lstrip is_space rest) then none else some (word, lstrip is_space rest)

  cut_at-Cut :
      (text word more : List ℕ) (gap : ℕ) (scheme token : List ℕ)
      → text ≡ word ++ gap ∷ more
      → All (λ (c : ℕ). is_space c ≡ false) word
      → is_space gap ≡ true
      → cut_at (word, gap ∷ more) ≡ some (scheme, token)
      → (rest : List ℕ) × Cut text scheme rest × (token ≡ lstrip is_space rest)
  unfolding lstrip
  cut_at-Cut text word more gap scheme token parts clean space h =
      elim (Bool-cases (is_nil (lstrip is_space more))) [
        | inl n ↦ absurd (ground (arith, space))
        | inr n ↦
            let same : word ≡ scheme = ground (arith, space) in
            (
              more,
              subst (λ w. Cut text w more) same
                  (record {
                    gap = gap;
                    parts = parts;
                    is_word = clean;
                    is_gap = space;
                    has_rest = n;
                  }),
              ground (arith, space),
            )
      ]

  Splits-Cut :
      (text : List ℕ) (pair : List ℕ × List ℕ) (scheme token : List ℕ)
      → Splits text pair
      → cut_at pair ≡ some (scheme, token)
      → (rest : List ℕ) × Cut text scheme rest × (token ≡ lstrip is_space rest)
  unfolding lstrip
  Splits-Cut text (word, rest) scheme token (parts, clean, inl e) h =
      absurd (none_some (subst (λ r. cut_at (word, r) ≡ some (scheme, token)) e h))
    where
      none_some : cut_at (word, []) ≡ some (scheme, token) → ⊥
      none_some f = unfold lstrip in cc
  Splits-Cut text (word, rest) scheme token (parts, clean, inr (gap, more, e, space)) h =
      cut_at-Cut text word more gap scheme token (parts ∙ ap (λ r. word ++ r) e) clean space
        (subst (λ r. cut_at (word, r) ≡ some (scheme, token)) e h)

  pub split_once-Cut :
      (text scheme token : List ℕ)
      → split_once is_space text ≡ some (scheme, token)
      → (rest : List ℕ) × Cut text scheme rest × (token ≡ lstrip is_space rest)
  unfolding split_once
  split_once-Cut text scheme token h =
      Splits-Cut text (split_word is_space text) scheme token (split_word-Splits text) h

  split_word-append :
      (word : List ℕ) (gap : ℕ) (rest : List ℕ)
      → All (λ (c : ℕ). is_space c ≡ false) word
      → is_space gap ≡ true
      → split_word is_space (word ++ gap ∷ rest) ≡ (word, gap ∷ rest)
  unfolding split_word
  split_word-append [] gap rest clean space = rw space refl
  split_word-append (c ∷ word) gap rest (e, clean) space =
      rw (e, split_word-append word gap rest clean space) refl

  pub Cut-split_once :
      (text word rest : List ℕ)
      → Cut text word rest
      → split_once is_space text ≡ some (word, lstrip is_space rest)
  unfolding split_once lstrip
  Cut-split_once text word rest p =
      rw (p.parts, split_word-append word p.gap rest p.is_word p.is_gap, p.is_gap, p.has_rest) refl
