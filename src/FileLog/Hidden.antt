-- ===== src/FileLog/Hidden.antt =====
-- What the log never shows.
use anki_mcp_server_addon.Prelude.{
  ℕ, zero, suc, ◌+◌, ◌≤◌, ◌≡◌, ◌⊎◌, refl, sym, ap, ◌∙◌, subst, Bool, true, false, ◌||◌, Option,
  none, some, List, [], ◌∷◌, ◌++◌, length, All, take, drop, any, take-append-drop, drop-drop,
  contains, leb, leb→le, Bool-cases, Option-cases, inl, inr, arith,
}
use anki_mcp_server_addon.Text.{text_eq, text_eq_refl}
use anki_mcp_server_addon.FileLog.{
  replacement, register_secret, insert_by_length, sort_by_length, mask_secrets, match_bearer,
  mask_bearer_from, mask, LogRecord, formatted, mask_option, exception_of, filter_record,
}
use anki_mcp_server_addon.FileLog.Replace.{
  IsStarless, Masks, Masks-refl, Masks-keep, Masks-append, Masks-mark,
}
use anki_mcp_server_addon.FileLog.Secrets.{
  HasLetter, is_registered, stays_away, mask_secrets_clears,
}

insert-HasLetter :
    (secret : List ℕ) (secrets : List (List ℕ))
    → HasLetter secret
    → All HasLetter secrets
    → All HasLetter (insert_by_length secret secrets)
unfolding insert_by_length
insert-HasLetter secret [] one long = (one, tt)
insert-HasLetter secret (next ∷ secrets) one (first, long) =
    elim (Bool-cases (leb (length next) (length secret))) [
      | inl e ↦ rw e (one, (first, long))
      | inr e ↦ rw e (first, insert-HasLetter secret secrets one long)
    ]

sort-HasLetter :
    (secrets : List (List ℕ)) → All HasLetter secrets → All HasLetter (sort_by_length secrets)
unfolding sort_by_length
sort-HasLetter [] long = tt
sort-HasLetter (secret ∷ secrets) (one, long) =
    insert-HasLetter secret (sort_by_length secrets) one (sort-HasLetter secrets long)

is_registered-insert :
    (value secret : List ℕ) (secrets : List (List ℕ))
    → is_registered value (insert_by_length secret secrets) ≡ is_registered value (secret ∷ secrets)
unfolding insert_by_length
is_registered-insert value secret [] = refl
is_registered-insert value secret (next ∷ secrets) =
    ground (arith, is_registered-insert value secret secrets)

is_registered-sort :
    (value : List ℕ) (secrets : List (List ℕ))
    → is_registered value (sort_by_length secrets) ≡ is_registered value secrets
unfolding sort_by_length
is_registered-sort value [] = refl
is_registered-sort value (secret ∷ secrets) =
    is_registered-insert value secret (sort_by_length secrets)
    ∙ ap (λ b. text_eq value secret || b) (is_registered-sort value secrets)

-- A match, cut into what is kept, its token and the rest.
match_parts :
    (spaces token c : ℕ) (xs : List ℕ)
    → take (6 + spaces) (c ∷ xs)
        ++ (take token (drop (6 + spaces) (c ∷ xs)) ++ drop (5 + spaces + token) xs)
      ≡ c ∷ xs
match_parts spaces token c xs =
    let rest : drop (5 + spaces + token) xs ≡ drop token (drop (6 + spaces) (c ∷ xs)) =
      ap (λ m. drop m (c ∷ xs)) {x = suc (5 + spaces + token)} {y = 6 + spaces + token}
        (omega arith)
      ∙ sym (drop-drop (6 + spaces) token (c ∷ xs)) in
    ap (λ r. take (6 + spaces) (c ∷ xs) ++ (take token (drop (6 + spaces) (c ∷ xs)) ++ r)) rest
    ∙ ap (λ r. take (6 + spaces) (c ∷ xs) ++ r)
        (take-append-drop token (drop (6 + spaces) (c ∷ xs)))
    ∙ take-append-drop (6 + spaces) (c ∷ xs)

module _ (is_space : ℕ → Bool) where
  mask_bearer_from-Masks :
      (skip : ℕ) (xs : List ℕ) → Masks (drop skip xs) (mask_bearer_from is_space skip xs)
  unfolding mask_bearer_from
  mask_bearer_from-Masks zero [] = Masks-refl []
  mask_bearer_from-Masks (suc skip) [] = Masks-refl []
  mask_bearer_from-Masks (suc skip) (c ∷ xs) = mask_bearer_from-Masks skip xs
  mask_bearer_from-Masks zero (c ∷ xs) = elim (Option-cases (match_bearer is_space (c ∷ xs))) [
    | inl e ↦
        rw (e, mask_bearer_from)
          (Masks-keep c xs (mask_bearer_from is_space zero xs) (mask_bearer_from-Masks zero xs))
    | inr ((spaces, token), e) ↦
        rw (e, mask_bearer_from)
          (subst
            (λ z. Masks z (
              take (6 + spaces) (c ∷ xs)
              ++ (replacement ++ mask_bearer_from is_space (5 + spaces + token) xs)))
            (match_parts spaces token c xs)
            (Masks-append (take (6 + spaces) (c ∷ xs)) _ _ (
              Masks-mark (take token (drop (6 + spaces) (c ∷ xs))) _ _
                (mask_bearer_from-Masks (5 + spaces + token) xs))))
  ]

  mask_clears :
      (secret : List ℕ) (secrets : List (List ℕ)) (text : List ℕ)
      → All HasLetter secrets
      → is_registered secret secrets ≡ true
      → IsStarless secret
      → contains secret replacement ≡ false
      → contains secret (mask is_space secrets text) ≡ false
  unfolding mask
  mask_clears secret secrets text long known s apart =
      stays_away secret s apart
        (mask_bearer_from-Masks 0 (mask_secrets (sort_by_length secrets) text))
        (mask_secrets_clears secret (sort_by_length secrets) text (sort-HasLetter secrets long)
          (is_registered-sort secret secrets ∙ known) s apart)

-- The secrets after these registrations, the first of them first.
abbrev pub registered : List (Option (List ℕ)) → List (List ℕ)
registered [] = []
registered (value ∷ values) = register_secret value (registered values)

registered-HasLetter : (values : List (Option (List ℕ))) → All HasLetter (registered values)
unfolding register_secret
registered-HasLetter [] = tt
registered-HasLetter (none ∷ values) = registered-HasLetter values
registered-HasLetter (some value ∷ values) = elim (Bool-cases (leb 4 (length value))) [
  | inr e ↦ rw e (registered-HasLetter values)
  | inl e ↦ elim (Bool-cases (any (text_eq value) (registered values))) [
    | inl old ↦ rw (e, old) (registered-HasLetter values)
    | inr new ↦ rw (e, new) (leb→le _ _ e, registered-HasLetter values)
  ]
]

-- A secret of four letters or more is registered with the others.
abbrev pub IsAmong : List ℕ → List (Option (List ℕ)) → Type 0
IsAmong secret [] = ⊥
IsAmong secret (value ∷ values) = (value ≡ some secret) ⊎ IsAmong secret values

is_registered-register_secret :
    (secret : List ℕ) (secrets : List (List ℕ))
    → 4 ≤ length secret
    → is_registered secret (register_secret (some secret) secrets) ≡ true
unfolding register_secret
is_registered-register_secret secret secrets long = ground (arith, text_eq_refl secret)

is_registered-registered :
    (secret : List ℕ) (values : List (Option (List ℕ)))
    → 4 ≤ length secret
    → IsAmong secret values
    → is_registered secret (registered values) ≡ true
unfolding register_secret
is_registered-registered secret [] long among = absurd among
is_registered-registered secret (none ∷ values) long (inl e) = absurd cc
is_registered-registered secret (none ∷ values) long (inr among) =
    is_registered-registered secret values long among
is_registered-registered secret (some value ∷ values) long (inl e) =
    subst (λ v. is_registered secret (register_secret v (registered values)) ≡ true) (sym e)
      (is_registered-register_secret secret (registered values) long)
is_registered-registered secret (some value ∷ values) long (inr among) =
    ground (arith, is_registered-registered secret values long among)

abbrev pub Lacks : List ℕ → Option (List ℕ) → Type 0
Lacks secret none = Unit
Lacks secret (some text) = contains secret text ≡ false

-- Once a secret of four letters or more was registered that has no asterisk and does not occur in the
-- mark, no part of a record that is written contains it.
pub filter_record_hides :
    (is_space : ℕ → Bool) (secret : List ℕ) (values : List (Option (List ℕ))) (r : LogRecord)
    → 4 ≤ length secret
    → IsAmong secret values
    → IsStarless secret
    → contains secret replacement ≡ false
    → let written = filter_record is_space (registered values) r in
      (contains secret written.msg ≡ false)
      × Lacks secret written.exc_text
      × Lacks secret written.stack_info
unfolding filter_record
filter_record_hides is_space secret values r long among s apart = (
  hidden (formatted r r.message),
  lacking (exception_of r.exc_info r.exc_text),
  lacking r.stack_info,
)
  where
    hidden : (text : List ℕ) → contains secret (mask is_space (registered values) text) ≡ false
    hidden text =
        mask_clears is_space secret (registered values) text (registered-HasLetter values)
          (is_registered-registered secret values long among) s apart

    lacking :
        (text : Option (List ℕ)) → Lacks secret (mask_option is_space (registered values) text)
    lacking none = tt
    lacking (some text) = hidden text
