-- ===== src/Media/Filename/Safe.antt =====
-- What a sanitized filename is.
use anki_mcp_server_addon.Prelude.{
  ℕ, zero, suc, ◌≤◌, ◌<◌, ◌≡◌, ◌≢◌, refl, subst, ◌⊎◌, Bool, true, false, ◌||◌, inl, inr, List, [],
  ◌∷◌, arith, length, any, ◌==◌, Bool-cases, codes,
}
use anki_mcp_server_addon.Text.{is_nil, text_eq, lstrip, rstrip, strip, strip_idem, text_eq-eq}
use anki_mcp_server_addon.Media.Filename.{
  slash, backslash, unnamed, without, has_dots, drop_dots, drop_all_dots, basename, named,
  without_separators, sanitize_media_filename,
}

-- A character that a sanitized filename never has.
abbrev pub is_bad : ℕ → Bool
is_bad c = c == 0 || c == slash || c == backslash

any-without_bad :
    (name : List ℕ) → any is_bad (without backslash (without slash (without 0 name))) ≡ false
unfolding without
any-without_bad [] = refl
any-without_bad (c ∷ name) = ground (arith, any-without_bad name)

length-drop_dots : (name : List ℕ) → length (drop_dots name) ≤ length name
length-drop_dots [] = omega arith
length-drop_dots (c ∷ []) = omega arith
length-drop_dots (c ∷ d ∷ name) = ground (arith, length-drop_dots (d ∷ name), length-drop_dots name)

drop_dots_shorter : (name : List ℕ) → has_dots name ≡ true → length (drop_dots name) < length name
drop_dots_shorter [] h = cc
drop_dots_shorter (c ∷ []) h = cc
drop_dots_shorter (c ∷ d ∷ name) h =
    ground (arith, length-drop_dots name, drop_dots_shorter (d ∷ name))

-- The fuel is enough.
has_dots-drop_all_dots :
    (fuel : ℕ) (name : List ℕ) → length name ≤ fuel → has_dots (drop_all_dots fuel name) ≡ false
unfolding drop_all_dots
has_dots-drop_all_dots zero [] enough = refl
has_dots-drop_all_dots zero (c ∷ name) enough = absurd (omega arith)
has_dots-drop_all_dots (suc fuel) name enough = elim (Bool-cases (has_dots name)) [
  | inl e ↦
      rw e (has_dots-drop_all_dots fuel (drop_dots name) (omega (arith, drop_dots_shorter name e)))
  | inr e ↦ rw e e
]

any-drop_dots : (name : List ℕ) → any is_bad name ≡ false → any is_bad (drop_dots name) ≡ false
any-drop_dots [] h = refl
any-drop_dots (c ∷ []) h = h
any-drop_dots (c ∷ d ∷ name) h = ground (arith, any-drop_dots (d ∷ name), any-drop_dots name)

any-drop_all_dots :
    (fuel : ℕ) (name : List ℕ)
    → any is_bad name ≡ false
    → any is_bad (drop_all_dots fuel name) ≡ false
unfolding drop_all_dots
any-drop_all_dots zero name h = h
any-drop_all_dots (suc fuel) name h =
    ground (arith, any-drop_all_dots fuel (drop_dots name) (any-drop_dots name h))

-- Without a bad character there is no directory to take off.
basename_clean : (name : List ℕ) → any is_bad name ≡ false → basename name ≡ name
unfolding basename
basename_clean [] h = refl
basename_clean (c ∷ name) h = ground (arith, any_slash name)
  where
    any_slash : (name : List ℕ) → any is_bad name ≡ false → any (λ d. d == slash) name ≡ false
    any_slash [] h = refl
    any_slash (c ∷ name) h = ground (arith, any_slash name)

-- A name that is safe inside a folder: not empty, not the folder itself, with no NUL, no separator
-- and no way up.
pub record IsSafe (name : List ℕ) : Type 0 where
  pub nonempty : name ≢ []
  pub not_folder : name ≢ codes "."
  pub no_bad : any is_bad name ≡ false
  pub no_dots : has_dots name ≡ false

unnamed-IsSafe : IsSafe unnamed
unnamed-IsSafe = record { nonempty = λ e. cc; not_folder = λ e. cc; no_bad = refl; no_dots = refl }

named-IsSafe :
    (name : List ℕ) → any is_bad name ≡ false → has_dots name ≡ false → IsSafe (named name)
unfolding named
named-IsSafe [] bad dots = unnamed-IsSafe
named-IsSafe (c ∷ name) bad dots = elim (Bool-cases (text_eq (c ∷ name) (codes "."))) [
  | inl e ↦ rw e unnamed-IsSafe
  | inr e ↦ elim (Bool-cases (text_eq (c ∷ name) (codes ".."))) [
    | inl e' ↦ rw (e, e') unnamed-IsSafe
    | inr e' ↦
        rw (e, e')
          (record { nonempty = λ empty. cc; not_folder = λ dot. cc; no_bad = bad; no_dots = dots })
  ]
]

named_cases : (name : List ℕ) → (named name ≡ unnamed) ⊎ (named name ≡ name)
unfolding named
named_cases name =
    elim (Bool-cases (is_nil name || text_eq name (codes ".") || text_eq name (codes ".."))) [
      | inl e ↦ inl (rw e)
      | inr e ↦ inr (rw e)
    ]

named_safe : (name : List ℕ) → IsSafe name → named name ≡ name
unfolding named
named_safe [] h = absurd (h.nonempty refl)
named_safe (c ∷ name) h = elim (Bool-cases (text_eq (c ∷ name) (codes "."))) [
  | inl e ↦ absurd (h.not_folder (text_eq-eq (c ∷ name) (codes ".") e))
  | inr e ↦ elim (Bool-cases (text_eq (c ∷ name) (codes ".."))) [
    | inl e' ↦ absurd (up h.no_dots (text_eq-eq (c ∷ name) (codes "..") e'))
    | inr e' ↦ rw (e, e')
  ]
]
  where
    up : {text : List ℕ} → has_dots text ≡ false → text ≢ codes ".."
    up h e = let raised : has_dots (codes "..") ≡ false = subst (λ t. has_dots t ≡ false) e h in cc

module _ (is_space : ℕ → Bool) where
  any-lstrip : (name : List ℕ) → any is_bad name ≡ false → any is_bad (lstrip is_space name) ≡ false
  unfolding lstrip
  any-lstrip [] h = refl
  any-lstrip (c ∷ name) h = ground (arith, any-lstrip name)

  any-rstrip : (name : List ℕ) → any is_bad name ≡ false → any is_bad (rstrip is_space name) ≡ false
  unfolding rstrip
  any-rstrip [] h = refl
  any-rstrip (c ∷ name) h = ground (arith, any-rstrip name)

  has_dots-lstrip :
      (name : List ℕ) → has_dots name ≡ false → has_dots (lstrip is_space name) ≡ false
  unfolding lstrip
  has_dots-lstrip [] h = refl
  has_dots-lstrip (c ∷ []) h = ground arith
  has_dots-lstrip (c ∷ d ∷ name) h = ground (arith, has_dots-lstrip (d ∷ name))

  has_dots-rstrip :
      (name : List ℕ) → has_dots name ≡ false → has_dots (rstrip is_space name) ≡ false
  unfolding rstrip
  has_dots-rstrip [] h = refl
  has_dots-rstrip (c ∷ []) h = ground arith
  has_dots-rstrip (c ∷ d ∷ name) h = ground (arith, has_dots-rstrip (d ∷ name))

  -- The text before the guard.
  abbrev stripped : List ℕ → List ℕ
  stripped filename =
      let name = without_separators filename in
      strip is_space (basename (drop_all_dots (length name) name))

  stripped-safe :
      (filename : List ℕ)
      → (any is_bad (stripped filename) ≡ false) × (has_dots (stripped filename) ≡ false)
  unfolding strip
  stripped-safe filename =
      let name = without_separators filename in
      let rest = drop_all_dots (length name) name in
      let clean = any-drop_all_dots (length name) name (any-without_bad filename) in
      let dotless = has_dots-drop_all_dots (length name) name (omega arith) in
      rw (basename_clean rest clean) (
        any-rstrip (lstrip is_space rest) (any-lstrip rest clean),
        has_dots-rstrip (lstrip is_space rest) (has_dots-lstrip rest dotless),
      )

  -- Whatever is given, the sanitized name is not empty, not a single full stop, and has no NUL, no
  -- slash, no backslash and no two full stops in a row.
  pub sanitize_media_filename-IsSafe :
      (filename : List ℕ) → IsSafe (sanitize_media_filename is_space filename)
  unfolding sanitize_media_filename
  sanitize_media_filename-IsSafe filename =
      let (bad, dots) = stripped-safe filename in named-IsSafe (stripped filename) bad dots

  without-bad_clean : (name : List ℕ) → any is_bad name ≡ false → without_separators name ≡ name
  unfolding without
  without-bad_clean [] h = refl
  without-bad_clean (c ∷ name) h = ground (arith, without-bad_clean name)

  drop_all_dots_clean :
      (fuel : ℕ) (name : List ℕ) → has_dots name ≡ false → drop_all_dots fuel name ≡ name
  unfolding drop_all_dots
  drop_all_dots_clean zero name h = refl
  drop_all_dots_clean (suc fuel) name h = rw h

  -- A clean text is only stripped and guarded.
  sanitize_clean :
      (name : List ℕ)
      → IsSafe name
      → strip is_space name ≡ name
      → sanitize_media_filename is_space name ≡ name
  unfolding sanitize_media_filename
  sanitize_clean name h ends = rw (without-bad_clean name h.no_bad) (
      rw (drop_all_dots_clean (length name) name h.no_dots)
        (rw (basename_clean name h.no_bad) (rw ends (named_safe name h))))

  strip-unnamed : is_space b'u' ≡ false → is_space b'd' ≡ false → strip is_space unnamed ≡ unnamed
  unfolding strip lstrip rstrip
  strip-unnamed first last = ground (arith, first, last)

  -- Sanitizing again changes nothing, where the first and the last letter of the name that stands in
  -- for an empty one are no spaces.
  pub sanitize_media_filename_idem :
      (filename : List ℕ)
      → is_space b'u' ≡ false
      → is_space b'd' ≡ false
      → sanitize_media_filename is_space (sanitize_media_filename is_space filename)
        ≡ sanitize_media_filename is_space filename
  unfolding sanitize_media_filename strip
  sanitize_media_filename_idem filename first last =
      sanitize_clean (sanitize_media_filename is_space filename)
        (sanitize_media_filename-IsSafe filename)
        (elim (named_cases (stripped filename)) [
          | inl stands_in ↦ rw stands_in (strip-unnamed first last)
          | inr kept ↦ rw kept (
              strip_idem is_space (
                basename (
                  drop_all_dots (length (without_separators filename))
                    (without_separators filename))))
        ])
