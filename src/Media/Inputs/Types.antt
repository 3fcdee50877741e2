-- ===== src/Media/Inputs/Types.antt =====
-- The types of files that are accepted.
use anki_mcp_server_addon.Prelude.{
  ℕ, ◌≡◌, refl, sym, Bool, true, false, ◌||◌, ◌⊎◌, inl, inr, Option, none, some, List, [], ◌∷◌,
  ◌++◌, arith, any, is_prefix, Bool-cases, codes,
}
use anki_mcp_server_addon.Text.{text_eq, text_eq-eq, text_eq_refl}
use anki_mcp_server_addon.Media.Inputs.{is_allowed, media_prefixes}

pub is_prefix-append : (xs ys : List ℕ) → is_prefix xs (xs ++ ys) ≡ true
is_prefix-append [] ys = refl
is_prefix-append (c ∷ xs) ys = ground (arith, is_prefix-append xs ys)

pub split_prefix : (xs ys : List ℕ) → is_prefix xs ys ≡ true → (rest : List ℕ) × (ys ≡ xs ++ rest)
split_prefix [] ys h = (ys, refl)
split_prefix (c ∷ xs) [] h = cc
split_prefix (c ∷ xs) (d ∷ ys) h =
    let (rest, e) = split_prefix xs ys (ground arith) in
    (rest, (let same : c ≡ d = ground arith in cc (same, e)))

-- Membership of a text.
abbrev pub IsOneOf : List ℕ → List (List ℕ) → Type 0
IsOneOf text [] = ⊥
IsOneOf text (other ∷ texts) = (text ≡ other) ⊎ IsOneOf text texts

any-IsOneOf :
    (text : List ℕ) (texts : List (List ℕ)) → any (text_eq text) texts ≡ true → IsOneOf text texts
any-IsOneOf text [] h = cc
any-IsOneOf text (other ∷ texts) h = elim (Bool-cases (text_eq text other)) [
  | inl e ↦ inl (text_eq-eq text other e)
  | inr e ↦ inr (any-IsOneOf text texts (ground arith))
]

IsOneOf-any :
    (text : List ℕ) (texts : List (List ℕ)) → IsOneOf text texts → any (text_eq text) texts ≡ true
IsOneOf-any text [] h = absurd h
IsOneOf-any text (other ∷ texts) (inl e) = rw e (ground (arith, text_eq_refl other))
IsOneOf-any text (other ∷ texts) (inr h) = ground (arith, IsOneOf-any text texts h)

abbrev pub StartsWith : List ℕ → List ℕ → Type 0
StartsWith start text = (rest : List ℕ) × (text ≡ start ++ rest)

module _ (guess_type : List ℕ → Option (List ℕ)) where
  -- One of the extra types, or a type that starts as an image, a sound or a film.
  abbrev pub IsMediaType : List (List ℕ) → List ℕ → Type 0
  IsMediaType extra mime_type =
      IsOneOf mime_type extra
      ⊎ StartsWith (codes "image/") mime_type
      ⊎ StartsWith (codes "audio/") mime_type
      ⊎ StartsWith (codes "video/") mime_type

  -- A type is guessed for the name, and is one of these.
  abbrev pub IsMedia : List (List ℕ) → List ℕ → Type 0
  IsMedia extra name =
      (mime_type : List ℕ) × (guess_type name ≡ some mime_type) × IsMediaType extra mime_type

  pub allowed-IsMedia :
      (extra : List (List ℕ)) (name : List ℕ) (guessed : Option (List ℕ))
      → guess_type name ≡ guessed
      → is_allowed extra guessed ≡ true
      → IsMedia extra name
  unfolding is_allowed
  allowed-IsMedia extra name none e h = cc
  allowed-IsMedia extra name (some mime) e h = (
    mime,
    e,
    elim (Bool-cases (any (text_eq mime) extra)) [
      | inl listed ↦ inl (any-IsOneOf mime extra listed)
      | inr unlisted ↦ elim (Bool-cases (is_prefix (codes "image/") mime)) [
        | inl image ↦ inr (inl (split_prefix (codes "image/") mime image))
        | inr no_image ↦ elim (Bool-cases (is_prefix (codes "audio/") mime)) [
          | inl audio ↦ inr (inr (inl (split_prefix (codes "audio/") mime audio)))
          | inr no_audio ↦ elim (Bool-cases (is_prefix (codes "video/") mime)) [
            | inl video ↦ inr (inr (inr (split_prefix (codes "video/") mime video)))
            | inr no_video ↦
                absurd (cc (sym h, none_fits mime extra unlisted no_image no_audio no_video))
          ]
        ]
      ]
    ],
  )
    where
      none_fits :
          (m : List ℕ) (listed : List (List ℕ))
          → any (text_eq m) listed ≡ false
          → is_prefix (codes "image/") m ≡ false
          → is_prefix (codes "audio/") m ≡ false
          → is_prefix (codes "video/") m ≡ false
          → is_allowed listed (some m) ≡ false
      none_fits m listed a b c d = unfold is_allowed in rw (a, b, c, d) refl

  pub IsMedia-allowed :
      (extra : List (List ℕ)) (name : List ℕ)
      → IsMedia extra name
      → is_allowed extra (guess_type name) ≡ true
  unfolding is_allowed
  IsMedia-allowed extra name (mime, e, inl listed) = rw (e, IsOneOf-any mime extra listed) refl
  IsMedia-allowed extra name (mime, e, inr kind) =
      rw e (or_right (any (text_eq mime) extra) (starts kind))
    where
      or_right : (a : Bool) {b : Bool} → b ≡ true → (a || b) ≡ true
      or_right true h = refl
      or_right false h = h

      starts :
          StartsWith (codes "image/") mime
            ⊎ StartsWith (codes "audio/") mime
            ⊎ StartsWith (codes "video/") mime
          → any (λ start. is_prefix start mime) media_prefixes ≡ true
      starts (inl (rest, e)) = rw e refl
      starts (inr (inl (rest, e))) = rw e refl
      starts (inr (inr (rest, e))) = rw e refl
