-- ===== src/FileLog/Replace.antt =====
-- Texts in which parts were replaced by the mark: what they still contain.
use anki_mcp_server_addon.Prelude.{
  ℕ, ◌≡◌, refl, ◌⊎◌, inl, inr, true, false, List, [], ◌∷◌, ◌++◌, any, is_prefix, contains, codes,
  ◌==◌, Bool-cases, arith,
}
use anki_mcp_server_addon.FileLog.{replacement}

-- No asterisk occurs, which the mark begins and ends with.
abbrev pub IsStarless : List ℕ → Type 0
IsStarless text = any (λ c. c == 42) text ≡ false

is_prefix-star :
    (t r ys : List ℕ) → IsStarless t → is_prefix t (r ++ (42 ∷ ys)) ≡ true → is_prefix t r ≡ true
is_prefix-star [] r ys s h = refl
is_prefix-star (d ∷ t) [] ys s h = ground arith
is_prefix-star (d ∷ t) (c ∷ r) ys s h = ground (arith, is_prefix-star t r ys)

contains-star :
    (t r ys : List ℕ)
    → IsStarless t
    → contains t (r ++ (42 ∷ ys)) ≡ true
    → (contains t r ≡ true) ⊎ (contains t ys ≡ true)
contains-star [] [] ys s h = inl refl
contains-star (d ∷ t) [] ys s h = ground arith
contains-star t (c ∷ r) ys s h = elim (Bool-cases (is_prefix t (c ∷ (r ++ (42 ∷ ys))))) [
  | inl e ↦ inl (rw (is_prefix-star t (c ∷ r) ys s e) refl)
  | inr e ↦ elim (contains-star t r ys s (ground arith)) [
    | inl there ↦ inl (ground arith)
    | inr after ↦ inr after
  ]
]

is_prefix-append : (t r ys : List ℕ) → is_prefix t r ≡ true → is_prefix t (r ++ ys) ≡ true
is_prefix-append [] r ys h = refl
is_prefix-append (d ∷ t) [] ys h = cc
is_prefix-append (d ∷ t) (c ∷ r) ys h = ground (arith, is_prefix-append t r ys)

contains-append_left : (t r ys : List ℕ) → contains t r ≡ true → contains t (r ++ ys) ≡ true
contains-append_left t [] [] h = h
contains-append_left t [] (c ∷ ys) h = ground (arith, is_prefix-append t [] (c ∷ ys))
contains-append_left t (c ∷ r) ys h = elim (Bool-cases (is_prefix t (c ∷ r))) [
  | inl e ↦ rw (is_prefix-append t (c ∷ r) ys e) refl
  | inr e ↦ ground (arith, contains-append_left t r ys)
]

contains-append : (t r ys : List ℕ) → contains t ys ≡ true → contains t (r ++ ys) ≡ true
contains-append t [] ys h = h
contains-append t (c ∷ r) ys h = ground (arith, contains-append t r ys)

abbrev before_star : List ℕ
before_star = codes "***REDACTED**"

-- A starless text that is not in the mark is not in the mark followed by a text without it.
pub contains-replacement :
    (t ys : List ℕ)
    → IsStarless t
    → contains t replacement ≡ false
    → contains t (replacement ++ ys) ≡ true
    → contains t ys ≡ true
contains-replacement t ys s apart h = elim (contains-star t before_star ys s h) [
  | inl there ↦ absurd (let here = contains-append_left t before_star (42 ∷ []) there in cc)
  | inr after ↦ after
]

-- Replacing parts of a text by the mark brings in no starless text.
pub record Masks (xs ys : List ℕ) : Type 0 where
  pub prefixes : (t : List ℕ) → IsStarless t → is_prefix t ys ≡ true → is_prefix t xs ≡ true
  pub parts :
      (t : List ℕ)
      → IsStarless t
      → contains t replacement ≡ false
      → contains t ys ≡ true
      → contains t xs ≡ true

pub Masks-refl : (xs : List ℕ) → Masks xs xs
Masks-refl xs = record { prefixes = λ t s h. h; parts = λ t s apart h. h }

pub Masks-trans : {xs ys zs : List ℕ} → Masks xs ys → Masks ys zs → Masks xs zs
Masks-trans m n = record {
  prefixes = λ t s h. m.prefixes t s (n.prefixes t s h);
  parts = λ t s apart h. m.parts t s apart (n.parts t s apart h);
}

keep_prefix :
    (c : ℕ) (xs ys : List ℕ)
    → Masks xs ys
    → (t : List ℕ) → IsStarless t
    → is_prefix t (c ∷ ys) ≡ true
    → is_prefix t (c ∷ xs) ≡ true
keep_prefix c xs ys m [] s h = refl
keep_prefix c xs ys m (d ∷ t) s h = ground (arith, m.prefixes t)

pub Masks-keep : (c : ℕ) (xs ys : List ℕ) → Masks xs ys → Masks (c ∷ xs) (c ∷ ys)
Masks-keep c xs ys m = record {
  prefixes = keep_prefix c xs ys m;
  parts = λ t s apart h. elim (Bool-cases (is_prefix t (c ∷ ys))) [
    | inl e ↦ rw (keep_prefix c xs ys m t s e) refl
    | inr e ↦ ground (arith, m.parts t)
  ];
}

pub Masks-append : (zs xs ys : List ℕ) → Masks xs ys → Masks (zs ++ xs) (zs ++ ys)
Masks-append [] xs ys m = m
Masks-append (c ∷ zs) xs ys m = Masks-keep c (zs ++ xs) (zs ++ ys) (Masks-append zs xs ys m)

mark_prefix :
    (zs ys t : List ℕ)
    → IsStarless t
    → is_prefix t (replacement ++ ys) ≡ true
    → is_prefix t zs ≡ true
mark_prefix zs ys [] s h = refl
mark_prefix zs ys (d ∷ t) s h = ground arith

pub Masks-mark : (old xs ys : List ℕ) → Masks xs ys → Masks (old ++ xs) (replacement ++ ys)
Masks-mark old xs ys m = record {
  prefixes = mark_prefix (old ++ xs) ys;
  parts = λ t s apart h.
      contains-append t old xs (m.parts t s apart (contains-replacement t ys s apart h));
}
