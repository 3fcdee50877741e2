-- ===== src/Text.antt =====
-- Python's `str` methods that the program uses, on lists of code points. `is_space` stands for the
-- table behind `str.isspace`.
use anki_mcp_server_addon.Prelude.{
  ℕ, ◌≡◌, refl, ap, sym, ◌∙◌, subst, Bool, true, false, ◌&&◌, inl, inr, List, [], ◌∷◌, ◌++◌, arith,
  Bool-cases, ◌==◌, if◌then◌else◌,
}

abbrev pub is_nil : List ℕ → Bool
is_nil [] = true
is_nil (c ∷ text) = false

-- Equality of texts.
abbrev pub text_eq : List ℕ → List ℕ → Bool
text_eq [] [] = true
text_eq [] (d ∷ ys) = false
text_eq (c ∷ xs) [] = false
text_eq (c ∷ xs) (d ∷ ys) = c == d && text_eq xs ys

pub text_eq-eq : (xs ys : List ℕ) → text_eq xs ys ≡ true → xs ≡ ys
text_eq-eq [] [] h = refl
text_eq-eq [] (d ∷ ys) h = cc
text_eq-eq (c ∷ xs) [] h = cc
text_eq-eq (c ∷ xs) (d ∷ ys) h = ground (arith, text_eq-eq xs ys)

pub text_eq_refl : (xs : List ℕ) → text_eq xs xs ≡ true
text_eq_refl [] = refl
text_eq_refl (c ∷ xs) = ground (arith, text_eq_refl xs)

module _ (is_space : ℕ → Bool) where
  unfoldable pub lstrip : List ℕ → List ℕ
  lstrip [] = []
  lstrip (c ∷ text) = if is_space c then lstrip text else c ∷ text

  unfoldable pub rstrip : List ℕ → List ℕ
  rstrip [] = []
  rstrip (c ∷ text) = let rest = rstrip text in if is_nil rest && is_space c then [] else c ∷ rest

  unfoldable pub strip : List ℕ → List ℕ
  unfolding lstrip rstrip
  strip text = rstrip (lstrip text)

  -- A text that is empty or starts with no space.
  abbrev pub IsLeftClean : List ℕ → Type 0
  IsLeftClean [] = Unit
  IsLeftClean (c ∷ text) = is_space c ≡ false

  pub lstrip-IsLeftClean : (text : List ℕ) → IsLeftClean (lstrip text)
  unfolding lstrip
  lstrip-IsLeftClean [] = tt
  lstrip-IsLeftClean (c ∷ text) = elim (Bool-cases (is_space c)) [
    | inl e ↦ rw e (lstrip-IsLeftClean text)
    | inr e ↦ rw e e
  ]

  pub lstrip_clean : (text : List ℕ) → IsLeftClean text → lstrip text ≡ text
  unfolding lstrip
  lstrip_clean [] h = refl
  lstrip_clean (c ∷ text) h = rw h

  pub rstrip-IsLeftClean : (text : List ℕ) → IsLeftClean text → IsLeftClean (rstrip text)
  unfolding rstrip
  rstrip-IsLeftClean [] h = tt
  rstrip-IsLeftClean (c ∷ text) h = elim (Bool-cases (is_nil (rstrip text))) [
    | inl e ↦ rw (e, h) h
    | inr e ↦ rw e h
  ]

  pub rstrip_idem : (text : List ℕ) → rstrip (rstrip text) ≡ rstrip text
  unfolding rstrip
  rstrip_idem [] = refl
  rstrip_idem (c ∷ text) = ground (arith, rstrip_idem text)

  pub strip_idem : (text : List ℕ) → strip (strip text) ≡ strip text
  unfolding strip
  strip_idem text =
      ap rstrip (
        lstrip_clean (rstrip (lstrip text))
          (rstrip-IsLeftClean (lstrip text) (lstrip-IsLeftClean text)))
      ∙ rstrip_idem (lstrip text)

  -- What `strip` leaves alone has no space at either end.
  pub strip_fixed : (text : List ℕ) → strip text ≡ text → IsLeftClean text × (rstrip text ≡ text)
  unfolding strip
  strip_fixed text h =
      let clean : IsLeftClean text =
        subst IsLeftClean h (rstrip-IsLeftClean (lstrip text) (lstrip-IsLeftClean text)) in
      (clean, ap rstrip (sym (lstrip_clean text clean)) ∙ h)

  pub strip_clean : (text : List ℕ) → IsLeftClean text → rstrip text ≡ text → strip text ≡ text
  unfolding strip
  strip_clean text clean h = ap rstrip (lstrip_clean text clean) ∙ h

  append-nonempty :
      (before : List ℕ) (c : ℕ) (text : List ℕ) → is_nil (before ++ (c ∷ text)) ≡ false
  append-nonempty [] c text = refl
  append-nonempty (d ∷ before) c text = refl

  -- A text that ends in no space keeps its end behind any other text.
  pub rstrip-append :
      (before : List ℕ) (c : ℕ) (text : List ℕ)
      → rstrip (c ∷ text) ≡ c ∷ text
      → rstrip (before ++ (c ∷ text)) ≡ before ++ (c ∷ text)
  unfolding rstrip
  rstrip-append [] c text h = h
  rstrip-append (d ∷ before) c text h =
      rw (rstrip-append before c text h, append-nonempty before c text)
