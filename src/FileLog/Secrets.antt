-- ===== src/FileLog/Secrets.antt =====
-- Masking the secrets one by one.
use anki_mcp_server_addon.Prelude.{
  ℕ, zero, suc, ◌-◌, ◌≤◌, ◌≡◌, refl, sym, ap, ◌∙◌, subst, inl, inr, Bool, true, false, List, [],
  ◌∷◌, ◌++◌, length, All, if◌then◌else◌, drop, any, is_prefix, contains, Bool-cases, arith,
}
use anki_mcp_server_addon.Text.{text_eq, text_eq-eq}
use anki_mcp_server_addon.FileLog.{replacement, replace_from, mask_secrets}
use anki_mcp_server_addon.FileLog.Replace.{
  IsStarless, contains-replacement, Masks, Masks-refl, Masks-trans, Masks-keep, Masks-mark,
}

is_prefix-drop : (t xs : List ℕ) → is_prefix t xs ≡ true → xs ≡ t ++ drop (length t) xs
is_prefix-drop [] xs h = refl
is_prefix-drop (d ∷ t) [] h = cc
is_prefix-drop (d ∷ t) (c ∷ xs) h = ground (arith, is_prefix-drop t xs)

-- The text from a match on, where the secret has a first letter.
replaced :
    (d : ℕ) (t : List ℕ) (c : ℕ) (xs : List ℕ)
    → is_prefix (d ∷ t) (c ∷ xs) ≡ true
    → (d ∷ t) ++ drop (length (d ∷ t) - 1) xs ≡ c ∷ xs
replaced d t c xs h =
    let one_less : length (d ∷ t) - 1 ≡ length t = omega arith in
    ap (λ k. (d ∷ t) ++ drop k xs) one_less ∙ sym (is_prefix-drop (d ∷ t) (c ∷ xs) h)

replace_from-Masks :
    (d : ℕ) (t : List ℕ) (skip : ℕ) (xs : List ℕ)
    → Masks (drop skip xs) (replace_from (d ∷ t) skip xs)
unfolding replace_from
replace_from-Masks d t zero [] = Masks-refl []
replace_from-Masks d t (suc skip) [] = Masks-refl []
replace_from-Masks d t (suc skip) (c ∷ xs) = replace_from-Masks d t skip xs
replace_from-Masks d t zero (c ∷ xs) = elim (Bool-cases (is_prefix (d ∷ t) (c ∷ xs))) [
  | inr e ↦ rw e (Masks-keep c xs (replace_from (d ∷ t) zero xs) (replace_from-Masks d t zero xs))
  | inl e ↦ rw e (
      subst (λ z. Masks z (replacement ++ replace_from (d ∷ t) (length (d ∷ t) - 1) xs))
        (replaced d t c xs e)
        (Masks-mark (d ∷ t) _ _ (replace_from-Masks d t (length (d ∷ t) - 1) xs)))
]

is_false : (b : Bool) → (b ≡ true → ⊥) → b ≡ false
is_false true h = absurd (h refl)
is_false false h = refl

-- After `replace` a starless secret that is not in the mark is gone.
replace_from_clears :
    (d : ℕ) (t : List ℕ) (skip : ℕ) (xs : List ℕ)
    → IsStarless (d ∷ t)
    → contains (d ∷ t) replacement ≡ false
    → contains (d ∷ t) (replace_from (d ∷ t) skip xs) ≡ false
unfolding replace_from
replace_from_clears d t zero [] s apart = refl
replace_from_clears d t (suc skip) [] s apart = refl
replace_from_clears d t (suc skip) (c ∷ xs) s apart = replace_from_clears d t skip xs s apart
replace_from_clears d t zero (c ∷ xs) s apart = elim (Bool-cases (is_prefix (d ∷ t) (c ∷ xs))) [
  | inl e ↦ rw e (
      is_false (contains (d ∷ t) (replacement ++ replace_from (d ∷ t) (length (d ∷ t) - 1) xs)) λ h.
        let later = replace_from_clears d t (length (d ∷ t) - 1) xs s apart in
        let there =
          contains-replacement (d ∷ t) (replace_from (d ∷ t) (length (d ∷ t) - 1) xs) s apart h in
        cc)
  | inr e ↦ rw e (
      is_false (contains (d ∷ t) (c ∷ replace_from (d ∷ t) zero xs)) λ h.
        let later = replace_from_clears d t zero xs s apart in
        let kept =
          Masks-keep c xs (replace_from (d ∷ t) zero xs) (replace_from-Masks d t zero xs) in
        let matched = kept.prefixes (d ∷ t) s in
        elim (Bool-cases (is_prefix (d ∷ t) (c ∷ replace_from (d ∷ t) zero xs))) [
          | inl p ↦ let q = matched p in cc
          | inr p ↦ ground arith
        ])
]

-- What is registered has a first letter.
abbrev pub HasLetter : List ℕ → Type 0
HasLetter secret = 4 ≤ length secret

abbrev pub is_registered : List ℕ → List (List ℕ) → Bool
is_registered secret secrets = any (text_eq secret) secrets

mask_one : List ℕ → List ℕ → List ℕ
mask_one secret text = if contains secret text then replace_from secret 0 text else text

mask_one-Masks : (secret text : List ℕ) → HasLetter secret → Masks text (mask_one secret text)
unfolding mask_one
mask_one-Masks [] text long = absurd (omega arith)
mask_one-Masks (d ∷ t) text long = elim (Bool-cases (contains (d ∷ t) text)) [
  | inl e ↦ rw e (replace_from-Masks d t 0 text)
  | inr e ↦ rw e (Masks-refl text)
]

mask_one_clears :
    (secret text : List ℕ)
    → HasLetter secret
    → IsStarless secret
    → contains secret replacement ≡ false
    → contains secret (mask_one secret text) ≡ false
unfolding mask_one
mask_one_clears [] text long s apart = absurd (omega arith)
mask_one_clears (d ∷ t) text long s apart = elim (Bool-cases (contains (d ∷ t) text)) [
  | inl e ↦ rw e (replace_from_clears d t 0 text s apart)
  | inr e ↦ rw e e
]

pub mask_secrets-Masks :
    (secrets : List (List ℕ)) (text : List ℕ)
    → All HasLetter secrets
    → Masks text (mask_secrets secrets text)
unfolding mask_secrets mask_one
mask_secrets-Masks [] text long = Masks-refl text
mask_secrets-Masks (secret ∷ secrets) text (one, long) =
    Masks-trans (mask_one-Masks secret text one)
      (mask_secrets-Masks secrets (mask_one secret text) long)

-- A part that is gone stays gone.
pub stays_away :
    (t : List ℕ) {xs ys : List ℕ}
    → IsStarless t
    → contains t replacement ≡ false
    → Masks xs ys
    → contains t xs ≡ false
    → contains t ys ≡ false
stays_away t {xs} {ys} s apart m gone =
    is_false (contains t ys) λ h. let back = m.parts t s apart h in cc

pub mask_secrets_clears :
    (secret : List ℕ) (secrets : List (List ℕ)) (text : List ℕ)
    → All HasLetter secrets
    → is_registered secret secrets ≡ true
    → IsStarless secret
    → contains secret replacement ≡ false
    → contains secret (mask_secrets secrets text) ≡ false
unfolding mask_secrets mask_one
mask_secrets_clears secret [] text long h s apart = cc
mask_secrets_clears secret (next ∷ secrets) text (one, long) h s apart =
    elim (Bool-cases (text_eq secret next)) [
      | inl e ↦ stays_away secret s apart (mask_secrets-Masks secrets (mask_one next text) long) (
          rw (sym (text_eq-eq secret next e)) (
            mask_one_clears secret text (subst HasLetter (sym (text_eq-eq secret next e)) one) s
              apart))
      | inr e ↦ mask_secrets_clears secret secrets (mask_one next text) long (ground arith) s apart
    ]
