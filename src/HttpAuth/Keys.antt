-- ===== src/HttpAuth/Keys.antt =====
-- Which keys open the transport.
use anki_mcp_server_addon.Prelude.{
  ℕ, String, str_eq, eq_iff, ◌≡◌, ◌≢◌, refl, ap, sym, ◌∙◌, Bool, true, false, ◌⊎◌, ◌↔◌, inl, inr,
  Option, none, some, List, [], ◌∷◌, ◌++◌, arith, Bool-cases, codes,
}
use anki_mcp_server_addon.Text.{
  text_eq, text_eq-eq, text_eq_refl, lstrip, rstrip, strip, strip_idem, strip_fixed, strip_clean,
  rstrip-append, lstrip_clean, lstrip-IsLeftClean,
}
use anki_mcp_server_addon.HttpAuth.Header.{
  IsFirst, extract-IsFirst, IsFirst-extract, Cut, split_once-Cut, Cut-split_once,
}
use anki_mcp_server_addon.HttpAuth.{
  bearer, surrounding_whitespace, calls_app, extract_authorization, split_word, split_once,
  presents, is_authorized, middleware, validate_http_api_key,
}

module _ (is_space : ℕ → Bool) (lower : List ℕ → List ℕ) where
  -- What an accepted header says: behind any spaces, a word, a space, and the rest of the text.
  pub record Presents (header api_key : List ℕ) : Type 0 where
    pub scheme : List ℕ
    pub rest : List ℕ
    pub cut : Cut is_space (strip is_space header) scheme rest
    pub is_bearer : lower scheme ≡ bearer
    pub is_key : strip is_space rest ≡ api_key

  strip-lstrip : (text : List ℕ) → strip is_space (lstrip is_space text) ≡ strip is_space text
  unfolding strip
  strip-lstrip text =
      ap (rstrip is_space)
        (lstrip_clean is_space (lstrip is_space text) (lstrip-IsLeftClean is_space text))

  presents-Presents :
      (header api_key : List ℕ) (found : Option (List ℕ × List ℕ))
      → split_once is_space (strip is_space header) ≡ found
      → presents is_space lower found api_key ≡ true
      → Presents header api_key
  unfolding presents
  presents-Presents header api_key none e h = cc
  presents-Presents header api_key (some (scheme, token)) e h =
      let (rest, cut, after) = split_once-Cut is_space (strip is_space header) scheme token e in
      record {
        scheme = scheme;
        rest = rest;
        cut = cut;
        is_bearer = text_eq-eq (lower scheme) bearer (ground arith);
        is_key =
            sym (ap (strip is_space) after ∙ strip-lstrip rest)
            ∙ text_eq-eq (strip is_space token) api_key (ground arith);
      }

  is_authorized-Presents :
      (header api_key : List ℕ)
      → is_authorized is_space lower (some header) api_key ≡ true
      → Presents header api_key
  unfolding is_authorized
  is_authorized-Presents header api_key h =
      presents-Presents header api_key (split_once is_space (strip is_space header)) refl
        (ground arith)

  Presents-is_authorized :
      (header api_key : List ℕ)
      → Presents header api_key
      → is_authorized is_space lower (some header) api_key ≡ true
  unfolding is_authorized presents split_once strip lstrip rstrip split_word
  Presents-is_authorized [] api_key p =
      let e = Cut-split_once is_space (strip is_space []) p.scheme p.rest p.cut in cc
  Presents-is_authorized (c ∷ header) api_key p =
      let found = Cut-split_once is_space (strip is_space (c ∷ header)) p.scheme p.rest p.cut in
      rw found (
        rw (p.is_bearer, strip-lstrip p.rest ∙ p.is_key)
          (ground (arith, text_eq_refl bearer, text_eq_refl api_key)))

  -- A scope reaches the application exactly if it is no HTTP request, or if its first authorization
  -- header is, behind any spaces, a word that is bearer in lower case, a space, and a rest, not all
  -- spaces, that is the key once the spaces around it are stripped.
  pub middleware_lets :
      (scope_type : String) (headers : List (String × List ℕ)) (api_key : List ℕ)
      → (middleware is_space lower scope_type headers api_key ≡ calls_app) ↔ (
          (scope_type ≢ "http")
          ⊎ ((header : List ℕ) × IsFirst headers header × Presents header api_key))
  unfolding middleware
  middleware_lets scope_type headers api_key = (
    λ lets. elim (Bool-cases (str_eq scope_type "http")) [
      | inl http ↦ inr (by_header (extract_authorization headers) refl (ground arith))
      | inr other ↦ inl (λ same. ground (arith, eq_iff scope_type "http"))
    ],
    by_reason,
  )
    where
      by_header :
          (found : Option (List ℕ))
          → extract_authorization headers ≡ found
          → is_authorized is_space lower found api_key ≡ true
          → (header : List ℕ) × IsFirst headers header × Presents header api_key
      by_header none e h = unfold is_authorized in cc
      by_header (some header) e h =
          (header, extract-IsFirst headers header e, is_authorized-Presents header api_key h)

      by_reason :
          (scope_type ≢ "http")
            ⊎ ((header : List ℕ) × IsFirst headers header × Presents header api_key)
          → middleware is_space lower scope_type headers api_key ≡ calls_app
      by_reason (inl other) = unfold middleware in ground (arith, eq_iff scope_type "http")
      by_reason (inr (header, found, p)) =
          unfold middleware in
          rw (IsFirst-extract headers header found)
            (rw (Presents-is_authorized header api_key p) (ground arith))

  -- The letters of the scheme are no spaces, the space is one, and lowering the scheme is as in ASCII.
  abbrev pub IsPlain : Type 0
  IsPlain =
      (is_space b'B' ≡ false)
      × (is_space b'e' ≡ false)
      × (is_space b'a' ≡ false)
      × (is_space b'r' ≡ false)
      × (is_space b' ' ≡ true)
      × (lower (codes "Bearer") ≡ bearer)

  bearer_key :
      (c : ℕ) (key : List ℕ)
      → IsPlain
      → strip is_space (c ∷ key) ≡ c ∷ key
      → is_authorized is_space lower (some (codes "Bearer " ++ (c ∷ key))) (c ∷ key) ≡ true
  unfolding is_authorized presents split_once split_word
  bearer_key c key plain h =
      let (clean, ends) = strip_fixed is_space (c ∷ key) h in
      let header = codes "Bearer " ++ (c ∷ key) in
      let whole : strip is_space header ≡ header =
        strip_clean is_space header plain.0 (rstrip-append is_space (codes "Bearer ") c key ends) in
      ground (
        arith,
        whole,
        plain.0,
        plain.1,
        plain.2,
        plain.3,
        plain.4,
        plain.5,
        h,
        clean,
        lstrip_clean is_space (c ∷ key) clean,
        text_eq_refl bearer,
        text_eq_refl (c ∷ key),
      )

  -- The warning of surrounding whitespace is given exactly for the nonempty keys with which no header
  -- is authorized, where the letters of the scheme are no spaces and the space is one.
  pub warned_keys :
      (c : ℕ) (key : List ℕ)
      → IsPlain
      → (validate_http_api_key is_space (c ∷ key) ≡ surrounding_whitespace ∷ [])
        ↔ ((header : Option (List ℕ)) → is_authorized is_space lower header (c ∷ key) ≡ false)
  unfolding validate_http_api_key
  warned_keys c key plain = (warned, never)
    where
      warned :
          validate_http_api_key is_space (c ∷ key) ≡ surrounding_whitespace ∷ []
          → (header : Option (List ℕ)) → is_authorized is_space lower header (c ∷ key) ≡ false
      warned w none = unfold is_authorized in refl
      warned w (some header) =
          elim (Bool-cases (is_authorized is_space lower (some header) (c ∷ key))) [
            | inr e ↦ e
            | inl e ↦
                let p = is_authorized-Presents header (c ∷ key) e in
                let fixed : strip is_space (c ∷ key) ≡ c ∷ key =
                  ap (strip is_space) (sym p.is_key) ∙ strip_idem is_space p.rest ∙ p.is_key in
                absurd (ground (arith, fixed, text_eq_refl (c ∷ key)))
          ]

      never :
          ((header : Option (List ℕ)) → is_authorized is_space lower header (c ∷ key) ≡ false)
          → validate_http_api_key is_space (c ∷ key) ≡ surrounding_whitespace ∷ []
      never shut = elim (Bool-cases (text_eq (c ∷ key) (strip is_space (c ∷ key)))) [
        | inr e ↦ ground (arith, e)
        | inl e ↦
            let fixed = sym (text_eq-eq (c ∷ key) (strip is_space (c ∷ key)) e) in
            absurd (cc (bearer_key c key plain fixed, shut (some (codes "Bearer " ++ (c ∷ key)))))
      ]
