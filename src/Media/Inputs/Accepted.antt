-- ===== src/Media/Inputs/Accepted.antt =====
-- Which paths and URLs are accepted.
use anki_mcp_server_addon.Prelude.{
  ℕ, ◌≡◌, refl, ap, sym, ◌∙◌, subst, true, false, ◌||◌, ◌⊎◌, ◌↔◌, inl, inr, Option, none, some,
  List, [], ◌∷◌, ◌++◌, arith, any, All, is_prefix, ◌==◌, Bool-cases, codes,
}
use anki_mcp_server_addon.Text.{is_nil, text_eq, text_eq-eq}
use anki_mcp_server_addon.Media.Filename.{slash}
use anki_mcp_server_addon.Media.Inputs.{
  is_allowed, confine, validate_media_file_path, Address, ParsedUrl, Resolution, addresses,
  gaierror, other_error, check_addresses, check_resolved, check_parsed, validate_media_url,
}
use anki_mcp_server_addon.Media.Inputs.Types.{
  is_prefix-append, split_prefix, IsMedia, allowed-IsMedia, IsMedia-allowed,
}
use anki_mcp_server_addon.Media.Inputs.Addresses.{
  IsFine, check_addresses-IsFine, IsFine-check_addresses,
}

append_assoc_one : (xs : List ℕ) (c : ℕ) (ys : List ℕ) → (xs ++ c ∷ []) ++ ys ≡ xs ++ c ∷ ys
append_assoc_one [] c ys = refl
append_assoc_one (d ∷ xs) c ys = ap (λ zs. d ∷ zs) (append_assoc_one xs c ys)

module _ (guess_type : List ℕ → Option (List ℕ)) (resolve name_of : List ℕ → List ℕ) where
  -- Below a directory: its resolved path, a slash, and the rest.
  abbrev pub IsBelow : Option (List ℕ) → List ℕ → Type 0
  IsBelow none path = Unit
  IsBelow (some []) path = Unit
  IsBelow (some (c ∷ import_dir)) path =
      (rest : List ℕ) × (path ≡ resolve (c ∷ import_dir) ++ slash ∷ rest)

  confine-IsBelow :
      (path accepted : List ℕ) (import_dir : Option (List ℕ))
      → confine guess_type resolve name_of path import_dir ≡ inr accepted
      → (accepted ≡ path) × IsBelow import_dir path
  unfolding confine
  confine-IsBelow path accepted none h = (ground arith, tt)
  confine-IsBelow path accepted (some []) h = (ground arith, tt)
  confine-IsBelow path accepted (some (c ∷ dir)) h =
      elim (Bool-cases (is_prefix (resolve (c ∷ dir) ++ slash ∷ []) path)) [
        | inr e ↦ absurd (ground arith)
        | inl e ↦
            let (rest, parts) = split_prefix (resolve (c ∷ dir) ++ slash ∷ []) path e in
            (ground arith, (rest, parts ∙ append_assoc_one (resolve (c ∷ dir)) slash rest))
      ]

  IsBelow-confine :
      (path : List ℕ) (import_dir : Option (List ℕ))
      → IsBelow import_dir path
      → confine guess_type resolve name_of path import_dir ≡ inr path
  unfolding confine
  IsBelow-confine path none h = refl
  IsBelow-confine path (some []) h = refl
  IsBelow-confine path (some (c ∷ dir)) (rest, parts) =
      let found : is_prefix (resolve (c ∷ dir) ++ slash ∷ []) path ≡ true =
        rw (parts ∙ sym (append_assoc_one (resolve (c ∷ dir)) slash rest))
          (is_prefix-append (resolve (c ∷ dir) ++ slash ∷ []) rest) in
      rw found

  -- A path is accepted as another exactly if it has no NUL, the other is its resolved path, a type is
  -- guessed from the other's name that is one of the extra types or starts with image/, audio/ or
  -- video/, and, where a directory is set, the other is the directory's resolved path followed by a
  -- slash and a rest.
  pub path_accepted :
      (file_path accepted : List ℕ) (extra : List (List ℕ)) (import_dir : Option (List ℕ))
      → (validate_media_file_path guess_type resolve name_of file_path extra import_dir
          ≡ inr accepted)
        ↔ ((any (λ c. c == 0) file_path ≡ false)
            × (accepted ≡ resolve file_path)
            × IsMedia guess_type extra (name_of accepted)
            × IsBelow import_dir accepted)
  unfolding validate_media_file_path
  path_accepted file_path accepted extra import_dir = (
    λ h. elim (Bool-cases (any (λ c. c == 0) file_path)) [
      | inl e ↦ absurd (ground arith)
      | inr e ↦ elim (Bool-cases (is_allowed extra (guess_type (name_of (resolve file_path))))) [
        | inr t ↦ absurd (ground arith)
        | inl t ↦
            let (same, below) =
              confine-IsBelow (resolve file_path) accepted import_dir (ground arith) in
            (
              e,
              same,
              rw same (
                  allowed-IsMedia guess_type extra (name_of (resolve file_path))
                    (guess_type (name_of (resolve file_path))) refl t),
              rw same below,
            )
      ]
    ],
    λ (clean, same, typed, below).
        let fits : is_allowed extra (guess_type (name_of (resolve file_path))) ≡ true =
          subst (λ name. is_allowed extra (guess_type (name_of name)) ≡ true) same
            (IsMedia-allowed guess_type extra (name_of accepted) typed) in
        rw (clean, fits)
          (rw same (
            IsBelow-confine (resolve file_path) import_dir
              (subst (IsBelow import_dir) same below))),
  )

module _ (lower : List ℕ → List ℕ) (urlparse : List ℕ → Option ParsedUrl)
    (getaddrinfo : List ℕ → Resolution) (url : List ℕ) (allowed_hosts : List (List ℕ)) where
  -- Why a URL passes.
  pub record Passes : Type 0 where
    pub parsed : ParsedUrl
    pub parses : urlparse url ≡ some parsed
    pub is_web : (lower parsed.scheme ≡ codes "http") ⊎ (lower parsed.scheme ≡ codes "https")
    pub has_host : is_nil parsed.hostname ≡ false
    pub first : Address
    pub others : List Address
    pub resolves : getaddrinfo parsed.hostname ≡ addresses (first ∷ others)
    pub fine : All (IsFine lower allowed_hosts parsed.hostname) (first ∷ others)

  web_scheme :
      (scheme : List ℕ)
      → (text_eq scheme (codes "http") || text_eq scheme (codes "https")) ≡ true
      → (scheme ≡ codes "http") ⊎ (scheme ≡ codes "https")
  web_scheme scheme h = elim (Bool-cases (text_eq scheme (codes "http"))) [
    | inl e ↦ inl (text_eq-eq scheme (codes "http") e)
    | inr e ↦ inr (text_eq-eq scheme (codes "https") (ground arith))
  ]

  scheme_web :
      (scheme : List ℕ)
      → (scheme ≡ codes "http") ⊎ (scheme ≡ codes "https")
      → (text_eq scheme (codes "http") || text_eq scheme (codes "https")) ≡ true
  scheme_web scheme (inl e) = rw e refl
  scheme_web scheme (inr e) = rw e refl

  resolved-Passes :
      (parsed : ParsedUrl) (accepted : List ℕ) (found : Resolution)
      → urlparse url ≡ some parsed
      → (lower parsed.scheme ≡ codes "http") ⊎ (lower parsed.scheme ≡ codes "https")
      → is_nil parsed.hostname ≡ false
      → getaddrinfo parsed.hostname ≡ found
      → check_resolved lower url allowed_hosts parsed.hostname found ≡ inr accepted
      → (accepted ≡ url) × Passes
  unfolding check_resolved
  resolved-Passes parsed accepted gaierror p w n e h = cc
  resolved-Passes parsed accepted other_error p w n e h = cc
  resolved-Passes parsed accepted (addresses []) p w n e h = cc
  resolved-Passes parsed accepted (addresses (a ∷ rest)) p w n e h =
      elim (Bool-cases (check_addresses lower allowed_hosts parsed.hostname (a ∷ rest))) [
        | inr shut ↦ absurd (ground arith)
        | inl open_all ↦ (
          ground arith,
          record {
            parsed = parsed;
            parses = p;
            is_web = w;
            has_host = n;
            first = a;
            others = rest;
            resolves = e;
            fine = check_addresses-IsFine lower allowed_hosts parsed.hostname (a ∷ rest) open_all;
          },
        )
      ]

  parsed-Passes :
      (accepted : List ℕ) (found : Option ParsedUrl)
      → urlparse url ≡ found
      → check_parsed lower urlparse getaddrinfo url allowed_hosts found ≡ inr accepted
      → (accepted ≡ url) × Passes
  unfolding check_parsed
  parsed-Passes accepted none e h = cc
  parsed-Passes accepted (some parsed) e h =
      let web : (text_eq (lower parsed.scheme) (codes "http")
            || text_eq (lower parsed.scheme) (codes "https"))
          ≡ true =
        ground arith in
      resolved-Passes parsed accepted (getaddrinfo parsed.hostname) e
        (web_scheme (lower parsed.scheme) web) (ground arith) refl (ground arith)

  -- A URL is accepted, and then as it is, exactly if it parses with the scheme http or https in any
  -- case and a host, the host resolves to at least one address, and every address that it resolves to
  -- is allow-listed, by its host or itself, or neither it nor the IPv4 address that it maps is
  -- private, loopback, link-local, reserved, multicast or unspecified.
  pub url_accepted :
      (accepted : List ℕ)
      → (validate_media_url lower urlparse getaddrinfo url allowed_hosts ≡ inr accepted)
        ↔ ((accepted ≡ url) × Passes)
  unfolding validate_media_url check_parsed check_resolved
  url_accepted accepted = (
    parsed-Passes accepted (urlparse url) refl,
    λ (same, p).
        rw (p.parses, scheme_web (lower p.parsed.scheme) p.is_web, p.has_host, p.resolves)
          (rw
            (IsFine-check_addresses lower allowed_hosts p.parsed.hostname (p.first ∷ p.others)
              p.fine)
            (rw same refl)),
  )
