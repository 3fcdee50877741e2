-- ===== src/Media/Inputs.antt =====
-- The checks of paths, file types and URLs of anki_mcp_server/media_validators.py. `mimetypes`,
-- `Path.resolve`, `urlparse`, name resolution and `ipaddress` are parameters; the path separator is
-- that of POSIX.
pub mod Accepted
pub mod Addresses
pub mod Types
use anki_mcp_server_addon.Prelude.{
  ℕ, Bool, true, false, not, ◌&&◌, ◌||◌, ◌⊎◌, inl, inr, Option, none, some, List, [], ◌∷◌, ◌++◌,
  any, filter, is_prefix, ◌==◌, if◌then◌else◌, codes,
}
use anki_mcp_server_addon.Text.{is_nil, text_eq}
use anki_mcp_server_addon.Media.Filename.{slash, without, basename}

-- `uncaught` is an exception of the name resolution that is no `gaierror`.
pub data MediaError : Type 0 where
  file_type_error import_dir_error url_scheme_error : List ℕ → MediaError
  url_blocked uncaught : MediaError

abbrev pub media_prefixes : List (List ℕ)
media_prefixes = codes "image/" ∷ codes "audio/" ∷ codes "video/" ∷ []

-- `allowed_types`, where None is the empty list.
unfoldable pub is_allowed : List (List ℕ) → Option (List ℕ) → Bool
is_allowed extra none = false
is_allowed extra (some mime_type) =
    any (text_eq mime_type) extra || any (λ start. is_prefix start mime_type) media_prefixes

module _ (guess_type : List ℕ → Option (List ℕ)) where
  -- `none` is a return.
  unfoldable pub validate_media_filename_type : List ℕ → List (List ℕ) → Option MediaError
  unfolding is_allowed
  validate_media_filename_type filename extra =
      if is_allowed extra (guess_type filename) then none else some (file_type_error filename)

  module _ (resolve name_of : List ℕ → List ℕ) where
    -- The directory confinement; an empty `import_dir` is no confinement.
    unfoldable pub confine : List ℕ → Option (List ℕ) → MediaError ⊎ List ℕ
    confine resolved none = inr resolved
    confine resolved (some []) = inr resolved
    confine resolved (some (c ∷ import_dir)) =
        if is_prefix (resolve (c ∷ import_dir) ++ slash ∷ []) resolved
        then inr resolved
        else inl (import_dir_error (name_of resolved))

    unfoldable pub validate_media_file_path :
        List ℕ → List (List ℕ) → Option (List ℕ) → MediaError ⊎ List ℕ
    unfolding is_allowed confine basename without
    validate_media_file_path file_path extra import_dir =
        let resolved = resolve file_path in
        if any (λ c. c == 0) file_path
        then inl (file_type_error (basename (without 0 file_path)))
        else if is_allowed extra (guess_type (name_of resolved))
        then confine resolved import_dir
        else inl (file_type_error (name_of resolved))

-- What `ipaddress` says of an address.
pub record Ranges : Type 0 where
  pub is_private : Bool
  pub is_loopback : Bool
  pub is_link_local : Bool
  pub is_reserved : Bool
  pub is_multicast : Bool
  pub is_unspecified : Bool

-- `ipv4_mapped` is `none` for an IPv4 address.
pub record Address : Type 0 where
  pub ip_str : List ℕ
  pub ranges : Ranges
  pub ipv4_mapped : Option Ranges

-- An absent scheme or host is the empty text, as for the code, which tests for both.
pub record ParsedUrl : Type 0 where
  pub scheme : List ℕ
  pub hostname : List ℕ

pub data Resolution : Type 0 where
  addresses : List Address → Resolution
  gaierror : Resolution
  other_error : Resolution

unfoldable pub check_ip_blocked : Ranges → Bool
check_ip_blocked a =
    a.is_private || a.is_loopback || a.is_link_local || a.is_reserved || a.is_multicast
    || a.is_unspecified

abbrev pub is_mapped_blocked : Option Ranges → Bool
is_mapped_blocked none = false
is_mapped_blocked (some mapped) = check_ip_blocked mapped

module _ (lower : List ℕ → List ℕ) where
  abbrev pub lowered : List (List ℕ) → List (List ℕ)
  lowered [] = []
  lowered (host ∷ hosts) = lower host ∷ lowered hosts

  unfoldable pub is_safe_host : List (List ℕ) → List ℕ → Address → Bool
  is_safe_host allowed_hosts hostname a =
      any (text_eq hostname) (lowered allowed_hosts)
      || any (text_eq a.ip_str) (lowered allowed_hosts)

  -- The loop over the addresses; an address that is let through is followed by the next.
  unfoldable pub check_addresses : List (List ℕ) → List ℕ → List Address → Bool
  unfolding is_safe_host check_ip_blocked
  check_addresses allowed_hosts hostname [] = true
  check_addresses allowed_hosts hostname (a ∷ rest) =
      let others = check_addresses allowed_hosts hostname rest in
      if is_safe_host allowed_hosts hostname a
      then others
      else if check_ip_blocked a.ranges
      then false
      else if is_mapped_blocked a.ipv4_mapped
      then false
      else others

  unfoldable pub check_resolved : List ℕ → List (List ℕ) → List ℕ → Resolution → MediaError ⊎ List ℕ
  unfolding check_addresses
  check_resolved url allowed_hosts hostname gaierror = inl url_blocked
  check_resolved url allowed_hosts hostname other_error = inl uncaught
  check_resolved url allowed_hosts hostname (addresses []) = inl url_blocked
  check_resolved url allowed_hosts hostname (addresses (a ∷ rest)) =
      if check_addresses allowed_hosts hostname (a ∷ rest) then inr url else inl url_blocked

  abbrev pub scheme_shown : List ℕ → List ℕ
  scheme_shown [] = codes "<empty>"
  scheme_shown (c ∷ scheme) = c ∷ scheme

  module _ (urlparse : List ℕ → Option ParsedUrl) (getaddrinfo : List ℕ → Resolution) where
    unfoldable pub check_parsed : List ℕ → List (List ℕ) → Option ParsedUrl → MediaError ⊎ List ℕ
    unfolding check_resolved
    check_parsed url allowed_hosts none = inl url_blocked
    check_parsed url allowed_hosts (some parsed) =
        let scheme = lower parsed.scheme in
        if text_eq scheme (codes "http") || text_eq scheme (codes "https")
        then (if is_nil parsed.hostname
            then inl url_blocked
            else check_resolved url allowed_hosts parsed.hostname (getaddrinfo parsed.hostname))
        else inl (url_scheme_error (scheme_shown scheme))

    unfoldable pub validate_media_url : List ℕ → List (List ℕ) → MediaError ⊎ List ℕ
    unfolding check_parsed
    validate_media_url url allowed_hosts = check_parsed url allowed_hosts (urlparse url)
