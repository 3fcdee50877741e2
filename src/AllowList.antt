-- ===== src/AllowList.antt =====
-- The addresses that the HTTP transport accepts, and the warnings about them:
-- anki_mcp_server/transport_security_config.py. The settings' class and its matching are the MCP
-- library's. Entries are texts of code points.
pub mod Examples
use anki_mcp_server_addon.Prelude.{
  ℕ, ◌≡◌, refl, ap, Bool, true, false, not, List, [], ◌∷◌, ◌++◌, All, if◌then◌else◌, codes,
  contains, Bool-cases, arith, inl, inr,
}

pub record Settings : Type 0 where
  pub enable_dns_rebinding_protection : Bool
  pub allowed_hosts : List (List ℕ)
  pub allowed_origins : List (List ℕ)

abbrev pub default_allowed_hosts : List (List ℕ)
default_allowed_hosts = codes "127.0.0.1:*" ∷ codes "localhost:*" ∷ codes "[::1]:*" ∷ []

abbrev pub default_allowed_origins : List (List ℕ)
default_allowed_origins =
    codes "http://127.0.0.1:*" ∷ codes "http://localhost:*" ∷ codes "http://[::1]:*" ∷ []

-- From `http_allowed_hosts` and `http_allowed_origins`.
unfoldable pub build_transport_security : List (List ℕ) → List (List ℕ) → Settings
build_transport_security hosts origins = record {
  enable_dns_rebinding_protection = true;
  allowed_hosts = default_allowed_hosts ++ hosts;
  allowed_origins = default_allowed_origins ++ origins;
}

abbrev pub has_scheme : List ℕ → Bool
has_scheme = contains (codes "://")

pub data Warning : Type 0 where
  host_with_scheme : List ℕ → Warning
  origin_without_scheme : List ℕ → Warning

unfoldable pub host_warnings : List (List ℕ) → List Warning
host_warnings [] = []
host_warnings (host ∷ hosts) =
    if has_scheme host then host_with_scheme host ∷ host_warnings hosts else host_warnings hosts

unfoldable pub origin_warnings : List (List ℕ) → List Warning
origin_warnings [] = []
origin_warnings (origin ∷ origins) =
    if has_scheme origin
    then origin_warnings origins
    else origin_without_scheme origin ∷ origin_warnings origins

unfoldable pub validate_http_allowlist : List (List ℕ) → List (List ℕ) → List Warning
unfolding host_warnings origin_warnings
validate_http_allowlist hosts origins = host_warnings hosts ++ origin_warnings origins

hosts_silent :
    (hosts : List (List ℕ))
    → host_warnings hosts ≡ []
    → All (λ (h : List ℕ). has_scheme h ≡ false) hosts
unfolding host_warnings
hosts_silent [] silent = tt
hosts_silent (host ∷ hosts) silent = elim (Bool-cases (has_scheme host)) [
  | inl e ↦ absurd (ground arith)
  | inr e ↦ (e, hosts_silent hosts (ground arith))
]

origins_silent :
    (origins : List (List ℕ))
    → origin_warnings origins ≡ []
    → All (λ (o : List ℕ). has_scheme o ≡ true) origins
unfolding origin_warnings
origins_silent [] silent = tt
origins_silent (origin ∷ origins) silent = elim (Bool-cases (has_scheme origin)) [
  | inl e ↦ (e, origins_silent origins (ground arith))
  | inr e ↦ absurd (ground arith)
]

append_nil {ℓ} : {A : Type ℓ} (xs ys : List A) → xs ++ ys ≡ [] → (xs ≡ []) × (ys ≡ [])
append_nil [] ys e = (refl, e)
append_nil (x ∷ xs) ys e = absurd (ground arith)

-- Without a warning, no host has a scheme and each origin has one.
validate_http_allowlist-silent :
    (hosts origins : List (List ℕ))
    → validate_http_allowlist hosts origins ≡ []
    → All (λ (h : List ℕ). has_scheme h ≡ false) hosts
      × All (λ (o : List ℕ). has_scheme o ≡ true) origins
unfolding validate_http_allowlist
validate_http_allowlist-silent hosts origins silent =
    let (h, o) = append_nil (host_warnings hosts) (origin_warnings origins) silent in
    (hosts_silent hosts h, origins_silent origins o)
