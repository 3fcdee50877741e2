-- ===== src/AllowList/Examples.antt =====
-- Tests of the warnings about the accepted addresses.
use anki_mcp_server_addon.Prelude.{◌≡◌, refl, [], ◌∷◌, codes}
use anki_mcp_server_addon.AllowList.{
  host_with_scheme, origin_without_scheme, validate_http_allowlist,
}

swapped_warned :
    validate_http_allowlist (codes "https://a.example" ∷ []) (codes "a.example" ∷ [])
    ≡ host_with_scheme (codes "https://a.example") ∷ origin_without_scheme (codes "a.example") ∷ []
unfolding validate_http_allowlist
swapped_warned = refl

proper_silent :
    validate_http_allowlist (codes "a.example" ∷ []) (codes "https://a.example" ∷ []) ≡ []
unfolding validate_http_allowlist
proper_silent = refl
