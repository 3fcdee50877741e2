-- ===== src/HttpAuth/Examples.antt =====
-- Test data for the API key, and the theorems about it at that data.
use anki_mcp_server_addon.Prelude.{
  ℕ, String, ◌≡◌, ◌≢◌, ◌⊎◌, ◌↔◌, refl, Bool, ◌==◌, List, [], ◌∷◌, codes,
}
use anki_mcp_server_addon.HttpAuth.{calls_app, middleware}
use anki_mcp_server_addon.HttpAuth.Header.{IsFirst}
use anki_mcp_server_addon.HttpAuth.Keys.{Presents, middleware_lets}

abbrev is_blank : ℕ → Bool
is_blank c = c == b' '

-- Lowers the texts of these examples only.
abbrev to_lower : List ℕ → List ℕ
to_lower [] = []
to_lower (c ∷ scheme) = codes "bearer"

abbrev http : String
http = "http"

abbrev headers : List (String × List ℕ)
headers = ("host", codes "localhost") ∷ ("authorization", codes "BEARER  s3cret ") ∷ []

middleware_lets_example :
    (middleware is_blank to_lower http headers (codes "s3cret") ≡ calls_app) ↔ (
      (http ≢ "http")
      ⊎ ((header : List ℕ) × IsFirst headers header
          × Presents is_blank to_lower header (codes "s3cret")))
middleware_lets_example = middleware_lets is_blank to_lower http headers (codes "s3cret")

key_opens : middleware is_blank to_lower http headers (codes "s3cret") ≡ calls_app
unfolding middleware
key_opens = refl
