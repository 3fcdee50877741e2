-- ===== src/HttpAuth.antt =====
-- The optional API key of the HTTP transport: anki_mcp_server/http_auth.py. Header values and the key
-- are texts of code points; `compare_digest` on their UTF-8 encodings is equality of the texts.
pub mod Header
pub mod Keys
pub mod Examples
use anki_mcp_server_addon.Prelude.{
  ℕ, String, str_eq, Bool, true, false, not, ◌&&◌, Option, none, some, List, [], ◌∷◌, length, ltb,
  if◌then◌else◌, codes,
}
use anki_mcp_server_addon.Text.{is_nil, text_eq, lstrip, rstrip, strip}

abbrev pub bearer : List ℕ
bearer = codes "bearer"

abbrev pub min_api_key_length : ℕ
min_api_key_length = 16

pub data Warning : Type 0 where
  surrounding_whitespace short_key : Warning

-- What the middleware does with a scope: it calls the application, or answers 403.
pub data Gate : Type 0 where
  calls_app : Gate
  forbidden : Gate

-- The first value of the header, among lowercased names.
unfoldable pub extract_authorization : List (String × List ℕ) → Option (List ℕ)
extract_authorization [] = none
extract_authorization ((name, value) ∷ headers) =
    if str_eq name "authorization" then some value else extract_authorization headers

module _ (is_space : ℕ → Bool) where
  -- Up to the first space, and from there on.
  unfoldable pub split_word : List ℕ → List ℕ × List ℕ
  split_word [] = ([], [])
  split_word (c ∷ text) =
      let (word, rest) = split_word text in if is_space c then ([], c ∷ text) else (c ∷ word, rest)

  -- `split(None, 1)` of a stripped text, where it has two parts.
  unfoldable pub split_once : List ℕ → Option (List ℕ × List ℕ)
  unfolding split_word lstrip
  split_once text =
      let (word, rest) = split_word text in
      let token = lstrip is_space rest in if is_nil token then none else some (word, token)

  unfoldable pub validate_http_api_key : List ℕ → List Warning
  unfolding strip
  validate_http_api_key api_key =
      if is_nil api_key
      then []
      else if not (text_eq api_key (strip is_space api_key))
      then surrounding_whitespace ∷ []
      else if ltb (length (strip is_space api_key)) min_api_key_length
      then short_key ∷ []
      else []

module _ (is_space : ℕ → Bool) (lower : List ℕ → List ℕ) where
  unfoldable pub presents : Option (List ℕ × List ℕ) → List ℕ → Bool
  presents none api_key = false
  presents (some (scheme, token)) api_key =
      text_eq (lower scheme) bearer && text_eq (strip is_space token) api_key

  unfoldable pub is_authorized : Option (List ℕ) → List ℕ → Bool
  unfolding presents split_once strip
  is_authorized none api_key = false
  is_authorized (some header) api_key =
      if is_nil header
      then false
      else presents (split_once is_space (strip is_space header)) api_key

  -- `__call__`, by the type of the scope.
  unfoldable pub middleware : String → List (String × List ℕ) → List ℕ → Gate
  unfolding is_authorized extract_authorization
  middleware scope_type headers api_key =
      if not (str_eq scope_type "http")
      then calls_app
      else if not (is_authorized (extract_authorization headers) api_key)
      then forbidden
      else calls_app
