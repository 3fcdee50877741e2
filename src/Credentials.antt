-- ===== src/Credentials.antt =====
-- `CredentialsManager` of anki_mcp_server/credentials.py: the file with the tokens, read and replaced
-- with the failures of the disk as arguments. `json.loads` and `json.dumps` are arguments too.
mod Examples
pub mod Atomic
pub mod Tokens
use anki_mcp_server_addon.Prelude.{
  ℕ, ◌+◌, Bool, true, false, ◌&&◌, Option, none, some, List, [], ◌∷◌, ◌++◌, codes, length, take,
  ◌-◌, leb, if◌then◌else◌,
}
use anki_mcp_server_addon.Prelude.Dict
use anki_mcp_server_addon.Prelude.Dict.{Dict}
use anki_mcp_server_addon.Text.{strip, text_eq}
use anki_mcp_server_addon.FileLog.{register_secret}

-- A value of JSON: a text, one that `register_secret` passes over, or one that it raises for.
pub data Value : Type 0 where
  text : List ℕ → Value
  ignored : ℕ → Value
  refused : ℕ → Value

pub data Json : Type 0 where
  object : Dict Value → Json
  not_object : Json

pub record Credentials : Type 0 where
  pub access_token : Value
  pub refresh_token : Value
  pub expires_at : Value
  pub user : Value

unfoldable pub to_dict : Credentials → Dict Value
to_dict c =
    ("access_token", c.access_token)
    ∷ ("refresh_token", c.refresh_token)
    ∷ ("expires_at", c.expires_at)
    ∷ ("user", c.user)
    ∷ []

-- The content of a file: text, or bytes that are no UTF-8.
pub data Content : Type 0 where
  utf8 : List ℕ → Content
  undecodable : Content

pub record Disk : Type 0 where
  pub credentials : Option Content
  pub tmp : Option Content

-- The loop stops at the first token that raises, which is swallowed.
unfoldable pub register_token_secrets : List Value → List (List ℕ) → List (List ℕ)
register_token_secrets [] secrets = secrets
register_token_secrets (text token ∷ tokens) secrets =
    register_token_secrets tokens (register_secret (some token) secrets)
register_token_secrets (ignored n ∷ tokens) secrets = register_token_secrets tokens secrets
register_token_secrets (refused n ∷ tokens) secrets = secrets

-- What `load` returns, or that the UnicodeDecodeError of the file leaves it.
pub data Loaded : Type 0 where
  returned : Option Credentials → Loaded
  decode_error : Loaded

abbrev pub build : Option Value → Option Value → Option Value → Option Value → Option Credentials
build (some access) (some refresh) (some expires) (some user) =
    some
      (record { access_token = access; refresh_token = refresh; expires_at = expires; user = user })
build _ _ _ _ = none

unfoldable pub from_dict : Dict Value → Option Credentials
from_dict d =
    build (Dict.get "access_token" d) (Dict.get "refresh_token" d) (Dict.get "expires_at" d)
      (Dict.get "user" d)

abbrev pub from_json : Option Json → Option Credentials
from_json none = none
from_json (some not_object) = none
from_json (some (object d)) = from_dict d

abbrev pub tokens : Credentials → List Value
tokens c = c.access_token ∷ c.refresh_token ∷ []

abbrev pub with_secrets : Option Credentials → List (List ℕ) → Loaded × List (List ℕ)
with_secrets none secrets = (returned none, secrets)
with_secrets (some c) secrets = (returned (some c), register_token_secrets (tokens c) secrets)

module _ (loads : List ℕ → Option Json) where
  unfoldable pub load_content : Option Content → List (List ℕ) → Loaded × List (List ℕ)
  unfolding from_dict register_token_secrets
  load_content none secrets = (returned none, secrets)
  load_content (some undecodable) secrets = (decode_error, secrets)
  load_content (some (utf8 raw)) secrets = with_secrets (from_json (loads raw)) secrets

  -- `readable` is false where reading the file raises an OSError.
  unfoldable pub load : Bool → Disk → List (List ℕ) → Loaded × List (List ℕ)
  unfolding load_content
  load readable disk secrets =
      if readable then load_content disk.credentials secrets else (returned none, secrets)

-- Which step of `save` raises an OSError, and whether the temporary file can be removed after that.
pub data SaveEnd : Type 0 where
  all_done : SaveEnd
  mkdir_fails : SaveEnd
  write_fails : Option Content → SaveEnd
  chmod_fails : SaveEnd
  replace_fails : SaveEnd

abbrev pub clean_up : Bool → Option Content → Option Content
clean_up true tmp = none
clean_up false tmp = tmp

module _ (dumps : Dict Value → List ℕ) where
  abbrev pub content_of : Credentials → Content
  content_of c = utf8 (dumps (to_dict c) ++ codes "\n")

  -- A write that fails leaves the temporary file with what it holds by then.
  unfoldable pub save : SaveEnd → Bool → Credentials → Disk × List (List ℕ) → Disk × List (List ℕ)
  unfolding to_dict register_token_secrets
  save mkdir_fails unlinks c (disk, secrets) = (disk, secrets)
  save all_done unlinks c (disk, secrets) = (
    record { credentials = some (content_of c); tmp = none },
    register_token_secrets (tokens c) secrets,
  )
  save (write_fails partial) unlinks c (disk, secrets) =
      (record disk { tmp = clean_up unlinks partial }, register_token_secrets (tokens c) secrets)
  save chmod_fails unlinks c (disk, secrets) = (
    record disk { tmp = clean_up unlinks (some (content_of c)) },
    register_token_secrets (tokens c) secrets,
  )
  save replace_fails unlinks c (disk, secrets) = (
    record disk { tmp = clean_up unlinks (some (content_of c)) },
    register_token_secrets (tokens c) secrets,
  )

-- `unlink` of the file, which may raise an OSError that is swallowed.
unfoldable pub delete : Bool → Disk → Disk
delete unlinks disk = if unlinks then record disk { credentials = none } else disk

abbrev pub expiry_buffer_seconds : ℕ
expiry_buffer_seconds = 60

-- A text whose last letter is `Z` takes a zone instead.
abbrev pub with_zone : List ℕ → List ℕ
with_zone [] = []
with_zone (c ∷ []) = if text_eq (c ∷ []) (codes "Z") then codes "+00:00" else c ∷ []
with_zone (c ∷ d ∷ value) = c ∷ with_zone (d ∷ value)

-- `fromisoformat` gives the seconds of a date, read as UTC where it names no zone.
module _ (is_space : ℕ → Bool) (fromisoformat : List ℕ → Option ℕ) where
  unfoldable pub parse_iso8601 : List ℕ → Option ℕ
  parse_iso8601 value = fromisoformat (with_zone (strip is_space value))

  abbrev pub is_past : ℕ → Option ℕ → Bool
  is_past now none = true
  is_past now (some expires_at) = leb expires_at (now + expiry_buffer_seconds)

  unfoldable pub is_token_expired : ℕ → List ℕ → Bool
  unfolding parse_iso8601
  is_token_expired now expires_at = is_past now (parse_iso8601 expires_at)
