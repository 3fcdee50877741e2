-- ===== src/Tunnel/Protocol.antt =====
-- Close codes and server messages of anki_mcp_server/tunnel/protocol.py.
pub mod Messages
use anki_mcp_server_addon.Prelude.{
  ℕ, String, str_eq, Bool, true, false, not, ◌==◌, ◌||◌, Option, none, some, List, [], ◌∷◌, any,
  if◌then◌else◌,
}
use anki_mcp_server_addon.Tunnel.CloseCodes

abbrev pub no_reconnect : List ℕ
no_reconnect =
    CloseCodes.normal ∷ CloseCodes.token_revoked ∷ CloseCodes.account_deleted
    ∷ CloseCodes.session_replaced ∷ []

abbrev pub refresh_codes : List ℕ
refresh_codes = CloseCodes.auth_failed ∷ CloseCodes.tunnel_auth_failed ∷ []

unfoldable pub should_reconnect : ℕ → Bool
should_reconnect close_code = not (any (λ code. code == close_code) no_reconnect)

unfoldable pub should_refresh_token : ℕ → Bool
should_refresh_token close_code = any (λ code. code == close_code) refresh_codes

-- A value under the key "type" of a decoded message: lists and dicts are not hashable.
pub data TypeField : Type 0 where
  null : TypeField
  text : String → TypeField
  other_hashable : TypeField
  unhashable : TypeField

-- A decoded JSON text: an object, with the value of its "type" if it has one, or anything else.
pub data Decoded : Type 0 where
  object : Option TypeField → Decoded
  not_object : Decoded

pub data ParseResult : Type 0 where
  message : String → ParseResult
  value_error : ParseResult
  type_error : ParseResult

abbrev pub server_message_types : List String
server_message_types = "tunnel_established" ∷ "request" ∷ "ping" ∷ "error" ∷ []

parse_type : Option TypeField → ParseResult
parse_type none = value_error
parse_type (some null) = value_error
parse_type (some (text name)) =
    if any (str_eq name) server_message_types then message name else value_error
parse_type (some other_hashable) = value_error
parse_type (some unhashable) = type_error

parse_decoded : Option Decoded → ParseResult
unfolding parse_type
parse_decoded none = value_error
parse_decoded (some not_object) = value_error
parse_decoded (some (object field)) = parse_type field

-- `loads` is `json.loads`; `none` is its JSONDecodeError.
unfoldable pub parse_server_message : (List ℕ → Option Decoded) → List ℕ → ParseResult
unfolding parse_decoded
parse_server_message loads raw = parse_decoded (loads raw)
