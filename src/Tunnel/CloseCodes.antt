-- ===== src/Tunnel/CloseCodes.antt =====
-- `CloseCodes` of anki_mcp_server/tunnel/protocol.py, those that the program tests for.
use anki_mcp_server_addon.Prelude.{ℕ}

abbrev pub normal : ℕ
normal = 1000

abbrev pub auth_failed : ℕ
auth_failed = 4001

abbrev pub token_revoked : ℕ
token_revoked = 4002

abbrev pub tunnel_auth_failed : ℕ
tunnel_auth_failed = 4003

abbrev pub account_deleted : ℕ
account_deleted = 4004

abbrev pub session_replaced : ℕ
session_replaced = 4005
