-- ===== src/Tunnel.antt =====
-- The tunnel to the relay: anki_mcp_server/tunnel/protocol.py and anki_mcp_server/tunnel/reconnect.py.
pub mod CloseCodes
pub mod Protocol
pub mod Version
pub mod Reconnect
pub mod Transport
pub mod Client
pub mod Auth
pub mod Log
pub mod Tasks
pub mod Examples
