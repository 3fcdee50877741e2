-- ===== src/Media.antt =====
-- The checks of media inputs before any I/O: anki_mcp_server/media_validators.py.
pub mod Filename
pub mod Inputs
pub mod Examples
