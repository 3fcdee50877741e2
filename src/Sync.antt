-- ===== src/Sync.antt =====
-- The asynchronous sync: anki_mcp_server/sync_state.py and
-- anki_mcp_server/primitives/essential/tools/_sync_runner.py, with the collection gate of
-- anki_mcp_server/handler_wrappers.py.
pub mod Job
pub mod Classify
pub mod Registry
pub mod Runner
