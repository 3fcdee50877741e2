-- ===== src/Sync/Runner.antt =====
-- anki_mcp_server/primitives/essential/tools/_sync_runner.py: the three entry points, the background
-- workers and their `on_done` callbacks, over one state: the registry, whether the collection's
-- database is open, and the background tasks that were spawned and have not been finalised.
-- Qt delivers entry points and callbacks one at a time on the main thread, so a run is a list of
-- events. What Anki and the backend answer is an argument of each event. Tooltips and the reload of
-- the scheduler touch none of this state and cannot raise; they are left out.
pub mod Tasks
pub mod World
pub mod Entry
pub mod Callbacks
pub mod Session
pub mod Invariant
pub mod Safety
pub mod Progress
pub mod Wedge
pub mod Failure
pub mod Replies
pub mod Examples
