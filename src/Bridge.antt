-- ===== src/Bridge.antt =====
-- The bridge between the server's threads and Anki's main thread: anki_mcp_server/queue_bridge.py,
-- anki_mcp_server/request_processor.py and anki_mcp_server/handler_registry.py.
pub mod Handlers
pub mod Queues
pub mod Processor
pub mod System
pub mod Examples
