-- ===== src/Lib.antt =====
-- The AnkiMCP server addon: what its core promises to clients, to Anki and to itself.
--
-- The addon runs an MCP server in background threads of Anki. Its parts, and the files about them:
--
-- Sync (Sync.antt and below): a client starts a sync, polls it and resolves its conflicts.
-- Sync.Job and Sync.Registry are anki_mcp_server/sync_state.py: SyncJob, and SyncJobRegistry with
-- one function for each method (try_begin, get, update, raise_gate, release_gate, end as end_job,
-- reset, _evict_locked as evict). Sync.Classify is classify_sync_error and the legal directions.
-- Sync.Runner is anki_mcp_server/primitives/essential/tools/_sync_runner.py: Tasks has the workers
-- and payloads, World the state and the gate _check_col_available of
-- anki_mcp_server/handler_wrappers.py, Entry the entry points start_sync, status_snapshot and
-- resolve_sync, Callbacks the on_done callbacks, and Session any sequence of these. A task is
-- pending from its spawn to its on_done.
-- Bridge (Bridge.antt and below): server threads hand requests to Anki's main thread. Bridge.Queues
-- is anki_mcp_server/queue_bridge.py, Bridge.Processor anki_mcp_server/request_processor.py and
-- Bridge.Handlers anki_mcp_server/handler_registry.py. Bridge.System interleaves threads inside
-- send_request with the main thread: each event is a piece that no other thread can interrupt.
-- Tunnel (Tunnel.antt and below): the connection to a relay. Tunnel.Protocol and Tunnel.Version are
-- anki_mcp_server/tunnel/protocol.py, Tunnel.Reconnect is anki_mcp_server/tunnel/reconnect.py,
-- Tunnel.Client one connection, anki_mcp_server/tunnel/client.py, and Tunnel.Transport its way to the
-- MCP server, anki_mcp_server/tunnel/in_memory_transport.py.
-- Tunnel.Tasks starts and stops that connection on the asyncio loop, anki_mcp_server/mcp_server.py.
-- Tunnel.Auth is the login of anki_mcp_server/tunnel/auth.py and Tunnel.Log the ring buffer of
-- anki_mcp_server/tunnel/log.py.
-- Lifecycle (Lifecycle.antt and below): anki_mcp_server/connection_manager.py, which starts and stops
-- the bridge, the processor and the server, and passes commands on to the tunnel.
-- Config: anki_mcp_server/config.py. Credentials: anki_mcp_server/credentials.py, the file with the
-- tokens, which it registers with FileLog, the redaction of anki_mcp_server/file_log.py.
-- HttpAuth: anki_mcp_server/http_auth.py, the API key of the HTTP transport. AllowList:
-- anki_mcp_server/transport_security_config.py, the hosts and origins that it accepts.
-- Media (Media.antt and below): anki_mcp_server/media_validators.py. Media.Filename is
-- sanitize_media_filename, Media.Inputs the checks of paths, file types and URLs: what is
-- accepted is described apart from the code in Media.Inputs.Types and Media.Inputs.Addresses, as the
-- header in HttpAuth.Header and the ends of the loop in Tunnel.Reconnect.Ends.
-- Tools (Tools.antt and below): the filtering of anki_mcp_server/tool_decorator.py, with
-- register_tools and what it calls to decide which tools and actions are offered.
-- Notes, Notes.Add and Search: the tools update_notes, add_notes and find_notes of
-- anki_mcp_server/primitives/essential/tools/ (update_notes_tool.py, add_notes_tool.py and
-- find_notes_tool.py). Notes.Rows is what the two batch tools share.
-- Text: the methods of str that these use. Prelude: shared library names, tests, lists and dicts.
--
-- State is passed on explicitly, and what the outside answers (Anki, the backend, the relay, clocks,
-- fresh identifiers, random jitter) is an argument of the step that asks. Python's str.lower,
-- str.isspace, \d, \s, json, dates, mimetypes, Path.resolve, urlparse, getaddrinfo and ipaddress are
-- parameters. Texts that the program looks into are lists of code points; texts that it only
-- compares are strings. Times are whole microseconds in the registry and whole
-- milliseconds in the reconnection.
--
-- The loop of sanitize_media_filename is on fuel, the length of its text, which is proved to be
-- enough. Nothing else is: sessions, interleavings and reconnections are recursive on their list of
-- events or rounds, so each theorem holds of every prefix of an unbounded run, and the polling of
-- media is recursive on the answers, with no result while it still polls.
--
-- Not modelled: Qt, uvicorn, the MCP library and Anki themselves; tooltips and log lines, which touch
-- none of the state; the set-up of the server's thread and of the log file, the installation of
-- dependencies and user interfaces; the other tools, which pass a call on to the collection. The
-- cancellation of a task is modelled where the reconnection awaits a token, a transport's start, the
-- client or a delay, and where the client awaits the transport or the socket; not in the transport's
-- own calls, nor while a transport stops. Listeners of the configuration are taken to return.
pub mod Notes
pub mod Prelude
pub mod Search
pub mod Sync
pub mod Bridge
pub mod Tunnel
pub mod Text
pub mod Config
pub mod Credentials
pub mod FileLog
pub mod AllowList
pub mod HttpAuth
pub mod Lifecycle
pub mod Media
pub mod Tools
