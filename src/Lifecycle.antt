-- ===== src/Lifecycle.antt =====
-- `ConnectionManager` of anki_mcp_server/connection_manager.py over the bridge and the processor that it
-- owns. The server is the settings that it was started with; what the manager asks of its tunnel is
-- kept in order. Each event runs on Qt's main thread, but for the requests of the server's threads.
mod Examples
pub mod Consistent
mod States
mod Updates
use anki_mcp_server_addon.Prelude.{
  ℕ, String, str_eq, not, Bool, true, false, ◌&&◌, ◌||◌, Option, none, some, List, [], ◌∷◌, ◌++◌,
  if◌then◌else◌,
}
use anki_mcp_server_addon.Prelude.Dict.{Dict}
use anki_mcp_server_addon.Bridge.Handlers.{ToolRequest, Handler}
use anki_mcp_server_addon.Bridge.Queues.{Bridge, empty, register, put_request, shutdown}
use anki_mcp_server_addon.Bridge.Processor
use anki_mcp_server_addon.Bridge.Processor.{Processor, schedule, begin_drain, drain_round}

-- The settings that the manager reads itself, and the port for the others.
pub record Settings : Type 0 where
  pub tunnel_server_url : String
  pub tunnel_client_id : String
  pub http_enabled : Bool
  pub http_port : ℕ

pub data Command : Type 0 where
  starts_tunnel : Command
  stops_tunnel : Command
  deletes_credentials : Command

-- `_bridge` is the bridge of the processor, which is kept when `_processor` is None.
pub record Manager (Args Value : Type 0) : Type 0 where
  pub settings : Settings
  pub auth : String × String
  pub processor : Processor Args Value
  pub has_processor : Bool
  pub server : Option Settings
  pub tunnel_url : Option String
  pub commands : List Command

abbrev pub auth_of : Settings → String × String
auth_of s = (s.tunnel_server_url, s.tunnel_client_id)

-- Whether the settings of the login client differ.
abbrev pub differs : Settings → Settings → Bool
differs s t =
    not (str_eq s.tunnel_server_url t.tunnel_server_url)
    || not (str_eq s.tunnel_client_id t.tunnel_client_id)

abbrev pub has_server : Option Settings → Bool
has_server none = false
has_server (some s) = true

module _ {Args Value : Type 0} where
  abbrev pub fresh_processor : Processor Args Value
  fresh_processor = record { bridge = empty; active = false; scheduled = 0; draining = false }

  -- The constructor, where the login client accepts the url.
  unfoldable pub new : Settings → Manager Args Value
  new settings = record {
    settings = settings;
    auth = auth_of settings;
    processor = fresh_processor;
    has_processor = false;
    server = none;
    tunnel_url = none;
    commands = [];
  }

  abbrev pub is_running : Manager Args Value → Bool
  is_running m = has_server m.server && m.has_processor

  unfoldable pub http_running : Manager Args Value → Bool
  http_running m = if is_running m then m.settings.http_enabled else false

  unfoldable pub start : Manager Args Value → Manager Args Value
  unfolding Processor.start
  start m = if is_running m then m else record m {
    processor = Processor.start fresh_processor;
    has_processor = true;
    server = some m.settings;
  }

  abbrev pub shut_down : Processor Args Value → Processor Args Value
  shut_down p = record p { bridge = shutdown p.bridge }

  unfoldable pub stop : Manager Args Value → Manager Args Value
  unfolding Processor.stop shutdown
  stop m =
      if is_running m
      then record m {
        tunnel_url = none;
        processor = Processor.stop (shut_down m.processor);
        has_processor = false;
        server = none;
      }
      else m

  unfoldable pub restart : Manager Args Value → Manager Args Value
  unfolding start stop
  restart m = start (stop m)

  -- `accepts` says for which urls the constructor of the login client returns; where it raises, the
  -- new settings are stored, and nothing else happens.
  unfoldable pub update_config :
      (String → Bool) → Settings → Manager Args Value → Manager Args Value
  unfolding restart
  update_config accepts s m =
      let changed = differs s m.settings in
      if changed && not (accepts s.tunnel_server_url)
      then record m { settings = s }
      else if is_running m
      then restart (record m { settings = s; auth = if changed then auth_of s else m.auth })
      else record m { settings = s; auth = if changed then auth_of s else m.auth }

  -- `connected` is the server's flag, `logged_in` whether credentials were loaded.
  unfoldable pub connect_tunnel : Bool → Bool → Manager Args Value → Manager Args Value
  connect_tunnel connected logged_in m =
      if is_running m && not connected && logged_in
      then record m { commands = m.commands ++ starts_tunnel ∷ [] }
      else m

  unfoldable pub disconnect_tunnel : Manager Args Value → Manager Args Value
  disconnect_tunnel m =
      if has_server m.server
      then record m { commands = m.commands ++ stops_tunnel ∷ []; tunnel_url = none }
      else m

  unfoldable pub logout_tunnel : Manager Args Value → Manager Args Value
  unfolding disconnect_tunnel
  logout_tunnel m =
      let after = disconnect_tunnel m in
      record after { commands = after.commands ++ deletes_credentials ∷ [] }

  unfoldable pub on_tunnel_established : String → Manager Args Value → Manager Args Value
  on_tunnel_established url m = record m { tunnel_url = some url }

  unfoldable pub on_tunnel_stopped : Manager Args Value → Manager Args Value
  on_tunnel_stopped m = record m { tunnel_url = none }

  abbrev pub enqueue :
      ToolRequest Args → Option (Bridge Args Value) → Processor Args Value → Processor Args Value
  enqueue request none p = p
  enqueue request (some bridge) p = schedule (record p { bridge = put_request request bridge })

  -- A thread of the server sends a request, which wakes the processor.
  unfoldable pub send : ToolRequest Args → Manager Args Value → Manager Args Value
  unfolding register put_request schedule
  send request m =
      if is_running m
      then record m {
        processor = enqueue request (register request m.processor.bridge) m.processor;
      }
      else m

-- What happens to a manager.
pub data Event (Args : Type 0) : Type 0 where
  starts stops restarts : Event Args
  updates : Settings → Event Args
  connects : Bool → Bool → Event Args
  disconnects logs_out : Event Args
  established : String → Event Args
  tunnel_stopped : Event Args
  sends : ToolRequest Args → Event Args
  drains drains_one : Event Args

module _ {Args Value : Type 0} (accepts : String → Bool)
    (handlers : Dict (Handler Args Value)) where
  unfoldable pub step : Event Args → Manager Args Value → Manager Args Value
  unfolding start stop restart update_config connect_tunnel disconnect_tunnel logout_tunnel
      on_tunnel_established on_tunnel_stopped send begin_drain drain_round
  step starts m = start m
  step stops m = stop m
  step restarts m = restart m
  step (updates s) m = update_config accepts s m
  step (connects connected logged_in) m = connect_tunnel connected logged_in m
  step disconnects m = disconnect_tunnel m
  step logs_out m = logout_tunnel m
  step (established url) m = on_tunnel_established url m
  step tunnel_stopped m = on_tunnel_stopped m
  step (sends request) m = send request m
  step drains m = record m { processor = begin_drain m.processor }
  step drains_one m = record m { processor = drain_round handlers m.processor }

  unfoldable pub run : List (Event Args) → Manager Args Value → Manager Args Value
  unfolding step
  run [] m = m
  run (event ∷ events) m = run events (step event m)
