-- ===== src/Config.antt =====
-- `Config` and `ConfigManager` of anki_mcp_server/config.py. No field is checked when it is read, so each
-- holds any value of JSON. Anki's storage of the addon is an argument.
mod Examples
pub mod Saved
use anki_mcp_server_addon.Prelude.{
  ℕ, String, Bool, true, false, ◌&&◌, Option, none, some, List, [], ◌∷◌, ◌++◌, leb, ltb,
}
use anki_mcp_server_addon.Prelude.Dict
use anki_mcp_server_addon.Prelude.Dict.{Dict}

-- `negative` is any number below zero, `fraction n` lies strictly between `n` and `n + 1`, and `other`
-- is anything else, lists that are not of texts included.
pub data Value : Type 0 where
  flag : Bool → Value
  number : ℕ → Value
  fraction : ℕ → Value
  negative : Value
  text : String → Value
  texts : List String → Value
  other : Value

pub record Config : Type 0 where
  pub http_enabled : Value
  pub http_port : Value
  pub http_host : Value
  pub http_path : Value
  pub http_api_key : Value
  pub http_allowed_hosts : Value
  pub http_allowed_origins : Value
  pub cors_origins : Value
  pub cors_expose_headers : Value
  pub disabled_tools : Value
  pub enabled_destructive_tools : Value
  pub max_notes_per_batch : Value
  pub tunnel_server_url : Value
  pub tunnel_client_id : Value
  pub media_import_dir : Value
  pub media_allowed_types : Value
  pub media_allowed_hosts : Value
  pub show_settings_menu_item : Value
  pub show_toolbar_indicator : Value
  pub show_sync_tooltip : Value
  pub log_to_file : Value

abbrev pub default : Config
default = record {
  http_enabled = flag true;
  http_port = number 3141;
  http_host = text "127.0.0.1";
  http_path = text "";
  http_api_key = text "";
  http_allowed_hosts = texts [];
  http_allowed_origins = texts [];
  cors_origins = texts [];
  cors_expose_headers = texts ("mcp-protocol-version" ∷ []);
  disabled_tools = texts [];
  enabled_destructive_tools = texts [];
  max_notes_per_batch = number 100;
  tunnel_server_url = text "wss://tunnel.ankimcp.ai";
  tunnel_client_id = text "ankimcp-cli";
  media_import_dir = text "";
  media_allowed_types = texts [];
  media_allowed_hosts = texts [];
  show_settings_menu_item = flag true;
  show_toolbar_indicator = flag true;
  show_sync_tooltip = flag true;
  log_to_file = flag false;
}

-- `asdict`
unfoldable pub to_dict : Config → Dict Value
to_dict c =
    ("http_enabled", c.http_enabled)
    ∷ ("http_port", c.http_port)
    ∷ ("http_host", c.http_host)
    ∷ ("http_path", c.http_path)
    ∷ ("http_api_key", c.http_api_key)
    ∷ ("http_allowed_hosts", c.http_allowed_hosts)
    ∷ ("http_allowed_origins", c.http_allowed_origins)
    ∷ ("cors_origins", c.cors_origins)
    ∷ ("cors_expose_headers", c.cors_expose_headers)
    ∷ ("disabled_tools", c.disabled_tools)
    ∷ ("enabled_destructive_tools", c.enabled_destructive_tools)
    ∷ ("max_notes_per_batch", c.max_notes_per_batch)
    ∷ ("tunnel_server_url", c.tunnel_server_url)
    ∷ ("tunnel_client_id", c.tunnel_client_id)
    ∷ ("media_import_dir", c.media_import_dir)
    ∷ ("media_allowed_types", c.media_allowed_types)
    ∷ ("media_allowed_hosts", c.media_allowed_hosts)
    ∷ ("show_settings_menu_item", c.show_settings_menu_item)
    ∷ ("show_toolbar_indicator", c.show_toolbar_indicator)
    ∷ ("show_sync_tooltip", c.show_sync_tooltip)
    ∷ ("log_to_file", c.log_to_file)
    ∷ []

abbrev pub or_default : Option Value → Value → Value
or_default none value = value
or_default (some given) value = given

-- Keys that are no fields are ignored, and fields that are no keys keep their default.
unfoldable pub from_dict : Dict Value → Config
from_dict d = record {
  http_enabled = or_default (Dict.get "http_enabled" d) default.http_enabled;
  http_port = or_default (Dict.get "http_port" d) default.http_port;
  http_host = or_default (Dict.get "http_host" d) default.http_host;
  http_path = or_default (Dict.get "http_path" d) default.http_path;
  http_api_key = or_default (Dict.get "http_api_key" d) default.http_api_key;
  http_allowed_hosts = or_default (Dict.get "http_allowed_hosts" d) default.http_allowed_hosts;
  http_allowed_origins =
      or_default (Dict.get "http_allowed_origins" d) default.http_allowed_origins;
  cors_origins = or_default (Dict.get "cors_origins" d) default.cors_origins;
  cors_expose_headers = or_default (Dict.get "cors_expose_headers" d) default.cors_expose_headers;
  disabled_tools = or_default (Dict.get "disabled_tools" d) default.disabled_tools;
  enabled_destructive_tools =
      or_default (Dict.get "enabled_destructive_tools" d) default.enabled_destructive_tools;
  max_notes_per_batch = or_default (Dict.get "max_notes_per_batch" d) default.max_notes_per_batch;
  tunnel_server_url = or_default (Dict.get "tunnel_server_url" d) default.tunnel_server_url;
  tunnel_client_id = or_default (Dict.get "tunnel_client_id" d) default.tunnel_client_id;
  media_import_dir = or_default (Dict.get "media_import_dir" d) default.media_import_dir;
  media_allowed_types = or_default (Dict.get "media_allowed_types" d) default.media_allowed_types;
  media_allowed_hosts = or_default (Dict.get "media_allowed_hosts" d) default.media_allowed_hosts;
  show_settings_menu_item =
      or_default (Dict.get "show_settings_menu_item" d) default.show_settings_menu_item;
  show_toolbar_indicator =
      or_default (Dict.get "show_toolbar_indicator" d) default.show_toolbar_indicator;
  show_sync_tooltip = or_default (Dict.get "show_sync_tooltip" d) default.show_sync_tooltip;
  log_to_file = or_default (Dict.get "log_to_file" d) default.log_to_file;
}

-- The check of the port; `none` is the TypeError of a value that is no number.
abbrev pub is_port : Value → Option Bool
is_port (flag b) = some b
is_port (number n) = some (leb 1 n && leb n 65535)
is_port (fraction n) = some (leb 1 n && ltb n 65535)
is_port negative = some false
is_port _ = none

unfoldable pub is_valid : Config → Option Bool
is_valid c = is_port c.http_port

-- The addon's storage: what it gives for its own name, and what it is after a write.
pub record AddonManager (Store : Type 0) : Type 0 where
  pub get_config : Store → Option (Dict Value)
  pub write_config : Dict Value → Store → Store

abbrev pub or_empty : Option (Dict Value) → Dict Value
or_empty none = []
or_empty (some d) = d

module _ {Store : Type 0} (manager : AddonManager Store) where
  unfoldable pub load : Store → Config
  unfolding from_dict
  load store = from_dict (or_empty (manager.get_config store))

  -- `get_max_notes_per_batch` and `get_show_sync_tooltip`, where the import or the read may raise.
  unfoldable pub get_max_notes_per_batch : Option Store → Value
  unfolding load
  get_max_notes_per_batch none = default.max_notes_per_batch
  get_max_notes_per_batch (some store) = (load store).max_notes_per_batch

  unfoldable pub get_show_sync_tooltip : Option Store → Value
  unfolding load
  get_show_sync_tooltip none = default.show_sync_tooltip
  get_show_sync_tooltip (some store) = (load store).show_sync_tooltip

-- A manager with the names of its listeners, and the calls of listeners so far.
pub record ConfigManager : Type 0 where
  pub listeners : List String
  pub notified : List (String × Config)

unfoldable pub on_change : String → ConfigManager → ConfigManager
on_change callback m = record m { listeners = m.listeners ++ callback ∷ [] }

-- The listeners are called in order, where each returns; one that raises would end the loop.
abbrev pub notify_all : List String → Config → List (String × Config)
notify_all [] c = []
notify_all (listener ∷ listeners) c = (listener, c) ∷ notify_all listeners c

module _ {Store : Type 0} (manager : AddonManager Store) where
  -- Where no listener raises.
  unfoldable pub save : Config → ConfigManager × Store → ConfigManager × Store
  unfolding to_dict
  save c (m, store) = (
    record m { notified = m.notified ++ notify_all m.listeners c },
    manager.write_config (to_dict c) store,
  )
