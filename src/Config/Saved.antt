-- ===== src/Config/Saved.antt =====
-- What is saved is what is loaded.
use anki_mcp_server_addon.Prelude.{String, ◌≡◌, refl, ap, some, List, [], ◌∷◌, ◌++◌, map}
use anki_mcp_server_addon.Prelude.Dict
use anki_mcp_server_addon.Prelude.Dict.{Dict}
use anki_mcp_server_addon.Config.{
  Value, Config, to_dict, from_dict, AddonManager, or_empty, load, ConfigManager, notify_all, save,
}

-- Reading back what was written gives at least the keys that were written, with their values.
abbrev pub KeepsWritten : {Store : Type 0} → AddonManager Store → Type 0
KeepsWritten {Store} manager =
    (written : Dict Value) (store : Store) (key : String) (value : Value)
    → Dict.get key written ≡ some value
    → Dict.get key (or_empty (manager.get_config (manager.write_config written store))) ≡ some value

-- A dict with the items of `to_dict` is read as the same configuration.
from_dict-to_dict :
    (c : Config) (d : Dict Value)
    → ((key : String) (value : Value)
        → Dict.get key (to_dict c) ≡ some value
        → Dict.get key d ≡ some value)
    → from_dict d ≡ c
unfolding from_dict to_dict Dict.get
from_dict-to_dict c d same = simp (
  same "http_enabled" c.http_enabled refl,
  same "http_port" c.http_port refl,
  same "http_host" c.http_host refl,
  same "http_path" c.http_path refl,
  same "http_api_key" c.http_api_key refl,
  same "http_allowed_hosts" c.http_allowed_hosts refl,
  same "http_allowed_origins" c.http_allowed_origins refl,
  same "cors_origins" c.cors_origins refl,
  same "cors_expose_headers" c.cors_expose_headers refl,
  same "disabled_tools" c.disabled_tools refl,
  same "enabled_destructive_tools" c.enabled_destructive_tools refl,
  same "max_notes_per_batch" c.max_notes_per_batch refl,
  same "tunnel_server_url" c.tunnel_server_url refl,
  same "tunnel_client_id" c.tunnel_client_id refl,
  same "media_import_dir" c.media_import_dir refl,
  same "media_allowed_types" c.media_allowed_types refl,
  same "media_allowed_hosts" c.media_allowed_hosts refl,
  same "show_settings_menu_item" c.show_settings_menu_item refl,
  same "show_toolbar_indicator" c.show_toolbar_indicator refl,
  same "show_sync_tooltip" c.show_sync_tooltip refl,
  same "log_to_file" c.log_to_file refl,
)

-- With a storage that keeps what is written, a saved configuration is loaded unchanged, whatever the
-- storage held before and its values are, and each listener is called with it once, in order.
pub load-save :
    {Store : Type 0} (manager : AddonManager Store) (c : Config) (m : ConfigManager) (store : Store)
    → KeepsWritten manager
    → let saved = save manager c (m, store) in
      (load manager saved.1 ≡ c)
      × (saved.0.notified ≡ m.notified ++ map (λ listener. (listener, c)) m.listeners)
unfolding save load
load-save manager c m store keeps = (
  from_dict-to_dict c _ (keeps (to_dict c) store),
  ap (λ calls. m.notified ++ calls) (calls_of m.listeners),
)
  where
    calls_of :
        (listeners : List String)
        → notify_all listeners c ≡ map (λ listener. (listener, c)) listeners
    calls_of [] = refl
    calls_of (listener ∷ listeners) = ap (λ calls. (listener, c) ∷ calls) (calls_of listeners)
