-- ===== src/Lifecycle/Examples.antt =====
-- A manager that is started, used, moved to another port, and stopped.
use anki_mcp_server_addon.Prelude.{
  ℕ, String, str_eq, ◌≡◌, refl, Bool, ◌||◌, true, some, List, [], ◌∷◌,
}
use anki_mcp_server_addon.Bridge.Handlers.{ToolRequest}
use anki_mcp_server_addon.Lifecycle.{
  Settings, Event, new, starts, sends, updates, stops, run, update_config, start, auth_of,
}
use anki_mcp_server_addon.Lifecycle.States.{IsConsistent}
use anki_mcp_server_addon.Lifecycle.Consistent.{run-IsConsistent}

abbrev first : Settings
first = record {
  tunnel_server_url = "wss://a";
  tunnel_client_id = "c";
  http_enabled = true;
  http_port = 3141;
}

abbrev moved : Settings
moved = record first { tunnel_server_url = "wss://b"; http_port = 8080 }

abbrev wrong : Settings
wrong = record first { tunnel_server_url = "https://b"; http_port = 8080 }

abbrev accepts : String → Bool
accepts url = str_eq url "wss://a" || str_eq url "wss://b"

abbrev ask : ToolRequest ℕ
ask = record { request_id = "r"; tool_name = "sync"; arguments = 0 }

abbrev session : List (Event ℕ)
session = starts ∷ sends ask ∷ updates moved ∷ stops ∷ []

run-IsConsistent_example : IsConsistent (run {Args = ℕ} {Value = ℕ} accepts [] session (new first))
run-IsConsistent_example = run-IsConsistent accepts [] first session (tt, (tt, (refl, (tt, tt))))

-- A url that the login client refuses: the new port is stored, and the server keeps the old one.
wrong_url_splits :
    let m = update_config accepts wrong (start (new {Args = ℕ} {Value = ℕ} first)) in
    (m.settings ≡ wrong) × (m.server ≡ some first) × (m.auth ≡ auth_of first)
unfolding update_config start new
wrong_url_splits = (refl, refl, refl)
