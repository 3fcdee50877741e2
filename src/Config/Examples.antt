-- ===== src/Config/Examples.antt =====
-- A storage that gives the user's values over the ones that the addon ships with.
use anki_mcp_server_addon.Prelude.{String, ◌≡◌, refl, arith, some, [], ◌∷◌, ◌++◌, map}
use anki_mcp_server_addon.Prelude.Dict
use anki_mcp_server_addon.Prelude.Dict.{Dict}
use anki_mcp_server_addon.Config.{
  Value, number, text, texts, Config, default, from_dict, AddonManager, load, ConfigManager, save,
}
use anki_mcp_server_addon.Config.Saved.{KeepsWritten, load-save}

abbrev shipped : Dict Value
shipped = ("http_port", number 3141) ∷ ("log_level", text "info") ∷ []

abbrev user_over_shipped : AddonManager (Dict Value)
user_over_shipped = record {
  get_config = λ user. some (user ++ shipped);
  write_config = λ written user. written;
}

get-append_some :
    (key : String) (value : Value) (d e : Dict Value)
    → Dict.get key d ≡ some value
    → Dict.get key (d ++ e) ≡ some value
unfolding Dict.get
get-append_some key value [] e h = cc
get-append_some key value ((k, v) ∷ d) e h = ground (arith, get-append_some key value d e)

user_over_shipped-KeepsWritten : KeepsWritten user_over_shipped
user_over_shipped-KeepsWritten written user key value h =
    get-append_some key value written shipped h

abbrev opened_up : Config
opened_up = record default { http_port = number 8080; cors_origins = texts ("*" ∷ []) }

abbrev listening : ConfigManager
listening = record { listeners = "restart" ∷ "redraw" ∷ []; notified = [] }

unknown_ignored : from_dict shipped ≡ default
unfolding from_dict Dict.get
unknown_ignored = refl

load-save_example :
    let saved = save user_over_shipped opened_up (listening, []) in
    (load user_over_shipped saved.1 ≡ opened_up)
    × (saved.0.notified ≡ [] ++ map (λ listener. (listener, opened_up)) listening.listeners)
load-save_example =
    load-save user_over_shipped opened_up listening [] user_over_shipped-KeepsWritten
