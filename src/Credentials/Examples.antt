-- ===== src/Credentials/Examples.antt =====
-- Credentials on a disk.
use anki_mcp_server_addon.Prelude.{
  ℕ, ◌≡◌, refl, inl, true, false, Option, none, some, List, [], codes, contains, ◌==◌, arith,
}
use anki_mcp_server_addon.Prelude.Dict
use anki_mcp_server_addon.Prelude.Dict.{Dict}
use anki_mcp_server_addon.Credentials.{
  Value, text, ignored, Json, object, Credentials, to_dict, Disk, utf8, undecodable, decode_error,
  load, replace_fails, save, is_token_expired,
}
use anki_mcp_server_addon.Credentials.Atomic.{loaded_after, IsTidy, save_keeps}
use anki_mcp_server_addon.Credentials.Tokens.{load_hides}
use anki_mcp_server_addon.FileLog.{LogRecord, filter_record}
use anki_mcp_server_addon.FileLog.Hidden.{registered, Lacks}

abbrev mine : Credentials
mine = record {
  access_token = text (codes "eyJ0");
  refresh_token = text (codes "dGhp");
  expires_at = text (codes "2024-01-15T12:00:00Z");
  user = ignored 0;
}

abbrev dumps : Dict Value → List ℕ
dumps d = codes "{}"

abbrev loads : List ℕ → Option Json
loads raw = some (object (to_dict mine))

abbrev saved : Disk
saved = record { credentials = some (utf8 (codes "{}")); tmp = none }

abbrev broken : Disk
broken = record { credentials = some undecodable; tmp = none }

broken_raises : (load loads true broken []).0 ≡ decode_error
unfolding load
broken_raises = refl

soon_expired :
    is_token_expired (λ c. c == 32) (λ date. some 1000) 940 (codes " 2024-01-15T12:00:00Z") ≡ true
unfolding is_token_expired
soon_expired = refl

save_keeps_example :
    let after = save dumps replace_fails true mine (broken, []) in
    ((load loads true after.0 after.1).0
      ≡ loaded_after replace_fails mine (load loads true broken []).0)
    × IsTidy replace_fails true broken after.0
save_keeps_example = save_keeps dumps loads replace_fails true mine broken [] refl

abbrev shown : LogRecord
shown = record {
  message = some (codes "token eyJ0");
  template = [];
  exc_info = none;
  exc_text = none;
  stack_info = none;
}

load_hides_example :
    let written = filter_record (λ c. c == 32) (load loads true saved (registered [])).1 shown in
    (contains (codes "eyJ0") written.msg ≡ false)
    × Lacks (codes "eyJ0") written.exc_text
    × Lacks (codes "eyJ0") written.stack_info
unfolding load to_dict Dict.get
load_hides_example =
    load_hides (λ c. c == 32) loads saved [] mine (codes "eyJ0") (codes "dGhp") (codes "eyJ0") shown
      refl refl refl (inl refl) (omega arith) refl refl
