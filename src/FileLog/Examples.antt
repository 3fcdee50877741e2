-- ===== src/FileLog/Examples.antt =====
-- A record with a key and a token.
use anki_mcp_server_addon.Prelude.{
  ℕ, ◌≡◌, refl, inl, Bool, false, Option, none, some, List, [], ◌∷◌, codes, contains, ◌==◌, arith,
}
use anki_mcp_server_addon.FileLog.{LogRecord, register_secret, mask, filter_record}
use anki_mcp_server_addon.FileLog.Hidden.{registered, Lacks, filter_record_hides}

abbrev is_blank : ℕ → Bool
is_blank c = c == 32

abbrev values : List (Option (List ℕ))
values = some (codes "hunter2") ∷ none ∷ some (codes "abc") ∷ []

abbrev failed : LogRecord
failed = record {
  message = some (codes "key hunter2!");
  template = codes "key %s";
  exc_info = none;
  exc_text = some (codes "at hunter2");
  stack_info = none;
}

key_masked :
    mask is_blank (registered values) (codes "a hunter2 abc") ≡ codes "a ***REDACTED*** abc"
unfolding mask register_secret
key_masked = refl

bearer_masked :
    mask is_blank [] (codes "x Bearer  abcdefghijklmnop, y") ≡ codes "x Bearer  ***REDACTED***, y"
unfolding mask
bearer_masked = refl

filter_record_hides_example :
    let written = filter_record is_blank (registered values) failed in
    (contains (codes "hunter2") written.msg ≡ false)
    × Lacks (codes "hunter2") written.exc_text
    × Lacks (codes "hunter2") written.stack_info
filter_record_hides_example =
    filter_record_hides is_blank (codes "hunter2") values failed (omega arith) (inl refl) refl refl
