-- ===== src/Media/Filename.antt =====
-- `sanitize_media_filename` of anki_mcp_server/media_validators.py, on lists of code points, with the
-- POSIX `os.path.basename`. `is_space` stands for `str.isspace`. The loop is on fuel: the length of
-- the text, since a pass that changes it makes it shorter.
pub mod Safe
use anki_mcp_server_addon.Prelude.{
  ℕ, zero, suc, Bool, true, false, not, ◌&&◌, ◌||◌, List, [], ◌∷◌, length, filter, any, ◌==◌,
  if◌then◌else◌, codes,
}
use anki_mcp_server_addon.Text.{is_nil, text_eq, strip}

abbrev pub slash : ℕ
slash = b'/'

abbrev pub backslash : ℕ
backslash = b'\\'

abbrev pub full_stop : ℕ
full_stop = b'.'

abbrev pub unnamed : List ℕ
unnamed = codes "unnamed"

-- `name.replace(c, "")` for one character.
unfoldable pub without : ℕ → List ℕ → List ℕ
without bad = filter (λ c. not (c == bad))

-- `".." in name`
abbrev pub has_dots : List ℕ → Bool
has_dots [] = false
has_dots (c ∷ []) = false
has_dots (c ∷ d ∷ name) = (c == full_stop && d == full_stop) || has_dots (d ∷ name)

-- `name.replace("..", "")`, left to right.
abbrev pub drop_dots : List ℕ → List ℕ
drop_dots [] = []
drop_dots (c ∷ []) = c ∷ []
drop_dots (c ∷ d ∷ name) =
    let kept = drop_dots (d ∷ name) in
    let rest = drop_dots name in if c == full_stop && d == full_stop then rest else c ∷ kept

unfoldable pub drop_all_dots : ℕ → List ℕ → List ℕ
drop_all_dots zero name = name
drop_all_dots (suc fuel) name =
    let rest = drop_all_dots fuel (drop_dots name) in if has_dots name then rest else name

-- What follows the last slash.
unfoldable pub basename : List ℕ → List ℕ
basename [] = []
basename (c ∷ path) =
    let rest = basename path in
    if any (λ d. d == slash) path then rest else if c == slash then path else c ∷ path

-- The guard at the end.
unfoldable pub named : List ℕ → List ℕ
named name =
    if is_nil name || text_eq name (codes ".") || text_eq name (codes "..") then unnamed else name

abbrev pub without_separators : List ℕ → List ℕ
without_separators filename = without backslash (without slash (without 0 filename))

module _ (is_space : ℕ → Bool) where
  unfoldable pub sanitize_media_filename : List ℕ → List ℕ
  unfolding drop_all_dots basename strip named without
  sanitize_media_filename filename =
      let name = without_separators filename in
      named (strip is_space (basename (drop_all_dots (length name) name)))
