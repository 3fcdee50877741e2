-- ===== src/FileLog.antt =====
-- `_RedactingFilter` of anki_mcp_server/file_log.py, which every record passes before it is written.
-- `is_space` stands for the class `\s` of `re`.
mod Examples
pub mod Replace
mod Secrets
pub mod Hidden
use anki_mcp_server_addon.Prelude.{
  ℕ, zero, suc, ◌+◌, ◌-◌, Bool, true, false, ◌&&◌, ◌||◌, Option, none, some, List, [], ◌∷◌, ◌++◌,
  length, take, drop, any, codes, is_prefix, contains, leb, ltb, ◌==◌, if◌then◌else◌,
}
use anki_mcp_server_addon.Text.{text_eq}

abbrev pub replacement : List ℕ
replacement = codes "***REDACTED***"

-- The set of secrets, as a list without repetition in the order in which it is iterated.
unfoldable pub register_secret : Option (List ℕ) → List (List ℕ) → List (List ℕ)
register_secret none secrets = secrets
register_secret (some value) secrets =
    if leb 4 (length value)
    then (if any (text_eq value) secrets then secrets else value ∷ secrets)
    else secrets

-- `sorted(secrets, key=len, reverse=True)`, which keeps the order of equal lengths.
unfoldable pub insert_by_length : List ℕ → List (List ℕ) → List (List ℕ)
insert_by_length secret [] = secret ∷ []
insert_by_length secret (next ∷ secrets) =
    if leb (length next) (length secret)
    then secret ∷ next ∷ secrets
    else next ∷ insert_by_length secret secrets

unfoldable pub sort_by_length : List (List ℕ) → List (List ℕ)
unfolding insert_by_length
sort_by_length [] = []
sort_by_length (secret ∷ secrets) = insert_by_length secret (sort_by_length secrets)

-- `text.replace(secret, replacement)` for a secret that is not empty; the number counts what is left
-- of an occurrence that was replaced.
unfoldable pub replace_from : List ℕ → ℕ → List ℕ → List ℕ
replace_from secret skip [] = []
replace_from secret (suc skip) (c ∷ text) = replace_from secret skip text
replace_from secret zero (c ∷ text) =
    if is_prefix secret (c ∷ text)
    then replacement ++ replace_from secret (length secret - 1) text
    else c ∷ replace_from secret zero text

unfoldable pub mask_secrets : List (List ℕ) → List ℕ → List ℕ
unfolding replace_from
mask_secrets [] text = text
mask_secrets (secret ∷ secrets) text =
    mask_secrets secrets (if contains secret text then replace_from secret 0 text else text)

abbrev pub lower : ℕ → ℕ
lower c = if leb 65 c && leb c 90 then c + 32 else c

-- `bearer` in any case.
abbrev pub is_bearer : List ℕ → Bool
is_bearer (b ∷ e ∷ a ∷ r ∷ e' ∷ r' ∷ text) =
    text_eq (lower b ∷ lower e ∷ lower a ∷ lower r ∷ lower e' ∷ lower r' ∷ []) (codes "bearer")
is_bearer _ = false

-- `[A-Za-z0-9._\-+/=]`, with the four letters beyond ASCII that ignoring case adds to it.
abbrev pub is_token : ℕ → Bool
is_token c =
    (leb 65 c && leb c 90)
    || (leb 97 c && leb c 122)
    || (leb 45 c && leb c 57)
    || any (λ d. c == d) (43 ∷ 61 ∷ 95 ∷ 0x130 ∷ 0x131 ∷ 0x17F ∷ 0x212A ∷ [])

abbrev pub count_while : (ℕ → Bool) → List ℕ → ℕ
count_while p [] = 0
count_while p (c ∷ text) = if p c then suc (count_while p text) else 0

-- A record: its message once it is formatted, if that returns, its raw template, the text of its
-- exception, the text that an earlier handler made of that, and its stack.
pub record LogRecord : Type 0 where
  pub message : Option (List ℕ)
  pub template : List ℕ
  pub exc_info : Option (List ℕ)
  pub exc_text : Option (List ℕ)
  pub stack_info : Option (List ℕ)

-- What the formatter writes of a record that was filtered.
pub record Filtered : Type 0 where
  pub msg : List ℕ
  pub exc_text : Option (List ℕ)
  pub stack_info : Option (List ℕ)

abbrev pub formatted : LogRecord → Option (List ℕ) → List ℕ
formatted r none = r.template
formatted r (some message) = message

abbrev pub exception_of : Option (List ℕ) → Option (List ℕ) → Option (List ℕ)
exception_of none exc_text = exc_text
exception_of (some text) exc_text = some text

module _ (is_space : ℕ → Bool) where
  -- A match of the pattern at the start: the number of spaces, and the length of the token.
  unfoldable pub match_bearer : List ℕ → Option (ℕ × ℕ)
  match_bearer text =
      let spaces = count_while is_space (drop 6 text) in
      let token = count_while is_token (drop (6 + spaces) text) in
      if is_bearer text && leb 1 spaces && leb 16 token then some (spaces, token) else none

  -- `_BEARER_RE.sub`, with what is left of a match to skip.
  unfoldable pub mask_bearer_from : ℕ → List ℕ → List ℕ
  unfolding match_bearer
  mask_bearer_from skip [] = []
  mask_bearer_from (suc skip) (c ∷ text) = mask_bearer_from skip text
  mask_bearer_from zero (c ∷ text) = elim (match_bearer (c ∷ text)) [
    | none ↦ c ∷ mask_bearer_from zero text
    | some (spaces, token) ↦
        take (6 + spaces) (c ∷ text) ++ (replacement ++ mask_bearer_from (5 + spaces + token) text)
  ]

  unfoldable pub mask : List (List ℕ) → List ℕ → List ℕ
  unfolding sort_by_length mask_secrets mask_bearer_from
  mask secrets text = mask_bearer_from 0 (mask_secrets (sort_by_length secrets) text)

  abbrev pub mask_option : List (List ℕ) → Option (List ℕ) → Option (List ℕ)
  mask_option secrets none = none
  mask_option secrets (some text) = some (mask secrets text)

  unfoldable pub filter_record : List (List ℕ) → LogRecord → Filtered
  unfolding mask
  filter_record secrets r = record {
    msg = mask secrets (formatted r r.message);
    exc_text = mask_option secrets (exception_of r.exc_info r.exc_text);
    stack_info = mask_option secrets r.stack_info;
  }
