-- ===== src/Tunnel/Version.antt =====
-- `normalize_client_version` of anki_mcp_server/tunnel/protocol.py. `re.search` tries each position
-- in turn; at a position, a run of digits is taken whole, since what must follow it is no digit.
pub mod Normal
use anki_mcp_server_addon.Prelude.{
  ℕ, Bool, true, false, ◌==◌, Option, none, some, List, [], ◌∷◌, ◌++◌, if◌then◌else◌,
}

abbrev pub dot : ℕ
dot = b'.'

-- `(\d+)`
abbrev pub nonempty : List ℕ × List ℕ → Option (List ℕ × List ℕ)
nonempty ([], rest) = none
nonempty (c ∷ run, rest) = some (c ∷ run, rest)

-- `\.`
abbrev pub after_dot : List ℕ → Option (List ℕ)
after_dot [] = none
after_dot (c ∷ text) = if c == dot then some text else none

infixl 5 ◌>>=◌
abbrev pub ◌>>=◌ : {A B : Type 0} → Option A → (A → Option B) → Option B
none >>= f = none
some a >>= f = f a

abbrev pub triple : List ℕ → List ℕ → List ℕ → List ℕ
triple major minor patch = major ++ (dot ∷ (minor ++ (dot ∷ patch)))

-- `is_digit` is the class `\d` of the regular expressions.
module _ (is_digit : ℕ → Bool) where
  -- The longest run of digits, and what follows it.
  unfoldable pub digits : List ℕ → List ℕ × List ℕ
  digits [] = ([], [])
  digits (c ∷ text) =
      let (run, rest) = digits text in if is_digit c then (c ∷ run, rest) else ([], c ∷ text)

  -- A match of the whole expression at this position, with its groups joined again.
  unfoldable pub match_here : List ℕ → Option (List ℕ)
  unfolding digits
  match_here text = do
    (major, after_major) ← nonempty (digits text)
    minor_on ← after_dot after_major
    (minor, after_minor) ← nonempty (digits minor_on)
    patch_on ← after_dot after_minor
    (patch, rest) ← nonempty (digits patch_on)
    some (triple major minor patch)

  unfoldable pub normalize_client_version : List ℕ → Option (List ℕ)
  unfolding match_here
  normalize_client_version [] = none
  normalize_client_version (c ∷ text) =
      let later = normalize_client_version text in
      elim (match_here (c ∷ text)) [ some version ↦ some version | none ↦ later ]
