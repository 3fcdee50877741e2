-- ===== src/Credentials/Tokens.antt =====
-- The tokens that were loaded stay out of the log.
use anki_mcp_server_addon.Prelude.{
  ℕ, ◌≤◌, ◌≡◌, ◌⊎◌, ◌∙◌, refl, sym, ap, inl, inr, Bool, true, false, Option, none, some, List, ◌∷◌,
  length, contains, Option-cases, arith,
}
use anki_mcp_server_addon.Credentials.{
  text, Json, Content, utf8, undecodable, Credentials, Disk, returned, from_json, tokens,
  register_token_secrets, load_content, load,
}
use anki_mcp_server_addon.FileLog.{replacement, LogRecord, filter_record}
use anki_mcp_server_addon.FileLog.Replace.{IsStarless}
use anki_mcp_server_addon.FileLog.Hidden.{registered, IsAmong, Lacks, filter_record_hides}

-- What a load registers, where it gives credentials.
loaded_secrets :
    (loads : List ℕ → Option Json) (content : Option Content) (secrets : List (List ℕ))
    (c : Credentials)
    → (load_content loads content secrets).0 ≡ returned (some c)
    → (load_content loads content secrets).1 ≡ register_token_secrets (tokens c) secrets
unfolding load_content
loaded_secrets loads none secrets c e = cc
loaded_secrets loads (some undecodable) secrets c e = cc
loaded_secrets loads (some (utf8 raw)) secrets c e = elim (Option-cases (from_json (loads raw))) [
  | inl none_found ↦ absurd (ground arith)
  | inr (d, found) ↦
      let same : d ≡ c = ground arith in
      rw found (ap (λ x. register_token_secrets (tokens x) secrets) same)
]

-- Once a load gave credentials whose access and refresh token are texts, no part of a record that is
-- written after it contains either, where that token has four letters or more, has no asterisk and
-- does not occur in the mark.
pub load_hides :
    (is_space : ℕ → Bool) (loads : List ℕ → Option Json) (disk : Disk)
    (values : List (Option (List ℕ))) (c : Credentials) (access refresh secret : List ℕ)
    (r : LogRecord)
    → (load loads true disk (registered values)).0 ≡ returned (some c)
    → c.access_token ≡ text access
    → c.refresh_token ≡ text refresh
    → (secret ≡ access) ⊎ (secret ≡ refresh)
    → 4 ≤ length secret
    → IsStarless secret
    → contains secret replacement ≡ false
    → let written = filter_record is_space (load loads true disk (registered values)).1 r in
      (contains secret written.msg ≡ false)
      × Lacks secret written.exc_text
      × Lacks secret written.stack_info
unfolding load
load_hides is_space loads disk values c access refresh secret r gives a b either long s apart =
    rw (loaded_secrets loads disk.credentials (registered values) c gives ∙ after) (
      filter_record_hides is_space secret (some refresh ∷ some access ∷ values) r long
        (among either) s apart)
  where
    after :
        register_token_secrets (tokens c) (registered values)
        ≡ registered (some refresh ∷ some access ∷ values)
    after = unfold register_token_secrets in rw (a, b) refl

    among :
        (secret ≡ access) ⊎ (secret ≡ refresh)
        → IsAmong secret (some refresh ∷ some access ∷ values)
    among (inl e) = inr (inl (ap some (sym e)))
    among (inr e) = inl (ap some (sym e))
