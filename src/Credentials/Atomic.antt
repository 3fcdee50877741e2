-- ===== src/Credentials/Atomic.antt =====
-- A save that fails loses nothing.
use anki_mcp_server_addon.Prelude.{
  ℕ, ◌≡◌, refl, ◌⊎◌, inl, inr, Bool, true, false, Option, none, some, Option-cases, List, ◌++◌,
  codes,
}
use anki_mcp_server_addon.Prelude.Dict
use anki_mcp_server_addon.Prelude.Dict.{Dict}
use anki_mcp_server_addon.Credentials.{
  Value, Json, object, Credentials, to_dict, Disk, Loaded, returned, from_dict, from_json, clean_up,
  Content, utf8, undecodable, load_content, load, SaveEnd, all_done, mkdir_fails, write_fails,
  chmod_fails, replace_fails, save,
}

-- What a load gives after a save: the new credentials if every step returned, and what it gave before
-- otherwise.
abbrev pub loaded_after : SaveEnd → Credentials → Loaded → Loaded
loaded_after all_done c before = returned (some c)
loaded_after _ c before = before

-- The temporary file is gone, unless removing it failed or its folder was missing.
abbrev pub IsTidy : SaveEnd → Bool → Disk → Disk → Type 0
IsTidy end unlinks before after =
    (after.tmp ≡ none) ⊎ ((unlinks ≡ false) ⊎ ((end ≡ mkdir_fails) × (after ≡ before)))

-- What is loaded does not depend on the secrets that are registered.
same_loaded :
    (loads : List ℕ → Option Json) (content : Option Content) (s t : List (List ℕ))
    → (load_content loads content s).0 ≡ (load_content loads content t).0
unfolding load_content
same_loaded loads none s t = refl
same_loaded loads (some undecodable) s t = refl
same_loaded loads (some (utf8 raw)) s t = elim (Option-cases (from_json (loads raw))) [
  | inl e ↦ rw e refl
  | inr (c, e) ↦ rw e refl
]

IsTidy-clean_up :
    (end : SaveEnd) (unlinks : Bool) (before : Disk) (tmp : Option Content)
    → IsTidy end unlinks before (record before { tmp = clean_up unlinks tmp })
IsTidy-clean_up end true before tmp = inl refl
IsTidy-clean_up end false before tmp = inr (inl refl)

from_dict-to_dict : (c : Credentials) → from_dict (to_dict c) ≡ some c
unfolding from_dict to_dict Dict.get
from_dict-to_dict c = refl

-- Where JSON round trips at these credentials and the file is readable, a load after a save gives the
-- new credentials if
-- every step of the save returned, and what it gave before if one failed; and a temporary file is left
-- only where removing it failed, or the folder could not be made and nothing changed.
pub save_keeps :
    (dumps : Dict Value → List ℕ) (loads : List ℕ → Option Json) (end : SaveEnd) (unlinks : Bool)
    (c : Credentials) (disk : Disk) (secrets : List (List ℕ))
    → loads (dumps (to_dict c) ++ codes "\n") ≡ some (object (to_dict c))
    → let after = save dumps end unlinks c (disk, secrets) in
      ((load loads true after.0 after.1).0 ≡ loaded_after end c (load loads true disk secrets).0)
      × IsTidy end unlinks disk after.0
unfolding save load
save_keeps dumps loads mkdir_fails unlinks c disk secrets trip = (refl, inr (inr (refl, refl)))
save_keeps dumps loads all_done unlinks c disk secrets trip =
    (rw (trip, from_dict-to_dict c) refl, inl refl)
save_keeps dumps loads (write_fails partial) unlinks c disk secrets trip = (
  same_loaded loads disk.credentials _ secrets,
  IsTidy-clean_up (write_fails partial) unlinks disk partial,
)
save_keeps dumps loads chmod_fails unlinks c disk secrets trip =
    (same_loaded loads disk.credentials _ secrets, IsTidy-clean_up chmod_fails unlinks disk _)
save_keeps dumps loads replace_fails unlinks c disk secrets trip =
    (same_loaded loads disk.credentials _ secrets, IsTidy-clean_up replace_fails unlinks disk _)
