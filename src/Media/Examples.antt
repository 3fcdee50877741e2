-- ===== src/Media/Examples.antt =====
-- Test data for the media checks, and the theorems about them at that data.
use anki_mcp_server_addon.Prelude.{
  ℕ, ◌≡◌, ◌↔◌, refl, Bool, true, false, inl, inr, Option, none, some, ◌==◌, any, List, [], ◌∷◌,
  codes,
}
use anki_mcp_server_addon.Media.Filename.{sanitize_media_filename}
use anki_mcp_server_addon.Media.Filename.Safe.{IsSafe, sanitize_media_filename-IsSafe}
use anki_mcp_server_addon.Media.Inputs.{
  import_dir_error, validate_media_file_path, Ranges, Address, ParsedUrl, Resolution, addresses,
  url_blocked, validate_media_url,
}
use anki_mcp_server_addon.Media.Inputs.Types.{IsMedia}
use anki_mcp_server_addon.Media.Inputs.Accepted.{IsBelow, path_accepted, Passes, url_accepted}

abbrev is_blank : ℕ → Bool
is_blank c = c == b' '

-- Dots that come together only when the separators are gone.
abbrev sneaky : List ℕ
sneaky = codes "./././/etc .png "

sneaky_sanitized : sanitize_media_filename is_blank sneaky ≡ codes ".etc .png"
unfolding sanitize_media_filename
sneaky_sanitized = refl

sanitize_media_filename-IsSafe_example : IsSafe (sanitize_media_filename is_blank sneaky)
sanitize_media_filename-IsSafe_example = sanitize_media_filename-IsSafe is_blank sneaky

abbrev as_is : List ℕ → List ℕ
as_is text = text

abbrev guess_png : List ℕ → Option (List ℕ)
guess_png name = some (codes "image/png")

path_accepted_example :
    (validate_media_file_path guess_png as_is as_is (codes "/in/a.png") [] (some (codes "/in"))
      ≡ inr (codes "/in/a.png"))
    ↔ ((any (λ c. c == 0) (codes "/in/a.png") ≡ false)
        × (codes "/in/a.png" ≡ as_is (codes "/in/a.png"))
        × IsMedia guess_png [] (codes "/in/a.png")
        × IsBelow guess_png as_is as_is (some (codes "/in")) (codes "/in/a.png"))
path_accepted_example =
    path_accepted guess_png as_is as_is (codes "/in/a.png") (codes "/in/a.png") []
      (some (codes "/in"))

-- The root as the import directory lets no file in.
root_lets_none :
    validate_media_file_path guess_png as_is as_is (codes "/in/a.png") [] (some (codes "/"))
    ≡ inl (import_dir_error (codes "/in/a.png"))
unfolding validate_media_file_path
root_lets_none = refl

abbrev public_ranges : Ranges
public_ranges = record {
  is_private = false;
  is_loopback = false;
  is_link_local = false;
  is_reserved = false;
  is_multicast = false;
  is_unspecified = false;
}

abbrev public_address : Address
public_address = record {
  ip_str = codes "93.184.216.34";
  ranges = public_ranges;
  ipv4_mapped = none;
}

abbrev mapped_address : Address
mapped_address = record {
  ip_str = codes "::ffff:10.0.0.5";
  ranges = public_ranges;
  ipv4_mapped = some (record public_ranges { is_private = true });
}

abbrev parse_web : List ℕ → Option ParsedUrl
parse_web url = some (record { scheme = codes "http"; hostname = url })

abbrev resolve_public : List ℕ → Resolution
resolve_public host = addresses (public_address ∷ [])

abbrev resolve_mapped : List ℕ → Resolution
resolve_mapped host = addresses (public_address ∷ mapped_address ∷ [])

url_accepted_example :
    (validate_media_url as_is parse_web resolve_public (codes "host") [] ≡ inr (codes "host"))
    ↔ ((codes "host" ≡ codes "host") × Passes as_is parse_web resolve_public (codes "host") [])
url_accepted_example = url_accepted as_is parse_web resolve_public (codes "host") [] (codes "host")

mapped_refused :
    validate_media_url as_is parse_web resolve_mapped (codes "host") [] ≡ inl url_blocked
unfolding validate_media_url
mapped_refused = refl
