-- ===== src/Tunnel/Protocol/Messages.antt =====
-- What the parser accepts, and the one input on which it raises no ValueError.
use anki_mcp_server_addon.Prelude.{
  ℕ, String, str_eq, eq_iff, ◌≡◌, ◌↔◌, refl, ap, subst, true, Option, none, some, ◌⊎◌, inl, inr,
  List, arith, any, Bool-cases,
}
use anki_mcp_server_addon.Tunnel.Protocol.{
  null, text, other_hashable, unhashable, Decoded, object, not_object, message, type_error,
  parse_decoded, parse_server_message, server_message_types,
}

abbrev pub IsKnown : String → Type 0
IsKnown name =
    (name ≡ "tunnel_established") ⊎ ((name ≡ "request") ⊎ ((name ≡ "ping") ⊎ (name ≡ "error")))

any-IsKnown : (name : String) → any (str_eq name) server_message_types ≡ true → IsKnown name
any-IsKnown name h = ground (
  arith,
  eq_iff name "tunnel_established",
  eq_iff name "request",
  eq_iff name "ping",
  eq_iff name "error",
)

IsKnown-any : (name : String) → IsKnown name → any (str_eq name) server_message_types ≡ true
IsKnown-any name (inl e) = rw e
IsKnown-any name (inr (inl e)) = rw e
IsKnown-any name (inr (inr (inl e))) = rw e
IsKnown-any name (inr (inr (inr e))) = rw e

accepted_decoded :
    (decoded : Option Decoded) (name : String)
    → parse_decoded decoded ≡ message name
    → (decoded ≡ some (object (some (text name)))) × IsKnown name
unfolding parse_decoded
accepted_decoded none name h = cc
accepted_decoded (some not_object) name h = cc
accepted_decoded (some (object none)) name h = cc
accepted_decoded (some (object (some null))) name h = cc
accepted_decoded (some (object (some other_hashable))) name h = cc
accepted_decoded (some (object (some unhashable))) name h = cc
accepted_decoded (some (object (some (text found)))) name h =
    elim (Bool-cases (any (str_eq found) server_message_types)) [
      | inl known ↦
          let same : found ≡ name = ground arith in
          (
            ap (λ n. some (object (some (text n)))) same,
            subst IsKnown same (any-IsKnown found known),
          )
      | inr new ↦ absurd (ground arith)
    ]

raised_decoded :
    (decoded : Option Decoded)
    → parse_decoded decoded ≡ type_error
    → decoded ≡ some (object (some unhashable))
unfolding parse_decoded
raised_decoded none h = cc
raised_decoded (some not_object) h = cc
raised_decoded (some (object none)) h = cc
raised_decoded (some (object (some null))) h = cc
raised_decoded (some (object (some other_hashable))) h = cc
raised_decoded (some (object (some unhashable))) h = refl
raised_decoded (some (object (some (text found)))) h = absurd (ground arith)

-- The parser accepts exactly the objects whose type is the text of a known message, whose name is
-- one of the four of the protocol, and it raises TypeError exactly for the objects whose type is a
-- list or an object.
pub parse_outcomes :
    (loads : List ℕ → Option Decoded) (raw : List ℕ)
    → ((name : String)
        → (parse_server_message loads raw ≡ message name)
          ↔ ((loads raw ≡ some (object (some (text name)))) × IsKnown name))
      × ((parse_server_message loads raw ≡ type_error)
          ↔ (loads raw ≡ some (object (some unhashable))))
unfolding parse_server_message parse_decoded
parse_outcomes loads raw = (
  λ name. (accepted_decoded (loads raw) name, λ h. rw h.0 (rw (IsKnown-any name h.1))),
  (raised_decoded (loads raw), λ listed. rw listed),
)
