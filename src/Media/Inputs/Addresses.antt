-- ===== src/Media/Inputs/Addresses.antt =====
-- The addresses that a URL may resolve to.
use anki_mcp_server_addon.Prelude.{
  ℕ, ◌≡◌, refl, true, false, ◌⊎◌, inl, inr, Option, none, some, List, [], ◌∷◌, arith, any, All,
  Bool-cases,
}
use anki_mcp_server_addon.Text.{text_eq, text_eq-eq, text_eq_refl}
use anki_mcp_server_addon.Media.Inputs.{
  lowered, Ranges, Address, check_ip_blocked, is_mapped_blocked, is_safe_host, check_addresses,
}

module _ (lower : List ℕ → List ℕ) (allowed_hosts : List (List ℕ)) (hostname : List ℕ) where
  -- In none of the restricted ranges.
  pub record IsPublic (r : Ranges) : Type 0 where
    pub not_private : r.is_private ≡ false
    pub not_loopback : r.is_loopback ≡ false
    pub not_link_local : r.is_link_local ≡ false
    pub not_reserved : r.is_reserved ≡ false
    pub not_multicast : r.is_multicast ≡ false
    pub not_unspecified : r.is_unspecified ≡ false

  check_ip_blocked-IsPublic : (r : Ranges) → check_ip_blocked r ≡ false → IsPublic r
  unfolding check_ip_blocked
  check_ip_blocked-IsPublic r h = record {
    not_private = ground arith;
    not_loopback = ground arith;
    not_link_local = ground arith;
    not_reserved = ground arith;
    not_multicast = ground arith;
    not_unspecified = ground arith;
  }

  IsPublic-check_ip_blocked : (r : Ranges) → IsPublic r → check_ip_blocked r ≡ false
  unfolding check_ip_blocked
  IsPublic-check_ip_blocked r p =
      rw
        (
          p.not_private, p.not_loopback, p.not_link_local, p.not_reserved, p.not_multicast,
          p.not_unspecified,
        )
        refl

  abbrev pub IsPublicMapped : Option Ranges → Type 0
  IsPublicMapped none = Unit
  IsPublicMapped (some r) = IsPublic r

  is_mapped_blocked-IsPublicMapped :
      (mapped : Option Ranges) → is_mapped_blocked mapped ≡ false → IsPublicMapped mapped
  is_mapped_blocked-IsPublicMapped none h = tt
  is_mapped_blocked-IsPublicMapped (some r) h = check_ip_blocked-IsPublic r h

  IsPublicMapped-is_mapped_blocked :
      (mapped : Option Ranges) → IsPublicMapped mapped → is_mapped_blocked mapped ≡ false
  IsPublicMapped-is_mapped_blocked none h = refl
  IsPublicMapped-is_mapped_blocked (some r) h = IsPublic-check_ip_blocked r h

  -- A text is one of the hosts of a list, in lower case.
  abbrev pub IsListed : List ℕ → List (List ℕ) → Type 0
  IsListed text [] = ⊥
  IsListed text (host ∷ hosts) = (text ≡ lower host) ⊎ IsListed text hosts

  any-IsListed :
      (text : List ℕ) (hosts : List (List ℕ))
      → any (text_eq text) (lowered lower hosts) ≡ true
      → IsListed text hosts
  any-IsListed text [] h = cc
  any-IsListed text (host ∷ hosts) h = elim (Bool-cases (text_eq text (lower host))) [
    | inl e ↦ inl (text_eq-eq text (lower host) e)
    | inr e ↦ inr (any-IsListed text hosts (ground arith))
  ]

  IsListed-any :
      (text : List ℕ) (hosts : List (List ℕ))
      → IsListed text hosts
      → any (text_eq text) (lowered lower hosts) ≡ true
  IsListed-any text [] h = absurd h
  IsListed-any text (host ∷ hosts) (inl e) = rw e (ground (arith, text_eq_refl (lower host)))
  IsListed-any text (host ∷ hosts) (inr h) = ground (arith, IsListed-any text hosts h)

  -- An address that is allow-listed, by its host or itself, or is in no restricted range, nor the one
  -- that it maps.
  abbrev pub IsFine : Address → Type 0
  IsFine a =
      IsListed hostname allowed_hosts
      ⊎ IsListed a.ip_str allowed_hosts
      ⊎ (IsPublic a.ranges × IsPublicMapped a.ipv4_mapped)

  is_safe_host-IsFine :
      (a : Address) → is_safe_host lower allowed_hosts hostname a ≡ true → IsFine a
  unfolding is_safe_host
  is_safe_host-IsFine a h =
      elim (Bool-cases (any (text_eq hostname) (lowered lower allowed_hosts))) [
        | inl e ↦ inl (any-IsListed hostname allowed_hosts e)
        | inr e ↦ inr (inl (any-IsListed a.ip_str allowed_hosts (ground arith)))
      ]

  IsFine-passes :
      (a : Address)
      → IsFine a
      → (is_safe_host lower allowed_hosts hostname a ≡ true)
        ⊎ ((check_ip_blocked a.ranges ≡ false) × (is_mapped_blocked a.ipv4_mapped ≡ false))
  unfolding is_safe_host
  IsFine-passes a (inl e) = inl (rw (IsListed-any hostname allowed_hosts e) refl)
  IsFine-passes a (inr (inl e)) =
      let listed = IsListed-any a.ip_str allowed_hosts e in inl (ground arith)
  IsFine-passes a (inr (inr (b, m))) =
      inr (IsPublic-check_ip_blocked a.ranges b, IsPublicMapped-is_mapped_blocked a.ipv4_mapped m)

  pub check_addresses-IsFine :
      (found : List Address)
      → check_addresses lower allowed_hosts hostname found ≡ true
      → All IsFine found
  unfolding check_addresses
  check_addresses-IsFine [] h = tt
  check_addresses-IsFine (a ∷ found) h =
      elim (Bool-cases (is_safe_host lower allowed_hosts hostname a)) [
        | inl e ↦ (is_safe_host-IsFine a e, check_addresses-IsFine found (ground arith))
        | inr e ↦ (
          inr (
              inr (
                check_ip_blocked-IsPublic a.ranges (ground arith),
                is_mapped_blocked-IsPublicMapped a.ipv4_mapped (ground arith),
              )),
          check_addresses-IsFine found (ground arith),
        )
      ]

  pub IsFine-check_addresses :
      (found : List Address)
      → All IsFine found
      → check_addresses lower allowed_hosts hostname found ≡ true
  unfolding check_addresses
  IsFine-check_addresses [] h = refl
  IsFine-check_addresses (a ∷ found) (fine, h) = elim (IsFine-passes a fine) [
    | inl e ↦ ground (arith, IsFine-check_addresses found h)
    | inr (b, m) ↦ ground (arith, IsFine-check_addresses found h)
  ]
