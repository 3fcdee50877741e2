-- ===== src/Tunnel/Version/Normal.antt =====
-- The normal form of a version: three runs of digits, which a second pass leaves alone.
use anki_mcp_server_addon.Prelude.{
  ℕ, ◌≡◌, ◌≢◌, refl, subst, inl, inr, Bool, true, false, Option, none, some, List, [], ◌∷◌, ◌++◌,
  arith, All, Option-cases,
}
use anki_mcp_server_addon.Tunnel.Version.{
  dot, digits, nonempty, after_dot, triple, ◌>>=◌, match_here, normalize_client_version,
}

>>=-eq-some :
    {A B : Type 0} (m : Option A) (f : A → Option B) {b : B}
    → (m >>= f) ≡ some b
    → (a : A) × (m ≡ some a) × (f a ≡ some b)
>>=-eq-some none f h = cc
>>=-eq-some (some a) f h = (a, refl, h)

module _ (is_digit : ℕ → Bool) where
  abbrev pub AllDigits : List ℕ → Type 0
  AllDigits run = All (λ c. is_digit c ≡ true) run

  pub record IsVersion (version : List ℕ) : Type 0 where
    pub major : List ℕ
    pub minor : List ℕ
    pub patch : List ℕ
    pub parts : version ≡ triple major minor patch
    pub digits_only : AllDigits major × AllDigits minor × AllDigits patch
    pub all_there : (major ≢ []) × (minor ≢ []) × (patch ≢ [])

  digits-AllDigits : (text : List ℕ) → AllDigits (digits is_digit text).0
  unfolding digits
  digits-AllDigits [] = tt
  digits-AllDigits (c ∷ text) = ground (arith, digits-AllDigits text)

  digits-dot :
      (run rest : List ℕ)
      → is_digit dot ≡ false
      → AllDigits run
      → digits is_digit (run ++ dot ∷ rest) ≡ (run, dot ∷ rest)
  unfolding digits
  digits-dot [] rest stops h = rw stops
  digits-dot (c ∷ run) rest stops h = ground (arith, digits-dot run rest stops h.1)

  digits_all : (run : List ℕ) → AllDigits run → digits is_digit run ≡ (run, [])
  unfolding digits
  digits_all [] h = refl
  digits_all (c ∷ run) h = ground (arith, digits_all run h.1)

  match_triple :
      (a : ℕ) (major : List ℕ) (b : ℕ) (minor : List ℕ) (c : ℕ) (patch : List ℕ)
      → is_digit dot ≡ false
      → AllDigits (a ∷ major)
      → AllDigits (b ∷ minor)
      → AllDigits (c ∷ patch)
      → match_here is_digit (triple (a ∷ major) (b ∷ minor) (c ∷ patch))
        ≡ some (triple (a ∷ major) (b ∷ minor) (c ∷ patch))
  unfolding match_here
  match_triple a major b minor c patch stops ha hb hc = ground (
    arith,
    digits-dot (a ∷ major) ((b ∷ minor) ++ (dot ∷ (c ∷ patch))) stops ha,
    digits-dot (b ∷ minor) (c ∷ patch) stops hb,
    digits_all (c ∷ patch) hc,
  )

  nonempty_run :
      (text run rest : List ℕ)
      → nonempty (digits is_digit text) ≡ some (run, rest)
      → AllDigits run × (run ≢ [])
  nonempty_run text run rest h = by_run (digits is_digit text) (digits-AllDigits text) h
    where
      by_run :
          (found : List ℕ × List ℕ)
          → AllDigits found.0
          → nonempty found ≡ some (run, rest)
          → AllDigits run × (run ≢ [])
      by_run ([], after) ds e = cc
      by_run (c ∷ more, after) ds e =
          let same : c ∷ more ≡ run = ground arith in
          (subst AllDigits same ds, λ none_there. cc (same, none_there))

  match_here-IsVersion :
      (text version : List ℕ) → match_here is_digit text ≡ some version → IsVersion version
  unfolding match_here
  match_here-IsVersion text version h =
      let ((major, r1), e1, h1) = >>=-eq-some (nonempty (digits is_digit text)) _ h in
      let (t2, e2, h2) = >>=-eq-some (after_dot r1) _ h1 in
      let ((minor, r3), e3, h3) = >>=-eq-some (nonempty (digits is_digit t2)) _ h2 in
      let (t4, e4, h4) = >>=-eq-some (after_dot r3) _ h3 in
      let ((patch, r5), e5, h5) = >>=-eq-some (nonempty (digits is_digit t4)) _ h4 in
      let a = nonempty_run text major r1 e1 in
      let b = nonempty_run t2 minor r3 e3 in
      let c = nonempty_run t4 patch r5 e5 in
      record {
        major = major;
        minor = minor;
        patch = patch;
        parts = ground arith;
        digits_only = (a.0, b.0, c.0);
        all_there = (a.1, b.1, c.1);
      }

  normalize-IsVersion :
      (raw version : List ℕ)
      → normalize_client_version is_digit raw ≡ some version
      → IsVersion version
  unfolding normalize_client_version
  normalize-IsVersion [] version h = cc
  normalize-IsVersion (c ∷ raw) version h = elim (Option-cases (match_here is_digit (c ∷ raw))) [
    | inl miss ↦ normalize-IsVersion raw version (ground arith)
    | inr (found, hit) ↦ match_here-IsVersion (c ∷ raw) version (ground arith)
  ]

  normalize_IsVersion :
      (version : List ℕ)
      → is_digit dot ≡ false
      → IsVersion version
      → normalize_client_version is_digit version ≡ some version
  normalize_IsVersion version stops v =
      rw v.parts (whole v.major v.minor v.patch v.digits_only v.all_there)
    where
      whole :
          (major minor patch : List ℕ)
          → AllDigits major × AllDigits minor × AllDigits patch
          → (major ≢ []) × (minor ≢ []) × (patch ≢ [])
          → normalize_client_version is_digit (triple major minor patch)
            ≡ some (triple major minor patch)
      whole [] minor patch ds (a, b, c) = absurd (a refl)
      whole (x ∷ major) [] patch ds (a, b, c) = absurd (b refl)
      whole (x ∷ major) (y ∷ minor) [] ds (a, b, c) = absurd (c refl)
      whole (x ∷ major) (y ∷ minor) (z ∷ patch) (d, e, f) t =
          unfold normalize_client_version in
          ground (arith, match_triple x major y minor z patch stops d e f)

  -- Where the dot is no digit, whatever is sent as the version is three nonempty runs of digits with
  -- dots between them, and normalising it again changes nothing.
  pub normalize_idem :
      (raw version : List ℕ)
      → is_digit dot ≡ false
      → normalize_client_version is_digit raw ≡ some version
      → IsVersion version × (normalize_client_version is_digit version ≡ some version)
  normalize_idem raw version stops h =
      let v = normalize-IsVersion raw version h in (v, normalize_IsVersion version stops v)
