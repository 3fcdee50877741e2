-- ===== src/Tunnel/Reconnect/Ends.antt =====
-- What a pass of the reconnect loop may do, and why the loop may end.
use anki_mcp_server_addon.Prelude.{
  ℕ, ◌+◌, ◌≤◌, ◌<◌, ◌≡◌, true, false, ◌⊎◌, inl, inr, List, [], ◌∷◌, ◌++◌, arith, All, Bool-cases,
  ◌==◌,
}
use anki_mcp_server_addon.Tunnel.Protocol.{should_reconnect, should_refresh_token}
use anki_mcp_server_addon.Tunnel.Reconnect.{
  breaks, abandoned, crashed, aborted, Round, Reason, no_credentials, refresh_revoked, by_user,
  exhausted, tunnel_error, from_server, Action, transport_started, transport_stopped,
  reports_start_failure, reports_reconnecting, reports_stopped, Next, stops, goes_on, breaks_out,
  cancels, Pass, max_attempts, max_delay,
}

-- Inside the loop, a reconnection is announced with its number and delay in range, and the end is not.
abbrev pub IsAllowed : Action → Type 0
IsAllowed (reports_reconnecting attempt delay) =
    (0 < attempt) × (attempt < max_attempts) × (1000 ≤ delay) × (delay ≤ max_delay)
IsAllowed (reports_stopped code reason) = ⊥
IsAllowed _ = Unit

-- How many more transports were opened, or failed to open, than were stopped.
abbrev pub opened : Action → ℕ
opened transport_started = 1
opened reports_start_failure = 1
opened _ = 0

abbrev pub shut : Action → ℕ
shut transport_stopped = 1
shut _ = 0

abbrev pub total : (Action → ℕ) → List Action → ℕ
total f [] = 0
total f (a ∷ actions) = f a + total f actions

-- The codes after which there is no reconnection: a normal close, a revoked token, a deleted account,
-- and a session that another replaced.
abbrev pub IsPermanent : ℕ → Type 0
IsPermanent code = (code ≡ 1000) ⊎ (code ≡ 4002) ⊎ (code ≡ 4004) ⊎ (code ≡ 4005)

-- The codes of a failed authentication, of the client or of the tunnel.
abbrev pub AsksRefresh : ℕ → Type 0
AsksRefresh code = (code ≡ 4001) ⊎ (code ≡ 4003)

pub should_reconnect-IsPermanent : (code : ℕ) → should_reconnect code ≡ false → IsPermanent code
unfolding should_reconnect
should_reconnect-IsPermanent code h = elim (Bool-cases (1000 == code)) [
  | inl e ↦ inl (ground arith)
  | inr a ↦ elim (Bool-cases (4002 == code)) [
    | inl e ↦ inr (inl (ground arith))
    | inr b ↦ elim (Bool-cases (4004 == code)) [
      | inl e ↦ inr (inr (inl (ground arith)))
      | inr c ↦ elim (Bool-cases (4005 == code)) [
        | inl e ↦ inr (inr (inr (ground arith)))
        | inr d ↦ absurd (ground arith)
      ]
    ]
  ]
]

pub should_refresh_token-AsksRefresh :
    (code : ℕ) → should_refresh_token code ≡ true → AsksRefresh code
unfolding should_refresh_token
should_refresh_token-AsksRefresh code h = elim (Bool-cases (4001 == code)) [
  | inl e ↦ inl (ground arith)
  | inr a ↦ elim (Bool-cases (4003 == code)) [
    | inl e ↦ inr (ground arith)
    | inr b ↦ absurd (ground arith)
  ]
]

-- Why the loop may end with a code and a reason.
abbrev pub IsFinal : ℕ → Reason → Type 0
IsFinal code no_credentials = code ≡ 0
IsFinal code refresh_revoked = (code ≡ 0) ⊎ AsksRefresh code
IsFinal code by_user = code ≡ 1000
IsFinal code exhausted = code ≡ 0
IsFinal code tunnel_error = ⊥
IsFinal code (from_server reason) = IsPermanent code

-- An exception that the loop does not catch comes from the client or from a refresh of the token.
abbrev pub Raises : Round → Type 0
Raises r = (r.client ≡ crashed) ⊎ (r.refresh_before ≡ breaks) ⊎ (r.refresh_after ≡ breaks)

-- Where the task can be cancelled.
abbrev pub Cancels : Round → Type 0
Cancels r =
    (r.client ≡ aborted)
    ⊎ (r.refresh_before ≡ abandoned)
    ⊎ (r.refresh_after ≡ abandoned)
    ⊎ (r.cancelled_starting ≡ true)
    ⊎ (r.cancelled_asleep ≡ true)

abbrev pub NextIsFinal : Round → Next → Type 0
NextIsFinal r (stops code reason) = IsFinal code reason
NextIsFinal r (goes_on attempt shutdown) = Unit
NextIsFinal r breaks_out = Raises r
NextIsFinal r cancels = Cancels r

pub record IsFair (r : Round) (extra : ℕ) (p : Pass) : Type 0 where
  pub allowed : All IsAllowed p.0
  pub balance : total shut p.0 ≡ total opened p.0 + extra
  pub final : NextIsFinal r p.1

pub All-append {ℓ κ} :
    {A : Type ℓ} (P : A → Type κ) (xs ys : List A) → All P xs → All P ys → All P (xs ++ ys)
All-append P [] ys hx hy = hy
All-append P (x ∷ xs) ys hx hy = (hx.0, All-append P xs ys hx.1 hy)

pub total-append :
    (f : Action → ℕ) (xs ys : List Action) → total f (xs ++ ys) ≡ total f xs + total f ys
total-append f [] ys = omega arith
total-append f (x ∷ xs) ys = omega (arith, total-append f xs ys)
