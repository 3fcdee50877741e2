-- ===== src/Tunnel/Reconnect/Delays.antt =====
-- The delay before a reconnection.
use Prim.Native.Nat.{min}
use native.Mathlib.Nat.{pow-suc}
use anki_mcp_server_addon.Prelude.{
  ◌<◌, ◌⊎◌, inl, inr, Bool-cases, leb, ℕ, zero, suc, ◌^◌, ◌≤◌, ◌≡◌, arith,
}
use anki_mcp_server_addon.Tunnel.Reconnect.{base_delay, max_delay, calculate_delay}

pow-pos : (n : ℕ) → 1 ≤ 2 ^ n
pow-pos zero = omega arith
pow-pos (suc n) = omega (arith, pow-suc 2 n, pow-pos n)

pow-le : (n : ℕ) → 5 ≤ n → 32 ≤ 2 ^ n
pow-le zero h = omega arith
pow-le (suc zero) h = omega arith
pow-le (suc (suc zero)) h = omega arith
pow-le (suc (suc (suc zero))) h = omega arith
pow-le (suc (suc (suc (suc zero)))) h = omega arith
pow-le (suc (suc (suc (suc (suc n))))) h = omega (
  arith,
  pow-suc 2 n,
  pow-suc 2 (suc n),
  pow-suc 2 (suc (suc n)),
  pow-suc 2 (suc (suc (suc n))),
  pow-suc 2 (suc (suc (suc (suc n)))),
  pow-pos n,
)

-- Every delay is at least the smaller of the doubled base and the limit, so at least a second, it is
-- at most the limit, and from the fifth attempt on it is the limit, whatever the jitter.
pub calculate_delay_bounds :
    (attempt jitter : ℕ)
    → (min (base_delay attempt) max_delay ≤ calculate_delay attempt jitter)
      × (1000 ≤ calculate_delay attempt jitter)
      × (calculate_delay attempt jitter ≤ max_delay)
      × ((attempt < 5) ⊎ (calculate_delay attempt jitter ≡ max_delay))
unfolding calculate_delay
calculate_delay_bounds attempt jitter = (
  omega arith,
  omega (arith, pow-pos attempt),
  omega arith,
  elim (Bool-cases (leb 5 attempt)) [
    | inl late ↦ inr (omega (arith, pow-le attempt (ground arith)))
    | inr early ↦ inl (ground arith)
  ],
)
