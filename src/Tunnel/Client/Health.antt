-- ===== src/Tunnel/Client/Health.antt =====
-- When the health check notices that the server is silent.
use anki_mcp_server_addon.Prelude.{
  ℕ, ◌+◌, ◌-◌, ◌≤◌, ◌<◌, ◌≡◌, none, some, List, ◌∷◌, inl, inr, refl, ltb, ltb→lt, Bool-cases, arith,
}
use anki_mcp_server_addon.Tunnel.Client.{
  Tick, heartbeat_interval, health_check_timeout, health_check_loop,
}

-- A pause of the length that was asked for, or longer by at most `late`, in which no ping came.
pub record IsSilent (late : ℕ) (tick : Tick) : Type 0 where
  pub at_least : heartbeat_interval ≤ tick.slept
  pub at_most : tick.slept ≤ heartbeat_interval + late
  pub no_ping : tick.pinged ≡ none

-- The loop ends with a silence that is over the timeout, by no more than one late pause.
abbrev EndsWithin : ℕ → ℕ → ℕ → List Tick → Type 0
EndsWithin late now last ticks =
    (silence : ℕ) × (health_check_loop now last ticks ≡ some silence)
    × (health_check_timeout < silence)
    × (silence ≤ health_check_timeout + heartbeat_interval + late)

-- A silent pause ends the loop in time, or leaves that to the pauses after it.
EndsWithin-pause :
    {now last late : ℕ} {tick : Tick} (ticks : List Tick)
    → last ≤ now
    → now ≤ last + health_check_timeout
    → IsSilent late tick
    → (now + tick.slept ≤ last + health_check_timeout
        → EndsWithin late (now + tick.slept) last ticks)
    → EndsWithin late now last (tick ∷ ticks)
unfolding health_check_loop
EndsWithin-pause {now} {last} {tick = tick} ticks order recent silent later =
    rw silent.no_ping elim (Bool-cases (ltb health_check_timeout (now + tick.slept - last))) [
      | inl over ↦
          rw over (now + tick.slept - last, refl, ltb→lt _ _ over, omega (arith, silent.at_most))
      | inr within ↦ rw within (later (ground (arith, order)))
    ]

-- After a check that found the last ping recent enough, the next three pauses without a ping, each
-- late by at most the same time, end the loop, and then more than the timeout has passed without a
-- ping, but no more than it and one late pause.
pub silence_noticed :
    (now last late : ℕ) (a b c : Tick) (ticks : List Tick)
    → last ≤ now
    → now ≤ last + health_check_timeout
    → IsSilent late a
    → IsSilent late b
    → IsSilent late c
    → (silence : ℕ) × (health_check_loop now last (a ∷ b ∷ c ∷ ticks) ≡ some silence)
      × (health_check_timeout < silence)
      × (silence ≤ health_check_timeout + heartbeat_interval + late)
silence_noticed now last late a b c ticks order recent x y z =
    EndsWithin-pause (b ∷ c ∷ ticks) order recent x λ p.
      EndsWithin-pause (c ∷ ticks) (omega arith) p y λ q.
        EndsWithin-pause ticks (omega arith) q z
          λ r. absurd (omega (arith, x.at_least, y.at_least, z.at_least))
