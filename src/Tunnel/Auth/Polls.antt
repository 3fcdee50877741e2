-- ===== src/Tunnel/Auth/Polls.antt =====
-- How often the login polls, and that it ends.
use anki_mcp_server_addon.Prelude.{
  ℕ, ◌+◌, ◌*◌, ◌≤◌, ◌<◌, ◌≡◌, ◌≢◌, ◌⊎◌, inl, inr, refl, subst, List, [], none, some, ◌∷◌, length,
  ltb, ltb→lt, Bool-cases, arith,
}
use anki_mcp_server_addon.Tunnel.Auth.{
  Posted, Next, parsed, auth_error, attribute_error, Outcome, again, ends, one_more, post,
  after_post, Round, PollEnd, unfinished, ended, poll_loop, poll_for_token,
}

-- The interval in force after an answer.
abbrev next_interval : ℕ → Next → ℕ
next_interval interval (again interval') = interval'
next_interval interval (ends outcome) = interval

-- Each round lasts at least as long as the sleep in it.
abbrev pub AllTimely : ℕ → List Round → Type 0
AllTimely interval [] = Unit
AllTimely interval (round ∷ rounds) =
    (1000 * interval ≤ round.elapsed)
    × AllTimely (next_interval interval (after_post interval (post round.reply))) rounds

-- The server can only lengthen the interval.
le-again :
    (interval interval' : ℕ) (posted : Posted)
    → after_post interval posted ≡ again interval'
    → interval ≤ interval'
unfolding after_post
le-again interval interval' (parsed body) e = cc
le-again interval interval' (auth_error none) e = cc
le-again interval interval' (auth_error (some code)) e = ground arith
le-again interval interval' attribute_error e = cc

Next-cases : (n : Next) → ((o : Outcome) × (n ≡ ends o)) ⊎ ((i : ℕ) × (n ≡ again i))
Next-cases (ends o) = inl (o, refl)
Next-cases (again i) = inr (i, refl)

-- Where no pause is shorter than `pause`, the polls but the last fit in before the deadline, and
-- enough rounds reach an end.
record IsPaced (pause deadline now : ℕ) (rounds : List Round) (result : ℕ × PollEnd) : Type 0 where
  few : (result.0 ≡ 0) ⊎ (now + result.0 * pause < deadline + pause)
  ends_in_time : deadline ≤ now + length rounds * pause → result.1 ≢ unfinished

one_more-IsPaced :
    {pause deadline now elapsed : ℕ} {round : Round} {rounds : List Round} {result : ℕ × PollEnd}
    → now < deadline
    → pause ≤ elapsed
    → IsPaced pause deadline (now + elapsed) rounds result
    → IsPaced pause deadline now (round ∷ rounds) (one_more result)
one_more-IsPaced early long h = record {
  few = elim h.few [ inl nothing ↦ inr (rw nothing (omega arith)) | inr fits ↦ inr (grind arith) ];
  ends_in_time = λ late. h.ends_in_time (grind arith);
}

poll_loop-IsPaced :
    (base deadline interval now : ℕ) (rounds : List Round)
    → base ≤ interval
    → AllTimely interval rounds
    → IsPaced (1000 * base) deadline now rounds (poll_loop deadline interval now rounds)
unfolding poll_loop
poll_loop-IsPaced base deadline interval now [] least timely = record {
  few = inl refl;
  ends_in_time = λ late. ground arith;
}
poll_loop-IsPaced base deadline interval now (round ∷ rounds) least (long, timely) =
    elim (Bool-cases (ltb now deadline)) [
      | inr over ↦ rw (over, poll_loop) (record { few = inl refl; ends_in_time = λ late e. cc })
      | inl early ↦ elim (Next-cases (after_post interval (post round.reply))) [
        | inl (o, e) ↦
            rw (early, e, poll_loop)
              (record { few = inr (omega (arith, ltb→lt _ _ early)); ends_in_time = λ late w. cc })
        | inr (i, e) ↦
            rw (early, e, poll_loop)
              (one_more-IsPaced (ltb→lt _ _ early) (omega arith) (
                poll_loop-IsPaced base deadline i (now + round.elapsed) rounds
                  (omega (arith, le-again interval i (post round.reply) e))
                  (subst (λ n. AllTimely (next_interval interval n) rounds) e timely)))
      ]
    ]

PollEnd-cases : (end : PollEnd) → end ≢ unfinished → (o : Outcome) × (end ≡ ended o)
PollEnd-cases unfinished ne = absurd (ne refl)
PollEnd-cases (ended o) ne = (o, refl)

-- Where the interval is positive and each pause lasts as long as the interval in force, all polls but
-- the last fit into the lifetime of the device code at the first interval, and the loop has ended
-- unless its rounds, at that interval, are shorter than the lifetime.
pub poll_for_token_ends :
    (interval expires_in now : ℕ) (rounds : List Round)
    → 0 < interval
    → AllTimely interval rounds
    → ((poll_for_token interval expires_in now rounds).0 * interval < expires_in + interval)
      × (((o : Outcome) × ((poll_for_token interval expires_in now rounds).1 ≡ ended o))
          ⊎ (length rounds * interval < expires_in))
unfolding poll_for_token
poll_for_token_ends interval expires_in now rounds positive timely =
    let paced =
      poll_loop-IsPaced interval (now + 1000 * expires_in) interval now rounds (omega arith)
        timely in
    (
      elim paced.few [ inl none_yet ↦ rw none_yet (omega arith) | inr fits ↦ grind arith ],
      elim (Bool-cases (ltb (length rounds * interval) expires_in)) [
        | inl short ↦ inr (ltb→lt _ _ short)
        | inr long ↦ inl (PollEnd-cases _ (paced.ends_in_time (grind arith)))
      ],
    )
