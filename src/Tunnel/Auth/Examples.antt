-- ===== src/Tunnel/Auth/Examples.antt =====
-- A login at three answers.
use anki_mcp_server_addon.Prelude.{
  ◌+◌, ◌*◌, ◌<◌, ◌≡◌, ◌⊎◌, refl, true, false, none, some, List, [], ◌∷◌, length, arith,
}
use anki_mcp_server_addon.Tunnel.Auth.{
  TokenFields, ends_at, object, Reply, response, Outcome, Round, ended, expired, refresh_token,
  post, after_post, poll_for_token,
}
use anki_mcp_server_addon.Tunnel.Auth.Polls.{poll_for_token_ends}

abbrev no_fields : TokenFields
no_fields = record {
  expires_in = ends_at 0;
  access_token = none;
  refresh_token = none;
  user = none;
}

abbrev all_fields : TokenFields
all_fields = record {
  expires_in = ends_at 9;
  access_token = some "a";
  refresh_token = some "r";
  user = some "u";
}

abbrev pending : Reply
pending = response false (object (some "authorization_pending") no_fields)

abbrev slow : Reply
slow = response false (object (some "slow_down") no_fields)

abbrev granted : Reply
granted = response true (object none all_fields)

abbrev rounds : List Round
rounds =
    record { elapsed = 5001; reply = pending }
    ∷ record { elapsed = 5100; reply = slow }
    ∷ record { elapsed = 10100; reply = pending }
    ∷ []

poll_granted :
    poll_for_token 5 20 0 (record { elapsed = 5001; reply = granted } ∷ [])
    ≡ (1, ended (refresh_token granted))
unfolding poll_for_token refresh_token
poll_granted = refl

poll_expires : poll_for_token 5 20 100 rounds ≡ (3, expired)
unfolding poll_for_token
poll_expires = refl

poll_for_token_ends_example :
    ((poll_for_token 5 15 100 rounds).0 * 5 < 15 + 5)
    × (((o : Outcome) × ((poll_for_token 5 15 100 rounds).1 ≡ ended o)) ⊎ (length rounds * 5 < 15))
unfolding after_post post
poll_for_token_ends_example =
    poll_for_token_ends 5 15 100 rounds (omega arith)
      (omega arith, (omega arith, (omega arith, tt)))
