-- ===== src/Tunnel/Auth.antt =====
-- `DeviceFlowAuth` of anki_mcp_server/tunnel/auth.py: the answers of the login server, and the loop
-- that polls for a token. The clock counts milliseconds; intervals and lifetimes are seconds.
mod Examples
pub mod Polls
use anki_mcp_server_addon.Prelude.{
  ℕ, ◌+◌, ◌*◌, String, str_eq, Bool, true, false, Option, none, some, List, [], ◌∷◌, ltb,
  if◌then◌else◌,
}

-- `expires_in` of a token response: missing, no integer, too large for a date, or the date that it
-- gives.
pub data Lifetime : Type 0 where
  absent not_int overflows : Lifetime
  ends_at : ℕ → Lifetime

pub record TokenFields : Type 0 where
  pub expires_in : Lifetime
  pub access_token : Option String
  pub refresh_token : Option String
  pub user : Option String

-- A JSON body: an object, with its `error` where it has one, or another value.
pub data Body : Type 0 where
  object : Option String → TokenFields → Body
  not_object : Body

-- How a POST ends: no response in time, another failure of the request, a body that is not JSON, or a
-- body under a status that is a success or not.
pub data Reply : Type 0 where
  timed_out http_error not_json : Reply
  response : Bool → Body → Reply

pub data Posted : Type 0 where
  parsed : Body → Posted
  auth_error : Option String → Posted
  attribute_error : Posted

abbrev pub error_code : Option String → String
error_code none = "unknown_error"
error_code (some code) = code

unfoldable pub post : Reply → Posted
post timed_out = auth_error none
post http_error = auth_error none
post not_json = auth_error none
post (response true body) = parsed body
post (response false not_object) = attribute_error
post (response false (object error fields)) = auth_error (some (error_code error))

pub record Credentials : Type 0 where
  pub access_token : String
  pub refresh_token : String
  pub expires_at : ℕ
  pub user : String

-- What a call of the client returns or raises.
pub data Outcome : Type 0 where
  returned : Credentials → Outcome
  raised : Option String → Outcome
  escaped : Outcome

abbrev pub with_user : ℕ → String → String → Option String → Outcome
with_user date access refresh none = raised (some "invalid_response")
with_user date access refresh (some user) =
    returned
      (record { access_token = access; refresh_token = refresh; expires_at = date; user = user })

abbrev pub with_tokens : ℕ → Option String → Option String → Option String → Outcome
with_tokens date none refresh user = raised (some "invalid_response")
with_tokens date (some access) none user = raised (some "invalid_response")
with_tokens date (some access) (some refresh) user = with_user date access refresh user

-- OverflowError is not among the exceptions that become an AuthError.
abbrev pub build_dated : TokenFields → Lifetime → Outcome
build_dated fields absent = raised (some "invalid_response")
build_dated fields not_int = raised (some "invalid_response")
build_dated fields overflows = escaped
build_dated fields (ends_at date) =
    with_tokens date fields.access_token fields.refresh_token fields.user

unfoldable pub build_credentials : Body → Outcome
build_credentials not_object = raised (some "invalid_response")
build_credentials (object error fields) = build_dated fields fields.expires_in

abbrev pub finish : Posted → Outcome
finish (parsed body) = build_credentials body
finish (auth_error code) = raised code
finish attribute_error = escaped

unfoldable pub refresh_token : Reply → Outcome
unfolding post build_credentials
refresh_token reply = finish (post reply)

-- What the loop does with an answer: it polls again with this interval, or ends.
pub data Next : Type 0 where
  again : ℕ → Next
  ends : Outcome → Next

abbrev pub by_code : ℕ → String → Next
by_code interval code =
    if str_eq code "authorization_pending"
    then again interval
    else if str_eq code "slow_down"
    then again (interval + 5)
    else ends (raised (some code))

unfoldable pub after_post : ℕ → Posted → Next
unfolding build_credentials
after_post interval (parsed body) = ends (build_credentials body)
after_post interval (auth_error none) = ends (raised none)
after_post interval (auth_error (some code)) = by_code interval code
after_post interval attribute_error = ends escaped

-- A round of the loop: the time from one reading of the clock to the next, and the answer.
pub record Round : Type 0 where
  pub elapsed : ℕ
  pub reply : Reply

pub data PollEnd : Type 0 where
  unfinished : PollEnd
  ended : Outcome → PollEnd

abbrev pub expired : PollEnd
expired = ended (raised (some "expired_token"))

-- The number of polls, and the end.
abbrev pub one_more : ℕ × PollEnd → ℕ × PollEnd
one_more (polls, end) = (polls + 1, end)

unfoldable pub poll_loop : ℕ → ℕ → ℕ → List Round → ℕ × PollEnd
unfolding post after_post
poll_loop deadline interval now [] = (0, if ltb now deadline then unfinished else expired)
poll_loop deadline interval now (round ∷ rounds) = elim (ltb now deadline) [
  | false ↦ (0, expired)
  | true ↦ elim (after_post interval (post round.reply)) [
    | ends outcome ↦ (1, ended outcome)
    | again interval' ↦ one_more (poll_loop deadline interval' (now + round.elapsed) rounds)
  ]
]

unfoldable pub poll_for_token : ℕ → ℕ → ℕ → List Round → ℕ × PollEnd
unfolding poll_loop
poll_for_token interval expires_in now rounds =
    poll_loop (now + 1000 * expires_in) interval now rounds
