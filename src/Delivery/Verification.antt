-- ===== src/Delivery/Verification.antt =====
-- app/delivery/verification.py: a one-time code is sent to a destination, and checked; with the
-- operations of app/db/repo.py on `verification_codes`. The hash, the drawn number and the adapters
-- are other code: functions of an `Issuer`.
pub mod Codes
pub mod Limits
use personal_portfolio_analy.Prelude.{
  ℕ, zero, suc, ◌+◌, ◌-◌, ◌/◌, ◌%◌, Bool, true, false, ◌&&◌, not, Option, none, some, List, [], ◌∷◌,
  ◌++◌, map, length, keep, leb, ltb, ◌==◌, is_some, if◌then◌else◌,
}
use personal_portfolio_analy.Store.{
  Store, Text, Channel, VerificationCode, DeliveryError, seconds, hours, days,
}
use personal_portfolio_analy.Agent.Content.{strip}
use personal_portfolio_analy.Delivery.Channels.{
  same_channel, same_text, CharClasses, Problem, validate_destination, upsert_notification_channel,
  mark_channel_verified, set_preferred_channel,
}
use personal_portfolio_analy.Delivery.Queue.{SendResult}
use personal_portfolio_analy.Delivery.Dispatcher.{Sending, finished, crashed}

abbrev pub code_ttl_seconds : ℕ
code_ttl_seconds = 600

abbrev pub max_check_attempts : ℕ
max_check_attempts = 5

abbrev pub max_sends_per_destination : ℕ
max_sends_per_destination = 3

abbrev pub max_sends_per_user : ℕ
max_sends_per_user = 10

-- The row is the user's, of the channel, not consumed and not expired.
unfoldable pub is_live : ℕ → Channel → ℕ → VerificationCode → Bool
unfolding same_channel
is_live uid c now k =
    k.user_id == uid
    && same_channel k.channel c
    && not (is_some k.consumed_at)
    && ltb now k.expires_at

unfoldable pub consume_live : ℕ → Channel → ℕ → VerificationCode → VerificationCode
unfolding is_live
consume_live uid c now k = if is_live uid c now k then record k { consumed_at = some now } else k

abbrev pub new_code : ℕ → ℕ → Channel → Text → ℕ → ℕ → ℕ → VerificationCode
new_code id uid c destination code_hash ttl_seconds now = record {
  id = id;
  user_id = uid;
  channel = c;
  destination = destination;
  code_hash = code_hash;
  attempts = 0;
  created_at = now;
  expires_at = now + seconds ttl_seconds;
  consumed_at = none;
}

-- `Repo.create_verification_code`
unfoldable pub create_verification_code : ℕ → Channel → Text → ℕ → ℕ → ℕ → Store → ℕ × Store
unfolding consume_live
create_verification_code uid c destination code_hash ttl_seconds now s = (
  s.next_id,
  record s {
    next_id = suc s.next_id;
    codes =
        map (consume_live uid c now) s.codes
        ++ new_code s.next_id uid c destination code_hash ttl_seconds now ∷ [];
  },
)

abbrev newer : VerificationCode → Option VerificationCode → VerificationCode
newer k none = k
newer k (some l) = if leb k.created_at l.created_at then l else k

-- `Repo.latest_verification_code`: of two live rows made at one time, the later row.
unfoldable pub latest_code : ℕ → Channel → ℕ → List VerificationCode → Option VerificationCode
unfolding is_live
latest_code uid c now [] = none
latest_code uid c now (k ∷ ks) =
    let rest = latest_code uid c now ks in if is_live uid c now k then some (newer k rest) else rest

-- `Repo.record_code_attempt`: the row's new count, 0 without a row.
unfoldable pub record_code_attempt : ℕ → List VerificationCode → ℕ × List VerificationCode
record_code_attempt id [] = (0, [])
record_code_attempt id (k ∷ ks) =
    let rest = record_code_attempt id ks in
    if k.id == id
    then (k.attempts + 1, record k { attempts = k.attempts + 1 } ∷ ks)
    else (rest.0, k ∷ rest.1)

-- `Repo.consume_verification_code`
unfoldable pub consume_code : ℕ → ℕ → List VerificationCode → List VerificationCode
consume_code id now [] = []
consume_code id now (k ∷ ks) =
    if k.id == id then record k { consumed_at = some now } ∷ ks else k ∷ consume_code id now ks

-- `Repo.count_verification_codes_since`, by a test of the row
unfoldable pub count_since : ℕ → (VerificationCode → Bool) → List VerificationCode → ℕ
count_since since p ks = length (keep (λ k. leb since k.created_at && p k) ks)

abbrev pub sent_to : Text → VerificationCode → Bool
sent_to destination k = same_text k.destination destination

abbrev pub sent_by : ℕ → VerificationCode → Bool
sent_by uid k = k.user_id == uid

pub data VerificationError : Type 0 where
  not_available : VerificationError
  invalid : Problem → VerificationError
  too_many_to_destination daily_limit : VerificationError
  unreachable : Option DeliveryError → VerificationError
  no_active_code too_many_attempts : VerificationError
  wrong_code : ℕ → VerificationError
  not_registered : VerificationError

-- The HTTP status of the error.
unfoldable pub status_code : VerificationError → ℕ
status_code too_many_to_destination = 429
status_code daily_limit = 429
status_code too_many_attempts = 429
status_code (unreachable _) = 502
status_code _ = 400

-- The end of a call: a return, a `VerificationError`, or the adapter's exception.
pub data Outcome : Type 0 where
  done : Outcome
  refused : VerificationError → Outcome
  raised : Text → Outcome

pub record Issuer : Type 0 where
  pub classes : CharClasses
  pub hash : Text → ℕ
  -- `adapters.get(channel)`, whose `send` takes the destination and the code
  pub adapters : Channel → Option (Text → Text → Sending)

abbrev digit : ℕ → ℕ → ℕ
digit n p = b'0' + n / p % 10

-- `f"{n:06d}"`, for n below 1,000,000
unfoldable pub six_digits : ℕ → Text
six_digits n =
    digit n 100000 ∷ digit n 10000 ∷ digit n 1000 ∷ digit n 100 ∷ digit n 10 ∷ digit n 1 ∷ []

abbrev pub outcome_of : Sending → Outcome
outcome_of (crashed e) = raised e
outcome_of (finished r) = if r.ok then done else refused (unreachable r.error)

-- The end of `issue_code`: register the destination, store the code and send it.
unfoldable pub send_code :
    Issuer → (Text → Text → Sending) → ℕ → Channel → Text → Bool → ℕ → ℕ → Store → Outcome × Store
unfolding upsert_notification_channel create_verification_code six_digits
send_code e send uid c destination consent drawn now s =
    let s₁ = upsert_notification_channel uid c destination consent now s in
    let s₂ =
      (create_verification_code uid c destination (e.hash (six_digits drawn)) code_ttl_seconds now
        s₁).1 in
    (outcome_of (send destination (six_digits drawn)), s₂)

-- `issue_code`
unfoldable pub issue_code : Issuer → ℕ → Channel → Text → Bool → ℕ → ℕ → Store → Outcome × Store
unfolding validate_destination count_since send_code
issue_code e uid c destination consent drawn now s = elim (e.adapters c) [
  | none ↦ (refused not_available, s)
  | some send ↦ elim (validate_destination e.classes c destination) [
    | some problem ↦ (refused (invalid problem), s)
    | none ↦
        if leb max_sends_per_destination (count_since (now - hours 1) (sent_to destination) s.codes)
        then (refused too_many_to_destination, s)
        else if leb max_sends_per_user (count_since (now - days 1) (sent_by uid) s.codes)
        then (refused daily_limit, s)
        else send_code e send uid c destination consent drawn now s
  ]
]

-- The end of `check_code`, for the right code.
unfoldable pub accept_code : ℕ → Channel → ℕ → ℕ → Store → Outcome × Store
unfolding consume_code mark_channel_verified set_preferred_channel
accept_code uid c id now s =
    let (marked, s') =
      mark_channel_verified uid c now (record s { codes = consume_code id now s.codes }) in
    if marked
    then (done, (set_preferred_channel uid (some c) s').1)
    else (refused not_registered, s')

-- The end of `check_code`, for a wrong code.
unfoldable pub reject_code : ℕ → Store → Outcome × Store
unfolding record_code_attempt
reject_code id s =
    let (n, codes') = record_code_attempt id s.codes in
    (refused (wrong_code (max_check_attempts - n)), record s { codes = codes' })

-- `check_code` with a live code.
unfoldable pub check_live :
    Issuer → ℕ → Channel → Text → ℕ → Store → VerificationCode → Outcome × Store
unfolding accept_code reject_code strip
check_live e uid c code now s live =
    if leb max_check_attempts live.attempts
    then (refused too_many_attempts, s)
    else if live.code_hash == e.hash (strip code)
    then accept_code uid c live.id now s
    else reject_code live.id s

-- `check_code`
unfoldable pub check_code : Issuer → ℕ → Channel → Text → ℕ → Store → Outcome × Store
unfolding latest_code check_live
check_code e uid c code now s = elim (latest_code uid c now s.codes) [
  | none ↦ (refused no_active_code, s)
  | some live ↦ check_live e uid c code now s live
]
