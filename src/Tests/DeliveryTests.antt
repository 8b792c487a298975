-- ===== src/Tests/DeliveryTests.antt =====
-- The delivery of messages at concrete inputs: user 7 with a verified email address and a device.
use personal_portfolio_analy.Prelude.{
  ℕ, ◌-◌, ◌≤◌, ◌<◌, ◌≡◌, refl, true, false, none, some, List, [], ◌∷◌, arith, keep, length, max,
}
use personal_portfolio_analy.Store.{
  Store, seconds, hours, days, Text, Channel, email, push, NotificationChannel, PushDevice,
  OutboundMessage, queued, VerificationCode,
}
use personal_portfolio_analy.Accounts.{new_user}
use personal_portfolio_analy.Agent.Content.{strip}
use personal_portfolio_analy.Delivery.Queue.{Draft, route}
use personal_portfolio_analy.Delivery.Queue.Enqueue.{IsPermitted, route-IsPermitted}
use personal_portfolio_analy.Delivery.Queue.Tables.{Distinct, IsBounded, is_push}
use personal_portfolio_analy.Delivery.Dispatcher.{Dispatcher, finished}
use personal_portfolio_analy.Delivery.Dispatcher.Ticks.{ticks, push_rows_wait}
use personal_portfolio_analy.Delivery.Dispatcher.Sends.{sends, sends-le}
use personal_portfolio_analy.Delivery.Verification.{
  Issuer, issue_code, check_code, create_verification_code, latest_code, new_code, count_since,
  sent_to, sent_by,
}
use personal_portfolio_analy.Delivery.Verification.Codes.{newest_code_alone, check_code_passes}
use personal_portfolio_analy.Delivery.Verification.Limits.{issue_code_limits}

-- "a@b.c"
abbrev address : Text
address = 97 ∷ 64 ∷ 98 ∷ 46 ∷ 99 ∷ []

abbrev email_row : NotificationChannel
email_row = record {
  user_id = 7;
  channel = email;
  destination = address;
  verified_at = some 10;
  opted_out_at = none;
  consent_at = none;
}

abbrev device : PushDevice
device = record { user_id = 7; expo_token = 120 ∷ []; kinds = "digest" ∷ []; disabled_at = none }

abbrev store : Store
store = record {
  next_id = 8;
  users = (7, record (new_user 70) { preferred_channel = some email }) ∷ [];
  channels = email_row ∷ [];
  devices = device ∷ [];
  outbound = [];
  codes = [];
  funnel = [];
  stripe_events = [];
  tombstones = [];
}

abbrev draft : Draft
draft = record {
  body = 104 ∷ 105 ∷ [];
  user_id = some 7;
  kind = "digest";
  subject = none;
  sms_body = none;
  push = true;
  push_title = none;
  push_body = none;
  deep_link = none;
}

abbrev message : ℕ → Channel → OutboundMessage
message id c = record {
  id = id;
  user_id = 7;
  body = 104 ∷ 105 ∷ [];
  status = queued;
  attempts = 0;
  channel = some c;
  destination = some address;
  last_error = none;
  next_attempt_at = 0;
  provider_message_id = none;
  sent_at = none;
  kind = "digest";
  subject = none;
  title = none;
  deep_link = none;
}

abbrev table : List OutboundMessage
table = message 1 email ∷ message 2 push ∷ []

table-Distinct : Distinct table
table-Distinct = ((omega arith, tt), (tt, tt))

fresh-IsBounded : (id : ℕ) (c : Channel) → IsBounded 5 (message id c)
fresh-IsBounded id c = record { within = omega arith; below = refl }

-- Every send fails for a while.
abbrev dispatcher : Dispatcher
dispatcher = record {
  has_adapter = λ c. true;
  send = λ m link.
      finished (record { ok = false; provider_message_id = none; error = none; permanent = false });
  unsubscribe_url_for = λ uid c. none;
  batch_size = 20;
  max_attempts = 5;
  lease = seconds 120;
  ended_at = λ m. m.next_attempt_at;
}

route-IsPermitted_example : IsPermitted 7 100 store email address
unfolding route
route-IsPermitted_example = route-IsPermitted 7 100 store email address refl

push_rows_wait_example :
    keep is_push (ticks dispatcher (100 ∷ 200 ∷ []) table) ≡ message 2 push ∷ []
push_rows_wait_example = push_rows_wait dispatcher (100 ∷ 200 ∷ []) table table-Distinct

sends-le_example : sends dispatcher 1 (100 ∷ 200 ∷ []) table ≤ 5 - 0
sends-le_example =
    sends-le dispatcher 1 refl (100 ∷ 200 ∷ []) 0 table (omega arith) table-Distinct
      (fresh-IsBounded 1 email, (fresh-IsBounded 2 push, tt))
      ((λ _. omega arith), ((λ _. omega arith), tt))

abbrev issuer : Issuer
issuer = record {
  classes = record { is_digit = λ c. false; is_space = λ c. false };
  hash = λ t. length t;
  adapters = λ c. some (λ to code.
      finished (record { ok = true; provider_message_id = none; error = none; permanent = false }));
}

abbrev code_store : Store
code_store = record store { codes = new_code 3 7 email address 6 600 50 ∷ [] }

newest_code_alone_example :
    latest_code 7 email 200 (create_verification_code 7 email address 9 600 100 code_store).1.codes
    ≡ some (new_code 8 7 email address 9 600 100)
newest_code_alone_example = newest_code_alone 7 email 100 200 (omega arith) address 9 600 code_store

issue_code_limits_example :
    (count_since
        (100 - hours 1)
        (sent_to address)
        (issue_code issuer 7 email address false 1234 100 code_store).1.codes
      ≤ max (count_since (100 - hours 1) (sent_to address) code_store.codes) 3)
    × (count_since
          (100 - days 1)
          (sent_by 7)
          (issue_code issuer 7 email address false 1234 100 code_store).1.codes
        ≤ max (count_since (100 - days 1) (sent_by 7) code_store.codes) 10)
issue_code_limits_example = issue_code_limits issuer 7 email address false 1234 100 code_store

check_code_passes_example :
    (k : VerificationCode) × (latest_code 7 email 60 code_store.codes ≡ some k)
    × (k.attempts < 5)
    × (k.code_hash ≡ length (strip (49 ∷ 50 ∷ 51 ∷ 52 ∷ 53 ∷ 54 ∷ [])))
unfolding check_code
check_code_passes_example =
    check_code_passes issuer 7 email (49 ∷ 50 ∷ 51 ∷ 52 ∷ 53 ∷ 54 ∷ []) 60 code_store refl
