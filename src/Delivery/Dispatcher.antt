-- ===== src/Delivery/Dispatcher.antt =====
-- app/delivery/dispatcher.py: a tick claims a batch and sends it. The adapters are the providers'
-- code behind an interface: a function of the channel, the destination, the body and the row,
-- which sends, or raises.
pub mod Ticks
pub mod Sends
use personal_portfolio_analy.Prelude.{
  ℕ, zero, suc, ◌+◌, ◌-◌, Bool, true, false, Option, none, some, List, [], ◌∷◌, max, min, length,
  leb, if◌then◌else◌,
}
use personal_portfolio_analy.Store.{
  Text, Channel, email, DeliveryError, not_configured, reported, OutboundMessage, seconds,
}
use personal_portfolio_analy.Delivery.Queue.{SendResult, claim_due, record_send_result}

-- `BACKOFF_SECONDS`
abbrev pub backoff_seconds : List ℕ
backoff_seconds = 60 ∷ 300 ∷ 1800 ∷ 7200 ∷ []

abbrev at : List ℕ → ℕ → ℕ
at [] i = 0
at (x ∷ xs) zero = x
at (x ∷ xs) (suc i) = at xs i

unfoldable pub retry_delay : ℕ → ℕ
retry_delay attempts = at backoff_seconds (min (max attempts 1 - 1) 3)

-- The end of `adapter.send`: its result, or an exception with its text.
pub data Sending : Type 0 where
  finished : SendResult → Sending
  crashed : Text → Sending

pub record Dispatcher : Type 0 where
  pub has_adapter : Option Channel → Bool
  -- with the link that `_payload_for` adds to the row's payload
  pub send : OutboundMessage → Option Text → Sending
  pub unsubscribe_url_for : ℕ → Channel → Option Text
  pub batch_size : ℕ
  pub max_attempts : ℕ
  pub lease : ℕ
  -- when the send of a row ended
  pub ended_at : OutboundMessage → ℕ

abbrev url_or_none : Option Text → Option Text
url_or_none none = none
url_or_none (some []) = none
url_or_none (some (c ∷ t)) = some (c ∷ t)

-- The link that `_payload_for` stamps into the payload: for emails alone.
unfoldable pub unsubscribe_link : Dispatcher → OutboundMessage → Option Channel → Option Text
unsubscribe_link d m (some email) = url_or_none (d.unsubscribe_url_for m.user_id email)
unsubscribe_link d m _ = none

unfoldable pub result_of : Sending → SendResult
result_of (finished r) = r
result_of (crashed e) = record {
  ok = false;
  provider_message_id = none;
  error = some (reported e);
  permanent = false;
}

abbrev pub unconfigured : SendResult
unconfigured = record {
  ok = false;
  provider_message_id = none;
  error = some not_configured;
  permanent = true;
}

-- The body of the loop of `tick`; without an adapter the defaults of `record_send_result` hold.
unfoldable pub send_one : Dispatcher → OutboundMessage → List OutboundMessage → List OutboundMessage
unfolding unsubscribe_link result_of retry_delay record_send_result
send_one d m table =
    if d.has_adapter m.channel
    then record_send_result m.id (result_of (d.send m (unsubscribe_link d m m.channel)))
        d.max_attempts (seconds (retry_delay (m.attempts + 1))) (d.ended_at m) table
    else record_send_result m.id unconfigured 5 (seconds 60) (d.ended_at m) table

unfoldable pub send_all :
    Dispatcher → List OutboundMessage → List OutboundMessage → List OutboundMessage
unfolding send_one
send_all d [] table = table
send_all d (m ∷ ms) table = send_all d ms (send_one d m table)

-- `Dispatcher.tick`: how many were attempted, and the table.
unfoldable pub tick : Dispatcher → ℕ → List OutboundMessage → ℕ × List OutboundMessage
unfolding send_all claim_due
tick d now table =
    let (claimed, table') = claim_due d.batch_size d.lease now table in
    (length claimed, send_all d claimed table')
