-- ===== src/Delivery/Queue.antt =====
-- The outbound queue of app/db/repo.py: a message is queued for the user's preferred channel and,
-- beside it, for the user's devices; due rows are claimed under a lease; the outcome of a send is
-- written back. No other transaction runs in between: `SKIP LOCKED` has nothing to skip.
pub mod Enqueue
pub mod Claim
pub mod Tables
pub mod Records
use personal_portfolio_analy.Prelude.{
  ℕ, zero, suc, ◌+◌, Bool, true, false, ◌&&◌, ◌||◌, not, Option, none, some, List, [], ◌∷◌, ◌++◌,
  String, str_eq, take, any, is_some, leb, ◌==◌, if◌then◌else◌,
}
use personal_portfolio_analy.Prelude.Dict.{lookup}
use personal_portfolio_analy.Store.{
  Store, User, Text, Channel, sms, email, discord, push, other, NotificationChannel, PushDevice,
  OutboundMessage, MessageStatus, queued, sent, failed, skipped, DeliveryError,
  no_preferred_channel, not_verified, opted_out, sms_requires_pro, owner, is_pro,
}
use personal_portfolio_analy.Plans.{effective_plan}
use personal_portfolio_analy.Delivery.Channels.{find_row, is_usable, in_channels}

-- The arguments of `enqueue_outbound`.
pub record Draft : Type 0 where
  pub body : Text
  pub user_id : Option ℕ
  pub kind : String
  pub subject : Option Text
  pub sms_body : Option Text
  pub push : Bool
  pub push_title : Option Text
  pub push_body : Option Text
  pub deep_link : Option Text

-- Where a message goes: nowhere, for a reason, or to a destination of a channel.
pub data Route : Type 0 where
  skip : DeliveryError → Route
  deliver : Channel → Text → Route

abbrev pub is_sms : Channel → Bool
is_sms sms = true
is_sms _ = false

-- `a or b`, for texts: an empty text counts as none.
abbrev pub or_text : Option Text → Text → Text
or_text none b = b
or_text (some []) b = b
or_text (some (c ∷ t)) b = c ∷ t

abbrev non_empty : Option Text → Option Text
non_empty none = none
non_empty (some []) = none
non_empty (some (c ∷ t)) = some (c ∷ t)

-- SMS is for Pro: anyone else falls back to a usable email row.
unfoldable pub email_fallback : ℕ → List NotificationChannel → Route
email_fallback uid rows = elim (find_row uid email rows) [
  | none ↦ skip sms_requires_pro
  | some r ↦ if is_usable r then deliver email r.destination else skip sms_requires_pro
]

unfoldable pub route_row :
    ℕ → Option User → Channel → NotificationChannel → ℕ → List NotificationChannel → Route
unfolding email_fallback effective_plan
route_row uid user preferred row now rows =
    if not (is_some row.verified_at)
    then skip (not_verified preferred)
    else if is_some row.opted_out_at
    then skip (opted_out preferred)
    else if is_sms preferred && not (uid == owner) && not (is_pro (effective_plan user now))
    then email_fallback uid rows
    else deliver preferred row.destination

abbrev pub preferred_of : Option User → Option Channel
preferred_of none = none
preferred_of (some u) = u.preferred_channel

unfoldable pub route : ℕ → ℕ → Store → Route
unfolding route_row find_row
route uid now s = elim (preferred_of (lookup uid s.users)) [
  | none ↦ skip no_preferred_channel
  | some preferred ↦ elim (find_row uid preferred s.channels) [
    | none ↦ skip (not_verified preferred)
    | some row ↦ route_row uid (lookup uid s.users) preferred row now s.channels
  ]
]

-- The body of the message: the short one where the preferred channel is SMS.
abbrev pub body_for : Channel → Draft → Text
body_for sms d = or_text d.sms_body d.body
body_for _ d = d.body

-- A row with the defaults of the table.
abbrev fresh_row : ℕ → ℕ → Draft → ℕ → OutboundMessage
fresh_row id uid d now = record {
  id = id;
  user_id = uid;
  body = d.body;
  status = queued;
  attempts = 0;
  channel = none;
  destination = none;
  last_error = none;
  next_attempt_at = now;
  provider_message_id = none;
  sent_at = none;
  kind = d.kind;
  subject = non_empty d.subject;
  title = none;
  deep_link = none;
}

unfoldable pub routed : ℕ → ℕ → Draft → ℕ → Route → OutboundMessage
routed id uid d now (skip e) = record (fresh_row id uid d now) {
  status = skipped;
  last_error = some e;
}
routed id uid d now (deliver c t) = record (fresh_row id uid d now) {
  channel = some c;
  destination = some t;
  body = body_for c d;
}

unfoldable pub takes_push : ℕ → String → PushDevice → Bool
takes_push uid kind device =
    device.user_id == uid
    && not (is_some device.disabled_at)
    && any (λ k. str_eq k kind) device.kinds

-- "Cirvia"
abbrev app_name : Text
app_name = 67 ∷ 105 ∷ 114 ∷ 118 ∷ 105 ∷ 97 ∷ []

abbrev push_row : ℕ → ℕ → Draft → ℕ → PushDevice → OutboundMessage
push_row id uid d now device = record (fresh_row id uid d now) {
  channel = some push;
  destination = some device.expo_token;
  body = take 150 (or_text d.push_body (or_text d.sms_body d.body));
  subject = none;
  title = some (or_text d.push_title app_name);
  deep_link = d.deep_link;
}

-- The fan-out: a row for each active device that takes the kind, and the next id.
unfoldable pub fan_out : ℕ → ℕ → Draft → ℕ → List PushDevice → List OutboundMessage × ℕ
unfolding takes_push
fan_out id uid d now [] = ([], id)
fan_out id uid d now (device ∷ devices) =
    let takes = takes_push uid d.kind device in
    let (rest, end) = fan_out (if takes then suc id else id) uid d now devices in
    if takes then (push_row id uid d now device ∷ rest, end) else (rest, end)

abbrev pub or_owner : Option ℕ → ℕ
or_owner none = owner
or_owner (some uid) = uid

abbrev pub pushes : Bool → ℕ → ℕ → Draft → ℕ → List PushDevice → List OutboundMessage × ℕ
pushes wanted id uid d now devices = if wanted then fan_out id uid d now devices else ([], id)

-- `Repo.enqueue_outbound`: the id of the row for the preferred channel.
unfoldable pub enqueue_outbound : Draft → ℕ → Store → ℕ × Store
unfolding route routed fan_out
enqueue_outbound d now s =
    let uid = or_owner d.user_id in
    let (rows, end) = pushes d.push (suc s.next_id) uid d now s.devices in
    (
      s.next_id,
      record s {
        next_id = end;
        outbound = s.outbound ++ (routed s.next_id uid d now (route uid now s) ∷ rows);
      },
    )

-- `Repo.has_outbound_of_kind`
unfoldable pub has_outbound_of_kind : ℕ → String → List OutboundMessage → Bool
has_outbound_of_kind uid kind rows = any (λ m. m.user_id == uid && str_eq m.kind kind) rows

abbrev pub is_queued : MessageStatus → Bool
is_queued queued = true
is_queued _ = false

abbrev pub on_a_channel : Option Channel → Bool
on_a_channel none = false
on_a_channel (some c) = in_channels c

unfoldable pub is_due : ℕ → OutboundMessage → Bool
unfolding in_channels
is_due now m = is_queued m.status && on_a_channel m.channel && leb m.next_attempt_at now

-- `Repo.claim_due_outbound`: the claimed rows, and the table with their lease.
unfoldable pub claim_due :
    ℕ → ℕ → ℕ → List OutboundMessage → List OutboundMessage × List OutboundMessage
unfolding is_due
claim_due limit lease now [] = ([], [])
claim_due zero lease now (m ∷ ms) = ([], m ∷ ms)
claim_due (suc limit) lease now (m ∷ ms) =
    let due = is_due now m in
    let (claimed, rest) = claim_due (if due then limit else suc limit) lease now ms in
    let m' : OutboundMessage = record m { next_attempt_at = now + lease } in
    if due then (m' ∷ claimed, m' ∷ rest) else (claimed, m ∷ rest)

-- What an adapter's `send` returns.
pub record SendResult : Type 0 where
  pub ok : Bool
  pub provider_message_id : Option ℕ
  pub error : Option DeliveryError
  pub permanent : Bool

-- The write of `record_send_result` to the row.
unfoldable pub sent_row : SendResult → ℕ → ℕ → ℕ → OutboundMessage → OutboundMessage
sent_row r max_attempts retry_delay now m =
    if r.ok
    then record m {
      attempts = m.attempts + 1;
      status = sent;
      sent_at = some now;
      provider_message_id = r.provider_message_id;
      last_error = none;
    }
    else if r.permanent || leb max_attempts (m.attempts + 1)
    then record m { attempts = m.attempts + 1; status = failed; last_error = r.error }
    else record m {
      attempts = m.attempts + 1;
      status = queued;
      last_error = r.error;
      next_attempt_at = now + retry_delay;
    }

-- `Repo.record_send_result`, on the table.
unfoldable pub record_send_result :
    ℕ → SendResult → ℕ → ℕ → ℕ → List OutboundMessage → List OutboundMessage
unfolding sent_row
record_send_result id r max_attempts retry_delay now [] = []
record_send_result id r max_attempts retry_delay now (m ∷ ms) =
    if m.id == id
    then sent_row r max_attempts retry_delay now m ∷ ms
    else m ∷ record_send_result id r max_attempts retry_delay now ms
