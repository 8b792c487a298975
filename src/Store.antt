-- ===== src/Store.antt =====
-- The tables of app/db/models.py that the modelled components read and write. An id is a number;
-- a new row's id is the store's counter, as the database gives each row an id of its own. A point
-- of time is a number of microseconds, a duration too. Every operation of app/db/repo.py runs in
-- one transaction, and is a function from the store to the store.
use personal_portfolio_analy.Prelude.{ℕ, ◌*◌, Bool, true, false, Option, List, String}
use personal_portfolio_analy.Prelude.Dict.{Dict}

-- A Python string as its code points.
abbrev pub Text : Type 0
Text = List ℕ

abbrev pub seconds : ℕ → ℕ
seconds n = n * 1000000

abbrev pub hours : ℕ → ℕ
hours n = seconds (n * 3600)

abbrev pub days : ℕ → ℕ
days n = hours (n * 24)

pub data Plan : Type 0 where
  free pro : Plan

abbrev pub is_pro : Plan → Bool
is_pro free = false
is_pro pro = true

-- The values of a channel column, and any other text there.
pub data Channel : Type 0 where
  sms email discord push : Channel
  other : ℕ → Channel

-- `users`: the columns that are read here.
pub record User : Type 0 where
  pub auth_id : Option ℕ
  pub plan : Plan
  pub timezone : ℕ
  pub preferred_channel : Option Channel
  pub trial_ends_at : Option ℕ
  pub trial_started_at : Option ℕ
  pub stripe_customer_id : Option ℕ
  pub stripe_subscription_id : Option ℕ
  pub plan_since : Option ℕ
  pub stripe_current_period_end : Option ℕ
  pub stripe_cancel_at_period_end : Bool

-- `notification_channels`, unique by user and channel
pub record NotificationChannel : Type 0 where
  pub user_id : ℕ
  pub channel : Channel
  pub destination : Text
  pub verified_at : Option ℕ
  pub opted_out_at : Option ℕ
  pub consent_at : Option ℕ

-- `push_devices`
pub record PushDevice : Type 0 where
  pub user_id : ℕ
  pub expo_token : Text
  pub kinds : List String
  pub disabled_at : Option ℕ

pub data MessageStatus : Type 0 where
  queued sent failed skipped : MessageStatus

-- The texts of `last_error` that the code writes, and those that an adapter gives.
pub data DeliveryError : Type 0 where
  no_preferred_channel : DeliveryError
  not_verified : Channel → DeliveryError
  opted_out : Channel → DeliveryError
  sms_requires_pro : DeliveryError
  not_configured : DeliveryError
  reported : Text → DeliveryError

-- `outbound_messages`; its `payload` is the fields from `kind` on.
pub record OutboundMessage : Type 0 where
  pub id : ℕ
  pub user_id : ℕ
  pub body : Text
  pub status : MessageStatus
  pub attempts : ℕ
  pub channel : Option Channel
  pub destination : Option Text
  pub last_error : Option DeliveryError
  pub next_attempt_at : ℕ
  pub provider_message_id : Option ℕ
  pub sent_at : Option ℕ
  pub kind : String
  pub subject : Option Text
  pub title : Option Text
  pub deep_link : Option Text

-- `verification_codes`
pub record VerificationCode : Type 0 where
  pub id : ℕ
  pub user_id : ℕ
  pub channel : Channel
  pub destination : Text
  pub code_hash : ℕ
  pub attempts : ℕ
  pub created_at : ℕ
  pub expires_at : ℕ
  pub consumed_at : Option ℕ

pub data FunnelEvent : Type 0 where
  signup trial_started chose_free upgraded : FunnelEvent

pub record Store : Type 0 where
  pub next_id : ℕ
  pub users : Dict User
  pub channels : List NotificationChannel
  pub devices : List PushDevice
  -- in the order of `created_at`
  pub outbound : List OutboundMessage
  pub codes : List VerificationCode
  pub funnel : List (ℕ × FunnelEvent)
  pub stripe_events : List ℕ
  -- `deleted_auth_ids`: auth id to `deleted_at`
  pub tombstones : Dict ℕ

-- The owner's id, `DEFAULT_USER_ID` of app/config.py.
abbrev pub owner : ℕ
owner = 1
