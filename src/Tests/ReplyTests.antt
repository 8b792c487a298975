-- ===== src/Tests/ReplyTests.antt =====
-- Links in emails and replies to text messages at concrete inputs: a user 7 with an email and a
-- phone, and a signature that is the length of what is signed.
use personal_portfolio_analy.Prelude.{
  ℕ, ◌≡◌, refl, ap, Option, none, some, [], ◌∷◌, ◌++◌, arith, length,
}
use personal_portfolio_analy.Store.{Store, Text, NotificationChannel, email, sms}
use personal_portfolio_analy.Delivery.Unsubscribe.{
  Settings, accepted, sign_token, verify_token, handle_unsubscribe,
}
use personal_portfolio_analy.Delivery.Unsubscribe
use personal_portfolio_analy.Delivery.Unsubscribe.Tokens.{
  IsSigned, verify_token-sign_token, accepted-IsSigned,
}
use personal_portfolio_analy.Delivery.TwilioInbound
use personal_portfolio_analy.Delivery.TwilioInbound.{compute_signature, handle_inbound_sms}
use personal_portfolio_analy.Delivery.TwilioInbound.Signature.{swapped, signature_ignores_order}

abbrev first : Text → Option ℕ
first [] = none
first (c ∷ t) = some c

abbrev library : personal_portfolio_analy.Delivery.Unsubscribe.Library
library = record {
  hmac_sha256 = λ secret t. length (secret ++ t) ∷ [];
  str_uuid = λ n. n ∷ [];
  uuid_of = first;
  channel_of = λ t. email;
}

-- "email"
abbrev email_name : Text
email_name = 101 ∷ 109 ∷ 97 ∷ 105 ∷ 108 ∷ []

abbrev row : NotificationChannel
row = record {
  user_id = 7;
  channel = email;
  destination = 1 ∷ [];
  verified_at = some 1;
  opted_out_at = none;
  consent_at = none;
}

abbrev phone_row : NotificationChannel
phone_row = record row { channel = sms; destination = 2 ∷ [] }

abbrev store : Store
store = record {
  next_id = 8;
  users = [];
  channels = phone_row ∷ row ∷ [];
  devices = [];
  outbound = [];
  codes = [];
  funnel = [];
  stripe_events = [];
  tombstones = [];
}

abbrev settings : Settings
settings = record { unsubscribe_secret = []; api_token = 9 ∷ []; public_base_url = [] }

verify_token-sign_token_example :
    verify_token library (9 ∷ []) (sign_token library (9 ∷ []) 7 email_name) ≡ accepted 7 email_name
verify_token-sign_token_example =
    verify_token-sign_token library (9 ∷ []) 7 email_name refl (ground arith, tt)
      (ground arith, (ground arith, (ground arith, (ground arith, (ground arith, tt)))))
      (ground arith, tt) refl refl

abbrev token : Text
token = 7 ∷ 58 ∷ 101 ∷ 58 ∷ 4 ∷ []

accepted-IsSigned_example : IsSigned library (9 ∷ []) token 7 (101 ∷ [])
unfolding verify_token
accepted-IsSigned_example = accepted-IsSigned library (9 ∷ []) token 7 (101 ∷ []) refl

abbrev twilio : personal_portfolio_analy.Delivery.TwilioInbound.Library
twilio = record { hmac_sha1 = λ secret t. secret ++ t; strip = λ t. t; upper = λ t. t }

signature_ignores_order_example :
    compute_signature twilio (9 ∷ []) (1 ∷ []) ((2 ∷ [], 3 ∷ []) ∷ (4 ∷ [], 5 ∷ []) ∷ [])
    ≡ compute_signature twilio (9 ∷ []) (1 ∷ []) ((4 ∷ [], 5 ∷ []) ∷ (2 ∷ [], 3 ∷ []) ∷ [])
signature_ignores_order_example = signature_ignores_order twilio (9 ∷ []) (1 ∷ []) (
    swapped (2 ∷ [], 3 ∷ []) (4 ∷ [], 5 ∷ []) []
      (λ e. ground (arith, ap {B = ℕ} (λ t. elim t [ [] ↦ 0 | c ∷ s ↦ c ]) e)))

-- "END" and "YES"
abbrev stop_body : Text
stop_body = 69 ∷ 78 ∷ 68 ∷ []

abbrev start_body : Text
start_body = 89 ∷ 69 ∷ 83 ∷ []
