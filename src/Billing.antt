-- ===== src/Billing.antt =====
-- app/billing.py and the webhook of app/main.py: a user's plan follows the current state of the
-- subscription at Stripe. Stripe's API and its signature check are arguments; an id is a number,
-- and the text of a user id is the number that it parses to, or none.
pub mod Sync
pub mod Webhook
use personal_portfolio_analy.Prelude.{
  ℕ, Bool, true, false, Option, none, some, List, [], ◌∷◌, ◌&&◌, not, ◌==◌, if◌then◌else◌,
}
use personal_portfolio_analy.Prelude.Dict.{lookup}
use personal_portfolio_analy.Store.{Store, User, Plan, free, pro, is_pro, owner}
use personal_portfolio_analy.Accounts.{
  get_user_by_stripe_customer_id, set_stripe_customer_id, apply_subscription_state,
  stripe_event_seen, record_stripe_event,
}

pub data SubscriptionStatus : Type 0 where
  active trialing past_due canceled unpaid incomplete incomplete_expired paused : SubscriptionStatus

-- What the code reads of a subscription object. An entry of `items.data` is its
-- `current_period_end`.
pub record Subscription : Type 0 where
  pub id : ℕ
  pub customer : Option ℕ
  pub metadata_user_id : Option ℕ
  pub status : SubscriptionStatus
  pub items : List (Option ℕ)
  pub current_period_end : Option ℕ
  pub cancel_at_period_end : Bool

-- A call that leaves a store behind, and may raise.
pub data Effect : Type 0 where
  done : Store → Effect
  raised : Store → Effect

abbrev pub store_of : Effect → Store
store_of (done s) = s
store_of (raised s) = s

unfoldable pub plan_for_status : SubscriptionStatus → Plan
plan_for_status active = pro
plan_for_status trialing = pro
plan_for_status past_due = pro
plan_for_status canceled = free
plan_for_status unpaid = free
plan_for_status incomplete = free
plan_for_status incomplete_expired = free
plan_for_status paused = free

abbrev first_item : List (Option ℕ) → Option ℕ
first_item [] = none
first_item (t ∷ _) = t

-- A time stamp of 0 is no time.
abbrev nonzero : Option ℕ → Option ℕ
nonzero none = none
nonzero (some t) = if t == 0 then none else some t

abbrev or_else : Option ℕ → Option ℕ → Option ℕ
or_else none b = b
or_else (some a) b = some a

-- `_period_end`
unfoldable pub period_end : Subscription → Option ℕ
period_end sub = nonzero (or_else (first_item sub.items) sub.current_period_end)

-- The rest of `sync_subscription` for a user that was found.
unfoldable pub sync_user : Subscription → ℕ → ℕ → User → Store → Store
unfolding plan_for_status period_end apply_subscription_state
sync_user sub now uid u s =
    let plan = plan_for_status sub.status in
    let write =
      apply_subscription_state uid plan (some sub.id) (period_end sub) sub.cancel_at_period_end now
        s in
    if is_pro plan then write else if uid == owner then s else elim u.stripe_subscription_id [
      | none ↦ write
      | some current ↦ if current == sub.id then write else s
    ]

-- `repo.get_user`, and the end of `sync_subscription`.
abbrev pub sync_found : Subscription → ℕ → Option ℕ → Store → Store
sync_found sub now none s = s
sync_found sub now (some uid) s = elim (lookup uid s.users) [
  | none ↦ s
  | some u ↦ sync_user sub now uid u s
]

abbrev pub by_customer : Option ℕ → Store → Option ℕ
by_customer none s = none
by_customer (some c) s = get_user_by_stripe_customer_id c s

-- The repair of a lost link, before the user of the metadata is read.
abbrev pub relink : ℕ → Option ℕ → Store → Effect
relink uid none s = done s
relink uid (some c) s = elim (set_stripe_customer_id uid c s) [
  | none ↦ raised s
  | some s' ↦ done s'
]

abbrev pub then_sync : Subscription → ℕ → ℕ → Effect → Effect
then_sync sub now uid (raised s) = raised s
then_sync sub now uid (done s) = done (sync_found sub now (some uid) s)

unfoldable pub sync_subscription : Subscription → ℕ → Store → Effect
unfolding sync_user
sync_subscription sub now s = elim (by_customer sub.customer s) [
  | some uid ↦ done (sync_found sub now (some uid) s)
  | none ↦ elim sub.metadata_user_id [
    | none ↦ done s
    | some uid ↦ then_sync sub now uid (relink uid sub.customer s)
  ]
]

-- The answer of Stripe's API to a retrieval.
pub data Fetched : Type 0 where
  found : Subscription → Fetched
  resource_missing : Fetched
  api_error : Fetched

-- The events that are handled, with what is read of their object.
pub data StripeEvent : Type 0 where
  checkout_completed : Option ℕ → Option ℕ → Option ℕ → StripeEvent
  subscription_changed : ℕ → StripeEvent
  other_event : StripeEvent

-- `fetch_subscription` and the sync of what it returns.
abbrev pub sync_fetched : Fetched → ℕ → Store → Effect
sync_fetched (found sub) now s = sync_subscription sub now s
sync_fetched resource_missing now s = done s
sync_fetched api_error now s = raised s

abbrev pub link_checkout : Option ℕ → Option ℕ → Store → Effect
link_checkout none c s = done s
link_checkout (some uid) c s = relink uid c s

abbrev pub sync_checkout : (ℕ → Fetched) → Option ℕ → ℕ → Effect → Effect
sync_checkout fetch sub_id now (raised s) = raised s
sync_checkout fetch none now (done s) = done s
sync_checkout fetch (some sub_id) now (done s) = sync_fetched (fetch sub_id) now s

-- `handle_event`: of a completed checkout the user, the customer and the subscription are read.
unfoldable pub handle_event : (ℕ → Fetched) → StripeEvent → ℕ → Store → Effect
unfolding sync_subscription
handle_event fetch (checkout_completed uid customer sub_id) now s =
    sync_checkout fetch sub_id now (link_checkout uid customer s)
handle_event fetch (subscription_changed sub_id) now s = sync_fetched (fetch sub_id) now s
handle_event fetch other_event now s = done s

-- The answer of the webhook: 200, with whether the event was a duplicate, or an error status.
pub data Reply : Type 0 where
  received : Bool → Reply
  not_configured bad_signature server_error : Reply

abbrev after_handling : ℕ → Effect → Reply × Store
after_handling event_id (raised s) = (server_error, s)
after_handling event_id (done s) = (received false, (record_stripe_event event_id s).1)

-- `stripe_webhook` of app/main.py
unfoldable pub stripe_webhook :
    Bool → Bool → (ℕ → Fetched) → ℕ → StripeEvent → ℕ → Store → Reply × Store
unfolding handle_event record_stripe_event
stripe_webhook configured genuine fetch event_id event now s =
    if not configured
    then (not_configured, s)
    else if not genuine
    then (bad_signature, s)
    else if stripe_event_seen event_id s
    then (received true, s)
    else after_handling event_id (handle_event fetch event now s)
