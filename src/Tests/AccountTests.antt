-- ===== src/Tests/AccountTests.antt =====
-- Users, trials and subscriptions at concrete inputs: a new user 7, with the auth id 70, who
-- subscribes as the Stripe customer 700.
use personal_portfolio_analy.Prelude.{
  ℕ, ◌+◌, ◌≡◌, ◌≢◌, ◌⊎◌, refl, true, false, none, some, [], ◌∷◌, arith,
}
use personal_portfolio_analy.Store.{Store, User, free, pro, days, owner}
use personal_portfolio_analy.Accounts.{
  maybe_start_trial, record_funnel_event, new_user, stripe_event_seen,
  get_user_by_stripe_customer_id,
}
use personal_portfolio_analy.Accounts.Trials.{one_trial}
use personal_portfolio_analy.Accounts.Steps.{
  here, next, start_trial, column, trial_began_stays, choose_free,
}
use personal_portfolio_analy.Billing.{
  Subscription, active, canceled, plan_for_status, Fetched, found, api_error, subscription_changed,
  handle_event, stripe_webhook, received, server_error, sync_found, sync_user,
}
use personal_portfolio_analy.Accounts.{resolve_trial}
use personal_portfolio_analy.Billing.Sync.{sync_downgrade, sync_again}
use personal_portfolio_analy.Billing.Webhook.{delivered_once, failed_stays_unrecorded}

abbrev empty_store : Store
empty_store = record {
  next_id = 7;
  users = [];
  channels = [];
  devices = [];
  outbound = [];
  codes = [];
  funnel = [];
  stripe_events = [];
  tombstones = [];
}

abbrev user_store : Store
user_store = record empty_store { next_id = 8; users = (7, new_user 70) ∷ [] }

abbrev trial_user : User
trial_user = record (new_user 70) { trial_started_at = some 0; trial_ends_at = some 1000 }

abbrev trial_store : Store
trial_store = record user_store { users = (7, trial_user) ∷ [] }

one_trial_example :
    maybe_start_trial 7 30 500 (maybe_start_trial 7 14 100 user_store).1
    ≡ (none, (maybe_start_trial 7 14 100 user_store).1)
unfolding maybe_start_trial record_funnel_event
one_trial_example =
    one_trial 7 14 100 30 500 (100 + days 14) user_store (maybe_start_trial 7 14 100 user_store).1
      refl

trial_began_stays_example :
    column (λ u. u.trial_started_at) 7 (resolve_trial 7 (maybe_start_trial 7 14 100 trial_store).1)
    ≡ some 0
trial_began_stays_example =
    trial_began_stays 7 0 (omega arith)
      (next (next here (start_trial 7 14 100 trial_store))
        (choose_free 7 (maybe_start_trial 7 14 100 trial_store).1))
      refl

abbrev customer_store : Store
customer_store = record user_store {
  users = (7, record trial_user { stripe_customer_id = some 700 }) ∷ [];
}

abbrev subscription : Subscription
subscription = record {
  id = 5;
  customer = some 700;
  metadata_user_id = some 7;
  status = active;
  items = some 4000 ∷ [];
  current_period_end = none;
  cancel_at_period_end = false;
}

abbrev canceled_subscription : Subscription
canceled_subscription = record subscription { status = canceled }

abbrev pro_user : User
pro_user = record (new_user 70) {
  plan = pro;
  stripe_customer_id = some 700;
  stripe_subscription_id = some 5;
  plan_since = some 100;
}

abbrev pro_store : Store
pro_store = record user_store { users = (7, pro_user) ∷ [] }

abbrev lapsed_user : User
lapsed_user = record pro_user { plan = free; stripe_subscription_id = none }

sync_downgrade_example :
    (plan_for_status canceled ≡ free)
    × (7 ≢ owner)
    × ((pro_user.stripe_subscription_id ≡ none)
        ⊎ (pro_user.stripe_subscription_id ≡ some canceled_subscription.id))
unfolding sync_user
sync_downgrade_example =
    sync_downgrade canceled_subscription 900 7 pro_user lapsed_user pro_store refl refl refl refl

sync_again_example :
    let s' = sync_found subscription 100 (some 7) customer_store in
    sync_found subscription 300 (some 7) s' ≡ s'
sync_again_example =
    sync_again subscription 7 100 300 (record trial_user { stripe_customer_id = some 700 })
      customer_store refl

abbrev fetch : ℕ → Fetched
fetch sub_id = found subscription

abbrev no_fetch : ℕ → Fetched
no_fetch sub_id = api_error

delivered_once_example :
    let (reply, s'') =
      stripe_webhook true true fetch 31 (subscription_changed 5) 100 customer_store in
    (reply ≡ received false)
    × (stripe_webhook true true no_fetch 31 (subscription_changed 5) 200 s'' ≡ (received true, s''))
unfolding handle_event stripe_event_seen sync_user get_user_by_stripe_customer_id
delivered_once_example =
    delivered_once fetch no_fetch 31 (subscription_changed 5) 100 200 customer_store
      (sync_user subscription 100 7 (record trial_user { stripe_customer_id = some 700 })
        customer_store)
      refl refl

failed_stays_unrecorded_example :
    (stripe_webhook true true no_fetch 31 (subscription_changed 5) 100 customer_store
      ≡ (server_error, customer_store))
    × (stripe_event_seen 31 customer_store ≡ false)
unfolding handle_event stripe_event_seen
failed_stays_unrecorded_example =
    failed_stays_unrecorded no_fetch fetch 31 (subscription_changed 5) 100 200 customer_store
      customer_store refl refl
