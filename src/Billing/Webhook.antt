-- ===== src/Billing/Webhook.antt =====
-- The webhook's ledger of processed events.
use personal_portfolio_analy.Prelude.{
  ℕ, ◌≡◌, refl, true, false, Option, none, some, List, [], ◌∷◌, ◌++◌, arith, any, ◌==◌, inl, inr,
  Option-cases, ◌∙◌,
}
use personal_portfolio_analy.Prelude.Dict.{lookup}
use personal_portfolio_analy.Store.{Store, FunnelEvent, User}
use personal_portfolio_analy.Accounts.{
  stripe_event_seen, record_stripe_event, record_funnel_event, set_stripe_customer_id,
  apply_subscription_state,
}
use personal_portfolio_analy.Billing.{
  StripeEvent, Fetched, found, resource_missing, api_error, checkout_completed,
  subscription_changed, other_event, Effect, done, raised, store_of, handle_event, stripe_webhook,
  received, server_error, sync_subscription, sync_user, Subscription, relink, sync_found, then_sync,
  by_customer, sync_fetched, link_checkout, sync_checkout,
}

any-append_self : (k : ℕ) (es : List ℕ) → any (λ e. e == k) (es ++ k ∷ []) ≡ true
any-append_self k [] = ground arith
any-append_self k (e ∷ es) = ground (arith, any-append_self k es)

seen-record : (k : ℕ) (s : Store) → stripe_event_seen k (record_stripe_event k s).1 ≡ true
unfolding stripe_event_seen record_stripe_event
seen-record k s = ground (arith, any-append_self k s.stripe_events)

events-funnel :
    (e : FunnelEvent) (uid : ℕ) (s : Store)
    → (record_funnel_event e uid s).stripe_events ≡ s.stripe_events
unfolding record_funnel_event
events-funnel e uid s = ground arith

events-sync_user :
    (sub : Subscription) (now uid : ℕ) (u : User) (s : Store)
    → (sync_user sub now uid u s).stripe_events ≡ s.stripe_events
unfolding sync_user apply_subscription_state record_funnel_event
events-sync_user sub now uid u s = ground arith

events-sync_found :
    (sub : Subscription) (now : ℕ) (uid : Option ℕ) (s : Store)
    → (sync_found sub now uid s).stripe_events ≡ s.stripe_events
events-sync_found sub now none s = refl
events-sync_found sub now (some uid) s = elim (Option-cases (lookup uid s.users)) [
  | inl absent ↦ rw (absent, sync_found)
  | inr (u, e) ↦ rw (e, sync_found) (events-sync_user sub now uid u s)
]

events-relink :
    (uid : ℕ) (c : Option ℕ) (s : Store)
    → (store_of (relink uid c s)).stripe_events ≡ s.stripe_events
unfolding set_stripe_customer_id
events-relink uid none s = refl
events-relink uid (some c) s = ground arith

events-then_sync :
    (sub : Subscription) (now uid : ℕ) (e : Effect)
    → (store_of (then_sync sub now uid e)).stripe_events ≡ (store_of e).stripe_events
events-then_sync sub now uid (done s) = events-sync_found sub now (some uid) s
events-then_sync sub now uid (raised s) = refl

events-sync_subscription :
    (sub : Subscription) (now : ℕ) (s : Store)
    → (store_of (sync_subscription sub now s)).stripe_events ≡ s.stripe_events
unfolding sync_subscription
events-sync_subscription sub now s = elim (Option-cases (by_customer sub.customer s)) [
  | inr (uid, e) ↦ rw (e, sync_subscription) (events-sync_found sub now (some uid) s)
  | inl absent ↦ elim (Option-cases sub.metadata_user_id) [
    | inl unknown ↦ rw (absent, unknown, sync_subscription)
    | inr (uid, known) ↦
        rw (absent, known, sync_subscription)
          (events-then_sync sub now uid (relink uid sub.customer s)
            ∙ events-relink uid sub.customer s)
  ]
]

events-sync_fetched :
    (f : Fetched) (now : ℕ) (s : Store)
    → (store_of (sync_fetched f now s)).stripe_events ≡ s.stripe_events
events-sync_fetched (found sub) now s = events-sync_subscription sub now s
events-sync_fetched resource_missing now s = refl
events-sync_fetched api_error now s = refl

events-link_checkout :
    (uid c : Option ℕ) (s : Store)
    → (store_of (link_checkout uid c s)).stripe_events ≡ s.stripe_events
events-link_checkout none c s = refl
events-link_checkout (some uid) c s = events-relink uid c s

events-sync_checkout :
    (fetch : ℕ → Fetched) (sub_id : Option ℕ) (now : ℕ) (e : Effect)
    → (store_of (sync_checkout fetch sub_id now e)).stripe_events ≡ (store_of e).stripe_events
events-sync_checkout fetch none now (done s) = refl
events-sync_checkout fetch (some sub_id) now (done s) = events-sync_fetched (fetch sub_id) now s
events-sync_checkout fetch sub_id now (raised s) = refl

events-handle_event :
    (fetch : ℕ → Fetched) (event : StripeEvent) (now : ℕ) (s : Store)
    → (store_of (handle_event fetch event now s)).stripe_events ≡ s.stripe_events
unfolding handle_event
events-handle_event fetch (checkout_completed uid c sub_id) now s =
    events-sync_checkout fetch sub_id now (link_checkout uid c s) ∙ events-link_checkout uid c s
events-handle_event fetch (subscription_changed sub_id) now s =
    events-sync_fetched (fetch sub_id) now s
events-handle_event fetch other_event now s = refl

module _ (fetch later_fetch : ℕ → Fetched) (event_id : ℕ) (event : StripeEvent)
    (now later : ℕ) where
  -- An event that was not seen before and whose handling succeeds is answered 200, and is a
  -- duplicate from then on: a further delivery, whatever Stripe's API would say by then, is told so
  -- and changes nothing.
  pub delivered_once :
      (s s' : Store)
      → stripe_event_seen event_id s ≡ false
      → handle_event fetch event now s ≡ done s'
      → let (reply, s'') = stripe_webhook true true fetch event_id event now s in
        (reply ≡ received false)
        × (stripe_webhook true true later_fetch event_id event later s'' ≡ (received true, s''))
  unfolding stripe_webhook
  delivered_once s s' unseen handled =
      let recorded = seen-record event_id s' in (ground arith, ground arith)

  -- An event that was not seen before and whose handling raises is answered with an error and stays unrecorded.
  pub failed_stays_unrecorded :
      (s s' : Store)
      → stripe_event_seen event_id s ≡ false
      → handle_event fetch event now s ≡ raised s'
      → (stripe_webhook true true fetch event_id event now s ≡ (server_error, s'))
        × (stripe_event_seen event_id s' ≡ false)
  unfolding stripe_webhook stripe_event_seen
  failed_stays_unrecorded s s' unseen handled =
      let same = events-handle_event fetch event now s in (ground arith, ground arith)
