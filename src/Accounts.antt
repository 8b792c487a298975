-- ===== src/Accounts.antt =====
-- The operations of app/db/repo.py on the rows of `users`, and on the tables beside it: sign-in
-- and deletion marks, the trial, the Stripe link, the funnel and the processed webhook events.
pub mod Trials
pub mod SignIn
pub mod Steps
pub mod Deletion
pub mod Gone
pub mod Rows
use personal_portfolio_analy.Prelude.{
  ℕ, ◌+◌, Bool, true, false, Option, none, some, List, [], ◌∷◌, ◌++◌, not, ◌&&◌, leb, ◌==◌, any,
  if◌then◌else◌,
}
use personal_portfolio_analy.Prelude.Dict.{Dict, lookup, insert, erase}
use personal_portfolio_analy.Store.{
  Store, User, Plan, free, pro, is_pro, days, FunnelEvent, signup, trial_started, chose_free,
  upgraded, Channel,
}

abbrev pub same_funnel_event : FunnelEvent → FunnelEvent → Bool
same_funnel_event signup signup = true
same_funnel_event trial_started trial_started = true
same_funnel_event chose_free chose_free = true
same_funnel_event upgraded upgraded = true
same_funnel_event _ _ = false

-- An insert that does nothing on a conflict of the key (user, event).
unfoldable pub record_funnel_event : FunnelEvent → ℕ → Store → Store
record_funnel_event event user_id s =
    if any (λ e. e.0 == user_id && same_funnel_event e.1 event) s.funnel
    then s
    else record s { funnel = s.funnel ++ (user_id, event) ∷ [] }

abbrev pub holds : Option ℕ → ℕ → Bool
holds none k = false
holds (some j) k = j == k

-- The id of the first row that a test selects: of the one row, where the column is unique.
abbrev pub find_user : (User → Bool) → Dict User → Option ℕ
find_user p [] = none
find_user p ((uid, u) ∷ us) = if p u then some uid else find_user p us

-- `User(auth_id=auth_id, email=email)`, with the defaults of the other columns.
abbrev pub new_user : ℕ → User
new_user auth_id = record {
  auth_id = some auth_id;
  plan = free;
  timezone = 0;
  preferred_channel = none;
  trial_ends_at = none;
  trial_started_at = none;
  stripe_customer_id = none;
  stripe_subscription_id = none;
  plan_since = none;
  stripe_current_period_end = none;
  stripe_cancel_at_period_end = false;
}

-- The token does not prove a new sign-in: it has no date, or was issued by the deletion.
abbrev pub is_refused : Option ℕ → Option ℕ → Bool
is_refused issued_at none = false
is_refused none (some deleted_at) = true
is_refused (some issued) (some deleted_at) = leb issued deleted_at

-- `Repo.get_or_create_user`; `none` is `DeletedAccountError`.
unfoldable pub get_or_create_user : ℕ → Option ℕ → Store → Option ℕ × Store
unfolding record_funnel_event
get_or_create_user auth_id issued_at s = elim (find_user (λ u. holds u.auth_id auth_id) s.users) [
  | some uid ↦ (some uid, s)
  | none ↦ if is_refused issued_at (lookup auth_id s.tombstones) then (none, s) else (
    some s.next_id,
    record_funnel_event signup s.next_id (record s {
      next_id = s.next_id + 1;
      users = insert s.next_id (new_user auth_id) s.users;
      tombstones = erase auth_id s.tombstones;
    }),
  )
]

-- `Repo.tombstone_auth_id`
unfoldable pub tombstone_auth_id : ℕ → ℕ → Store → Store
tombstone_auth_id auth_id now s = record s { tombstones = insert auth_id now s.tombstones }

abbrev pub set_user : ℕ → User → Store → Store
set_user uid u s = record s { users = insert uid u s.users }

-- The trial has been used, or the user pays.
abbrev pub trial_barred : User → Bool
trial_barred u = elim u.trial_started_at [ some _ ↦ true | none ↦ is_pro u.plan ]

-- `Repo.maybe_start_trial`: the new end of the trial, if one was armed.
unfoldable pub maybe_start_trial : ℕ → ℕ → ℕ → Store → Option ℕ × Store
unfolding record_funnel_event
maybe_start_trial user_id trial_days now s =
    if leb trial_days 0 then (none, s) else elim (lookup user_id s.users) [
      | none ↦ (none, s)
      | some u ↦ if trial_barred u then (none, s) else (
        some (now + days trial_days),
        record_funnel_event trial_started user_id (
            set_user user_id
              (record u {
                trial_started_at = some now;
                trial_ends_at = some (now + days trial_days);
              })
              s),
      )
    ]

-- `Repo.resolve_trial`
unfoldable pub resolve_trial : ℕ → Store → Store
unfolding record_funnel_event
resolve_trial user_id s = elim (lookup user_id s.users) [
  | none ↦ s
  | some u ↦
      record_funnel_event chose_free user_id
        (set_user user_id (record u { trial_ends_at = none }) s)
]

abbrev in_trial : User → Bool
in_trial u = elim u.trial_ends_at [ none ↦ false | some _ ↦ not (is_pro u.plan) ]

abbrev pub trial_rows : Dict User → Dict User
trial_rows [] = []
trial_rows ((uid, u) ∷ us) = if in_trial u then (uid, u) ∷ trial_rows us else trial_rows us

-- `Repo.list_trial_users`
unfoldable pub list_trial_users : Store → Dict User
list_trial_users s = trial_rows s.users

-- `Repo.get_user_by_stripe_customer_id`
unfoldable pub get_user_by_stripe_customer_id : ℕ → Store → Option ℕ
get_user_by_stripe_customer_id customer_id s =
    find_user (λ u. holds u.stripe_customer_id customer_id) s.users

-- `Repo.set_stripe_customer_id`; `none` where the unique column refuses the write.
unfoldable pub set_stripe_customer_id : ℕ → ℕ → Store → Option Store
unfolding get_user_by_stripe_customer_id
set_stripe_customer_id user_id customer_id s = elim (lookup user_id s.users) [
  | none ↦ some s
  | some u ↦ elim u.stripe_customer_id [
    | some _ ↦ some s
    | none ↦ elim (get_user_by_stripe_customer_id customer_id s) [
      | some _ ↦ none
      | none ↦ some (set_user user_id (record u { stripe_customer_id = some customer_id }) s)
    ]
  ]
]

-- What `apply_subscription_state` writes to the row.
unfoldable pub subscribed : Plan → Option ℕ → Option ℕ → Bool → ℕ → User → User
subscribed pro subscription_id current_period_end cancel_at_period_end now u = record u {
  plan = pro;
  plan_since = if is_pro u.plan then u.plan_since else some now;
  trial_ends_at = none;
  stripe_subscription_id = subscription_id;
  stripe_current_period_end = current_period_end;
  stripe_cancel_at_period_end = cancel_at_period_end;
}
subscribed free subscription_id current_period_end cancel_at_period_end now u = record u {
  plan = free;
  stripe_subscription_id = none;
  stripe_current_period_end = none;
  stripe_cancel_at_period_end = false;
}

-- `Repo.apply_subscription_state`
unfoldable pub apply_subscription_state : ℕ → Plan → Option ℕ → Option ℕ → Bool → ℕ → Store → Store
unfolding record_funnel_event subscribed
apply_subscription_state user_id plan subscription_id current_period_end cancel now s =
    elim (lookup user_id s.users) [
      | none ↦ s
      | some u ↦
          let s' =
            set_user user_id (subscribed plan subscription_id current_period_end cancel now u) s in
          if is_pro plan && not (is_pro u.plan) then record_funnel_event upgraded user_id s' else s'
    ]

-- `Repo.stripe_event_seen`
unfoldable pub stripe_event_seen : ℕ → Store → Bool
stripe_event_seen event_id s = any (λ e. e == event_id) s.stripe_events

-- `Repo.record_stripe_event`; false where another delivery has recorded it.
unfoldable pub record_stripe_event : ℕ → Store → Bool × Store
unfolding stripe_event_seen
record_stripe_event event_id s =
    if stripe_event_seen event_id s
    then (false, s)
    else (true, record s { stripe_events = s.stripe_events ++ event_id ∷ [] })
