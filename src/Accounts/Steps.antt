-- ===== src/Accounts/Steps.antt =====
-- The account operations as steps, in any order and at any times, and what no sequence of them
-- undoes.
use personal_portfolio_analy.Prelude.{
  ℕ, ◌+◌, ◌<◌, ◌≡◌, Bool, false, Option, none, some, arith, ◌⊎◌, inl, inr, Option-cases, leb,
  Bool-cases, ◌&&◌, not,
}
use personal_portfolio_analy.Prelude.Dict.{Dict, lookup, insert, lookup-insert}
use personal_portfolio_analy.Store.{
  Store, User, Plan, is_pro, FunnelEvent, signup, trial_started, chose_free, upgraded,
}
use personal_portfolio_analy.Accounts.{
  maybe_start_trial, resolve_trial, apply_subscription_state, set_stripe_customer_id, new_user,
  get_or_create_user, tombstone_auth_id, record_stripe_event, record_funnel_event, subscribed,
  set_user, find_user, holds, trial_barred, is_refused, stripe_event_seen,
}

pub data Step : Store → Store → Type 0 where
  sign_in :
      (auth_id : ℕ) (issued_at : Option ℕ) (s : Store)
      → Step s (get_or_create_user auth_id issued_at s).1
  delete : (auth_id now : ℕ) (s : Store) → Step s (tombstone_auth_id auth_id now s)
  start_trial :
      (uid trial_days now : ℕ) (s : Store) → Step s (maybe_start_trial uid trial_days now s).1
  choose_free : (uid : ℕ) (s : Store) → Step s (resolve_trial uid s)
  link :
      (uid customer : ℕ) (s s' : Store)
      → set_stripe_customer_id uid customer s ≡ some s'
      → Step s s'
  subscribe :
      (uid : ℕ) (plan : Plan) (sub period_end : Option ℕ) (cancel : Bool) (now : ℕ) (s : Store)
      → Step s (apply_subscription_state uid plan sub period_end cancel now s)
  record_event : (e : ℕ) (s : Store) → Step s (record_stripe_event e s).1

pub data Reach (s : Store) : Store → Type 0 where
  here : Reach s s
  next : {t u : Store} → Reach s t → Step t u → Reach s u

-- A column of a user's row, if the row is there.
abbrev pub column : {A : Type 0} → (User → Option A) → ℕ → Store → Option A
column f uid s = elim (lookup uid s.users) [ none ↦ none | some u ↦ f u ]

users-funnel :
    (e : FunnelEvent) (uid : ℕ) (s : Store) → (record_funnel_event e uid s).users ≡ s.users
unfolding record_funnel_event
users-funnel e uid s = ground arith

next_id-funnel :
    (e : FunnelEvent) (uid : ℕ) (s : Store) → (record_funnel_event e uid s).next_id ≡ s.next_id
unfolding record_funnel_event
next_id-funnel e uid s = ground arith

-- A column that every write of an operation leaves where it is set.
pub record Kept {A : Type 0} (f : User → Option A) (uid : ℕ) (a : A) (s : Store) : Type 0 where
  pub value : column f uid s ≡ some a
  pub known : uid < s.next_id

-- Writing the row of one user, with the column kept there.
Kept-set_user :
    {A : Type 0} (f : User → Option A) (uid : ℕ) (a : A) (k : ℕ) (u v : User) (s : Store)
    → lookup k s.users ≡ some u
    → (f u ≡ some a → f v ≡ some a)
    → Kept f uid a s
    → Kept f uid a (set_user k v s)
Kept-set_user f uid a k u v s found same h = record {
  value = let e = h.value in ground (arith, lookup-insert k uid v s.users);
  known = h.known;
}

Kept-funnel :
    {A : Type 0} (f : User → Option A) (uid : ℕ) (a : A) (e : FunnelEvent) (k : ℕ) (s : Store)
    → Kept f uid a s
    → Kept f uid a (record_funnel_event e k s)
Kept-funnel f uid a e k s h =
    let value = h.value in
    record { value = rw users-funnel value; known = rw next_id-funnel h.known }

-- A link that is not refused leaves the store, or fills the empty slot of a user's row.
link-cases :
    (k customer : ℕ) (s s' : Store)
    → set_stripe_customer_id k customer s ≡ some s'
    → (s' ≡ s)
      ⊎ ((u : User) × (lookup k s.users ≡ some u)
          × (u.stripe_customer_id ≡ none)
          × (s' ≡ set_user k (record u { stripe_customer_id = some customer }) s))
unfolding set_stripe_customer_id
link-cases k customer s s' e = elim (Option-cases (lookup k s.users)) [
  | inl absent ↦ inl (ground arith)
  | inr (u, found) ↦ elim (Option-cases u.stripe_customer_id) [
    | inr (c, linked) ↦ inl (ground arith)
    | inl empty ↦ inr (u, found, empty, ground arith)
  ]
]

-- No write of a row changes the column once it is set.
record IsWriteOnce {A : Type 0} (f : User → Option A) : Type 0 where
  on_start :
      (u : User) (now ends : ℕ) (a : A)
      → trial_barred u ≡ false
      → f u ≡ some a
      → f (record u { trial_started_at = some now; trial_ends_at = some ends }) ≡ some a
  on_free : (u : User) (a : A) → f u ≡ some a → f (record u { trial_ends_at = none }) ≡ some a
  on_link :
      (u : User) (c : ℕ) (a : A)
      → u.stripe_customer_id ≡ none
      → f u ≡ some a
      → f (record u { stripe_customer_id = some c }) ≡ some a
  on_subscribe :
      (plan : Plan) (sub period_end : Option ℕ) (cancel : Bool) (now : ℕ) (u : User) (a : A)
      → f u ≡ some a
      → f (subscribed plan sub period_end cancel now u) ≡ some a

trial_started_at-IsWriteOnce : IsWriteOnce (λ u. u.trial_started_at)
trial_started_at-IsWriteOnce = record {
  on_start = λ u now ends a barred e. ground arith;
  on_free = λ u a e. e;
  on_link = λ u c a empty e. e;
  on_subscribe = λ plan sub period_end cancel now u a e. unfold subscribed in ground arith;
}

stripe_customer_id-IsWriteOnce : IsWriteOnce (λ u. u.stripe_customer_id)
stripe_customer_id-IsWriteOnce = record {
  on_start = λ u now ends a barred e. e;
  on_free = λ u a e. e;
  on_link = λ u c a empty e. ground arith;
  on_subscribe = λ plan sub period_end cancel now u a e. unfold subscribed in ground arith;
}

module _ {A : Type 0} (f : User → Option A) (once : IsWriteOnce f) (uid : ℕ) (a : A) where
  Kept-new_user :
      (auth_id : ℕ) (tombs : Dict ℕ) (s : Store)
      → Kept f uid a s
      → Kept f uid a (record s {
        next_id = s.next_id + 1;
        users = insert s.next_id (new_user auth_id) s.users;
        tombstones = tombs;
      })
  Kept-new_user auth_id tombs s h =
      let known = h.known in
      let value = h.value in
      record {
        value = ground (arith, lookup-insert s.next_id uid (new_user auth_id) s.users);
        known = omega arith;
      }

  sign_in-Kept :
      (auth_id : ℕ) (issued_at : Option ℕ) (s : Store)
      → Kept f uid a s
      → Kept f uid a (get_or_create_user auth_id issued_at s).1
  unfolding get_or_create_user
  sign_in-Kept auth_id issued_at s h =
      elim (Option-cases (find_user (λ u. holds u.auth_id auth_id) s.users)) [
        | inr (k, found) ↦ rw (found, get_or_create_user) h
        | inl absent ↦ elim (Bool-cases (is_refused issued_at (lookup auth_id s.tombstones))) [
          | inl refused ↦ rw (absent, refused, get_or_create_user) h
          | inr fresh ↦
              rw (absent, fresh, get_or_create_user)
                (Kept-funnel f uid a signup _ _ (Kept-new_user auth_id _ s h))
        ]
      ]

  start_trial-Kept :
      (k trial_days now : ℕ) (s : Store)
      → Kept f uid a s
      → Kept f uid a (maybe_start_trial k trial_days now s).1
  unfolding maybe_start_trial
  start_trial-Kept k trial_days now s h = elim (Bool-cases (leb trial_days 0)) [
    | inl off ↦ rw (off, maybe_start_trial) h
    | inr on ↦ elim (Option-cases (lookup k s.users)) [
      | inl absent ↦ rw (on, absent, maybe_start_trial) h
      | inr (u, found) ↦ elim (Bool-cases (trial_barred u)) [
        | inl barred ↦ rw (on, found, barred, maybe_start_trial) h
        | inr free_now ↦
            rw (on, found, free_now, maybe_start_trial)
              (Kept-funnel f uid a trial_started k _
                (Kept-set_user f uid a k u _ s found (once.on_start u _ _ a free_now) h))
      ]
    ]
  ]

  choose_free-Kept : (k : ℕ) (s : Store) → Kept f uid a s → Kept f uid a (resolve_trial k s)
  unfolding resolve_trial
  choose_free-Kept k s h = elim (Option-cases (lookup k s.users)) [
    | inl absent ↦ rw (absent, resolve_trial) h
    | inr (u, found) ↦
        rw (found, resolve_trial)
          (Kept-funnel f uid a chose_free k _
            (Kept-set_user f uid a k u _ s found (once.on_free u a) h))
  ]

  link-Kept :
      (k customer : ℕ) (s s' : Store)
      → set_stripe_customer_id k customer s ≡ some s'
      → Kept f uid a s
      → Kept f uid a s'
  link-Kept k customer s s' e h = elim (link-cases k customer s s' e) [
    | inl same ↦ rw same h
    | inr (u, found, empty, written) ↦
        rw written (Kept-set_user f uid a k u _ s found (once.on_link u customer a empty) h)
  ]

  subscribe-Kept :
      (k : ℕ) (plan : Plan) (sub period_end : Option ℕ) (cancel : Bool) (now : ℕ) (s : Store)
      → Kept f uid a s
      → Kept f uid a (apply_subscription_state k plan sub period_end cancel now s)
  unfolding apply_subscription_state
  subscribe-Kept k plan sub period_end cancel now s h = elim (Option-cases (lookup k s.users)) [
    | inl absent ↦ rw (absent, apply_subscription_state) h
    | inr (u, found) ↦
        let written =
          Kept-set_user f uid a k u (subscribed plan sub period_end cancel now u) s found
            (once.on_subscribe plan sub period_end cancel now u a) h in
        elim (Bool-cases (is_pro plan && not (is_pro u.plan))) [
          | inl up ↦
              rw (found, up, apply_subscription_state) (Kept-funnel f uid a upgraded k _ written)
          | inr same ↦ rw (found, same, apply_subscription_state) written
        ]
  ]

  record_event-Kept :
      (e : ℕ) (s : Store) → Kept f uid a s → Kept f uid a (record_stripe_event e s).1
  unfolding record_stripe_event
  record_event-Kept e s h = elim (Bool-cases (stripe_event_seen e s)) [
    | inl seen ↦ rw (seen, record_stripe_event) h
    | inr fresh ↦ rw (fresh, record_stripe_event) (record { value = h.value; known = h.known })
  ]

  Step-Kept : {s t : Store} → Step s t → Kept f uid a s → Kept f uid a t
  Step-Kept (sign_in auth_id issued_at s) h = sign_in-Kept auth_id issued_at s h
  Step-Kept (delete auth_id now s) h =
      unfold tombstone_auth_id in record { value = h.value; known = h.known }
  Step-Kept (start_trial k trial_days now s) h = start_trial-Kept k trial_days now s h
  Step-Kept (choose_free k s) h = choose_free-Kept k s h
  Step-Kept (link k customer s s' e) h = link-Kept k customer s s' e h
  Step-Kept (subscribe k plan sub period_end cancel now s) h =
      subscribe-Kept k plan sub period_end cancel now s h
  Step-Kept (record_event e s) h = record_event-Kept e s h

  Reach-Kept : {s t : Store} → Reach s t → Kept f uid a s → Kept f uid a t
  Reach-Kept here h = h
  Reach-Kept (next r st) h = Step-Kept st (Reach-Kept r h)

-- Whatever sign-ins, deletion marks, trials, choices, links and subscriptions follow, the moment at
-- which the one trial of a user, whose id was given out before, began stays.
pub trial_began_stays :
    {s t : Store} (uid began : ℕ)
    → uid < s.next_id
    → Reach s t
    → column (λ u. u.trial_started_at) uid s ≡ some began
    → column (λ u. u.trial_started_at) uid t ≡ some began
trial_began_stays uid began known r e =
    (Reach-Kept _ trial_started_at-IsWriteOnce uid began r
      (record { value = e; known = known })).value

-- Whatever sign-ins, deletion marks, trials, choices, links and subscriptions follow, a user, whose
-- id was given out before, that has a Stripe customer keeps that customer.
pub customer_stays :
    {s t : Store} (uid customer : ℕ)
    → uid < s.next_id
    → Reach s t
    → column (λ u. u.stripe_customer_id) uid s ≡ some customer
    → column (λ u. u.stripe_customer_id) uid t ≡ some customer
customer_stays uid customer known r e =
    (Reach-Kept _ stripe_customer_id-IsWriteOnce uid customer r
      (record { value = e; known = known })).value
