-- ===== src/Billing/Sync.antt =====
-- What a sync with the state of a subscription does to the user's plan.
use personal_portfolio_analy.Prelude.{
  ℕ, ◌≡◌, ◌≢◌, refl, ◌∙◌, Bool, Option, none, some, arith, inl, inr, ◌⊎◌,
}
use personal_portfolio_analy.Prelude.Dict.{lookup, lookup-insert_self, insert_same}
use personal_portfolio_analy.Store.{Store, User, Plan, free, pro, owner}
use personal_portfolio_analy.Accounts.{apply_subscription_state, subscribed, record_funnel_event}
use personal_portfolio_analy.Billing.{
  Subscription, plan_for_status, period_end, sync_user, sync_found,
}

row-apply :
    (uid : ℕ) (plan : Plan) (sub end : Option ℕ) (cancel : Bool) (now : ℕ) (u : User) (s : Store)
    → lookup uid s.users ≡ some u
    → lookup uid (apply_subscription_state uid plan sub end cancel now s).users
      ≡ some (subscribed plan sub end cancel now u)
unfolding apply_subscription_state record_funnel_event
row-apply uid plan sub end cancel now u s e =
    ground (arith, lookup-insert_self uid (subscribed plan sub end cancel now u) s.users)

-- The row of a user after the sync of a subscription.
abbrev pub row_after : Subscription → ℕ → ℕ → Store → Option User
row_after sub now uid s = lookup uid (sync_found sub now (some uid) s).users

found-sync :
    (sub : Subscription) (now uid : ℕ) (u : User) (s : Store)
    → lookup uid s.users ≡ some u
    → sync_found sub now (some uid) s ≡ sync_user sub now uid u s
found-sync sub now uid u s e = rw (e, sync_found)

-- A sync of a user that exists, to a subscription whose status keeps Pro, puts the user on Pro under
-- it, with its period and its cancellation, and settles the trial.
pub sync_pro :
    (sub : Subscription) (now uid : ℕ) (u : User) (s : Store)
    → lookup uid s.users ≡ some u
    → plan_for_status sub.status ≡ pro
    → (v : User) × (row_after sub now uid s ≡ some v)
      × (v.plan ≡ pro)
      × (v.stripe_subscription_id ≡ some sub.id)
      × (v.stripe_current_period_end ≡ period_end sub)
      × (v.stripe_cancel_at_period_end ≡ sub.cancel_at_period_end)
      × (v.trial_ends_at ≡ none)
unfolding sync_user subscribed
sync_pro sub now uid u s e keeps = (
  subscribed pro (some sub.id) (period_end sub) sub.cancel_at_period_end now u,
  rw (found-sync sub now uid u s e) (
      ground (
        arith,
        row-apply uid pro (some sub.id) (period_end sub) sub.cancel_at_period_end now u s e,
      )),
  refl,
  refl,
  refl,
  refl,
  refl,
)

-- A sync takes Pro from a user only for a subscription that does not keep it, never from the
-- owner, and never for another subscription than the user's own.
pub sync_downgrade :
    (sub : Subscription) (now uid : ℕ) (u v : User) (s : Store)
    → lookup uid s.users ≡ some u
    → u.plan ≡ pro
    → row_after sub now uid s ≡ some v
    → v.plan ≡ free
    → (plan_for_status sub.status ≡ free)
      × (uid ≢ owner)
      × ((u.stripe_subscription_id ≡ none) ⊎ (u.stripe_subscription_id ≡ some sub.id))
unfolding sync_user subscribed
sync_downgrade sub now uid u v s e was after is_free =
    let kept =
      row-apply uid pro (some sub.id) (period_end sub) sub.cancel_at_period_end now u s e in
    let same = found-sync sub now uid u s e in (ground arith, ground arith, ground arith)

-- Writing a state to a row that already has it changes nothing.
apply-fixed :
    (uid : ℕ) (plan : Plan) (sub end : Option ℕ) (cancel : Bool) (now : ℕ) (v : User) (s : Store)
    → lookup uid s.users ≡ some v
    → subscribed plan sub end cancel now v ≡ v
    → v.plan ≡ plan
    → apply_subscription_state uid plan sub end cancel now s ≡ s
unfolding apply_subscription_state
apply-fixed uid plan sub end cancel now v s e fixed same =
    let users = insert_same uid v s.users e in ground arith

subscribed-again :
    (plan : Plan) (sub end : Option ℕ) (cancel : Bool) (now later : ℕ) (u : User)
    → subscribed plan sub end cancel later (subscribed plan sub end cancel now u)
      ≡ subscribed plan sub end cancel now u
unfolding subscribed
subscribed-again pro sub end cancel now later u = refl
subscribed-again free sub end cancel now later u = refl

plan-subscribed :
    (plan : Plan) (sub end : Option ℕ) (cancel : Bool) (now : ℕ) (u : User)
    → (subscribed plan sub end cancel now u).plan ≡ plan
unfolding subscribed
plan-subscribed pro sub end cancel now u = refl
plan-subscribed free sub end cancel now u = refl

module _ (sub : Subscription) (uid : ℕ) where
  -- What `sync_user` writes, where it writes.
  abbrev write_at : ℕ → Store → Store
  write_at now s =
      apply_subscription_state uid (plan_for_status sub.status) (some sub.id) (period_end sub)
        sub.cancel_at_period_end now s

  sync_user-cases :
      (now : ℕ) (u : User) (s : Store)
      → (sync_user sub now uid u s ≡ s) ⊎ (sync_user sub now uid u s ≡ write_at now s)
  unfolding sync_user
  sync_user-cases now u s = ground arith

  -- Without a write at one time there is none at another.
  sync_user-time :
      (now later : ℕ) (u : User) (s : Store)
      → sync_user sub now uid u s ≡ s
      → (sync_user sub later uid u s ≡ s) ⊎ (write_at now s ≡ s)
  unfolding sync_user
  sync_user-time now later u s same = ground arith

  fixed_after :
      (now later : ℕ) (u : User) (s : Store)
      → lookup uid s.users
        ≡ some (
            subscribed
              (plan_for_status sub.status)
              (some sub.id)
              (period_end sub)
              sub.cancel_at_period_end
              now
              u)
      → sync_found sub later (some uid) s ≡ s
  fixed_after now later u s e =
      let plan = plan_for_status sub.status in
      let v = subscribed plan (some sub.id) (period_end sub) sub.cancel_at_period_end now u in
      let fixed =
        apply-fixed uid plan (some sub.id) (period_end sub) sub.cancel_at_period_end later v s e
          (subscribed-again plan _ _ _ now later u) (plan-subscribed plan _ _ _ now u) in
      let same = found-sync sub later uid v s e in
      elim (sync_user-cases later v s) [
        | inl kept ↦ same ∙ kept
        | inr written ↦ same ∙ written ∙ fixed
      ]

  -- Stripe delivers an event more than once: for a user that exists, a second sync with the same
  -- state of a subscription, at whatever time, changes nothing that the first one has left.
  pub sync_again :
      (now later : ℕ) (u : User) (s : Store)
      → lookup uid s.users ≡ some u
      → let s' = sync_found sub now (some uid) s in sync_found sub later (some uid) s' ≡ s'
  sync_again now later u s e =
      let plan = plan_for_status sub.status in
      let row =
        row-apply uid plan (some sub.id) (period_end sub) sub.cancel_at_period_end now u s e in
      let first = found-sync sub now uid u s e in
      let second = found-sync sub later uid u s e in
      elim (sync_user-cases now u s) [
        | inr written ↦ rw (first ∙ written) (fixed_after now later u (write_at now s) row)
        | inl kept ↦ rw (first ∙ kept) (elim (sync_user-time now later u s kept) [
          | inl kept_later ↦ second ∙ kept_later
          | inr idle ↦ rw idle at (fixed_after now later u (write_at now s) row)
        ])
      ]
