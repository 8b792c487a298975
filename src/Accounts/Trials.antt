-- ===== src/Accounts/Trials.antt =====
-- The account's one trial: what arms it, what it gives, and that it never comes twice.
use personal_portfolio_analy.Prelude.{
  ℕ, ◌+◌, ◌<◌, ◌≡◌, ◌↔◌, none, some, arith, inl, inr, Option-cases,
}
use personal_portfolio_analy.Prelude.Dict.{lookup, lookup-insert_self}
use personal_portfolio_analy.Store.{Store, User, free, pro, days, FunnelEvent}
use personal_portfolio_analy.Plans.{effective_plan}
use personal_portfolio_analy.Accounts.{maybe_start_trial, record_funnel_event}

users-record_funnel_event :
    (e : FunnelEvent) (uid : ℕ) (s : Store) → (record_funnel_event e uid s).users ≡ s.users
unfolding record_funnel_event
users-record_funnel_event e uid s = ground arith

-- A call for at least one day, for a user on the free plan who never had a trial, arms a trial
-- that ends that many days later; by it the user is on Pro before that end and not from it on.
pub trial_gives_pro :
    (uid trial_days now later : ℕ) (u : User) (s : Store)
    → lookup uid s.users ≡ some u
    → u.plan ≡ free
    → u.trial_started_at ≡ none
    → 0 < trial_days
    → let (ends, s') = maybe_start_trial uid trial_days now s in
      (ends ≡ some (now + days trial_days))
      × ((effective_plan (lookup uid s'.users) later ≡ pro) ↔ (later < now + days trial_days))
unfolding maybe_start_trial effective_plan record_funnel_event
trial_gives_pro uid trial_days now later u s found plan fresh pos =
    let u' : User = record u {
      trial_started_at = some now;
      trial_ends_at = some (now + days trial_days);
    } in
    let written = lookup-insert_self uid u' s.users in
    (ground arith, (λ h. ground arith, λ h. ground arith))

-- Once a trial was armed no later call arms another: it returns none and changes nothing.
pub one_trial :
    (uid trial_days now more later ends : ℕ) (s s' : Store)
    → maybe_start_trial uid trial_days now s ≡ (some ends, s')
    → maybe_start_trial uid more later s' ≡ (none, s')
unfolding maybe_start_trial record_funnel_event
one_trial uid trial_days now more later ends s s' e = elim (Option-cases (lookup uid s.users)) [
  | inl absent ↦ ground arith
  | inr (u, found) ↦
      let u' : User = record u {
        trial_started_at = some now;
        trial_ends_at = some (now + days trial_days);
      } in
      ground (arith, lookup-insert_self uid u' s.users)
]
