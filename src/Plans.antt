-- ===== src/Plans.antt =====
-- app/plans.py: the plan that applies to a user, the trial's states, and what a plan allows.
pub mod Phases
use personal_portfolio_analy.Prelude.{
  ℕ, ◌+◌, Bool, true, false, ◌&&◌, Option, none, some, leb, ltb, ◌==◌, if◌then◌else◌,
}
use personal_portfolio_analy.Store.{User, Plan, free, pro, is_pro, days, owner}

abbrev pub trial_decision_grace_days : ℕ
trial_decision_grace_days = 7

-- `_trial_ends_at`
abbrev pub trial_ends_at : Option User → Option ℕ
trial_ends_at none = none
trial_ends_at (some u) = u.trial_ends_at

abbrev pub is_before : ℕ → Option ℕ → Bool
is_before now none = false
is_before now (some ends) = ltb now ends

unfoldable pub trial_active : Option User → ℕ → Bool
trial_active user now = is_before now (trial_ends_at user)

abbrev in_grace : ℕ → Option ℕ → Bool
in_grace now none = false
in_grace now (some ends) = leb ends now && ltb now (ends + days trial_decision_grace_days)

unfoldable pub trial_decision_pending : Option User → ℕ → Bool
trial_decision_pending none now = false
trial_decision_pending (some u) now = if is_pro u.plan then false else in_grace now u.trial_ends_at

unfoldable pub effective_plan : Option User → ℕ → Plan
unfolding trial_active
effective_plan none now = free
effective_plan (some u) now =
    if is_pro u.plan then pro else if trial_active (some u) now then pro else free

-- The settings that the plans read.
pub record PlanSettings : Type 0 where
  pub tz : ℕ
  pub free_max_digest_holdings : ℕ
  pub free_max_watchlist : ℕ
  pub pro_max_watchlist : ℕ

unfoldable pub user_plan_and_tz : Option User → ℕ → PlanSettings → ℕ → Plan × ℕ
unfolding effective_plan
user_plan_and_tz none user_id settings now =
    if user_id == owner then (pro, settings.tz) else (free, settings.tz)
user_plan_and_tz (some u) user_id settings now = (effective_plan (some u) now, u.timezone)

-- `weekday` counts from Monday, 0, to Sunday, 6.
unfoldable pub digest_cadence_due : Plan → ℕ → Bool
digest_cadence_due plan weekday =
    if leb 5 weekday then false else if is_pro plan then true else weekday == 0

unfoldable pub max_digest_holdings : Plan → PlanSettings → Option ℕ
max_digest_holdings plan settings =
    if is_pro plan then none else some settings.free_max_digest_holdings

unfoldable pub max_watchlist : Plan → PlanSettings → ℕ
max_watchlist plan settings =
    if is_pro plan then settings.pro_max_watchlist else settings.free_max_watchlist
