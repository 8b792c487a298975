-- ===== src/Plans/Phases.antt =====
-- A user whose trial is over, while the decision on it is pending.
use personal_portfolio_analy.Prelude.{ℕ, ◌≡◌, true, some, arith}
use personal_portfolio_analy.Store.{User, free}
use personal_portfolio_analy.Plans.{trial_active, trial_decision_pending, effective_plan}

-- A user whose decision is pending has the free plan, whatever else the row says.
pub pending_is_free :
    (u : User) (now : ℕ)
    → trial_decision_pending (some u) now ≡ true
    → effective_plan (some u) now ≡ free
unfolding effective_plan trial_decision_pending trial_active
pending_is_free u now h = ground arith
