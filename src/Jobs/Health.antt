-- ===== src/Jobs/Health.antt =====
-- The state that health reports for a job.
use personal_portfolio_analy.Prelude.{
  ℕ, zero, suc, ◌+◌, ◌≤◌, ◌<◌, ◌≡◌, ◌↔◌, ◌&&◌, leb, if◌then◌else◌, some, arith, inl, inr,
  Option-cases,
}
use personal_portfolio_analy.Store.{seconds}
use personal_portfolio_analy.Jobs.{
  Heartbeat, HealthSettings, Kind, state_for, stale_state, is_live, JobState, live, degraded,
  offline, disabled, unknown, interval_state, missed_fires, Trigger,
}

-- How bad a state is, for a job that has succeeded once.
abbrev pub severity : JobState → ℕ
severity live = 0
severity degraded = 1
severity offline = 2
severity disabled = 0
severity unknown = 0

-- With the success of a job fixed, its interval state never gets better as time goes by.
pub staleness_grows :
    (last now later every d o : ℕ)
    → now ≤ later
    → severity (interval_state (some last) now every d o)
      ≤ severity (interval_state (some last) later every d o)
unfolding interval_state
staleness_grows last now later every d o order = ground arith

-- A trigger that gives the first fire from a time on misses more fires by a later deadline.
pub missed_fires_grow :
    (left : ℕ) (trigger : Trigger) (deadline later prev : ℕ)
    → deadline ≤ later
    → missed_fires left trigger deadline prev ≤ missed_fires left trigger later prev
unfolding missed_fires
missed_fires_grow zero trigger deadline later prev order = omega arith
missed_fires_grow (suc left) trigger deadline later prev order =
    elim (Option-cases (trigger prev)) [
      | inl never ↦ rw (missed_fires, never) (omega arith)
      | inr (fire, next) ↦
          let ih = missed_fires_grow left trigger deadline later (fire + seconds 1) order in
          rw (missed_fires, next) (ground arith)
    ]

live-both :
    (state : JobState) (failures : ℕ)
    → (if is_live state && leb 3 failures then degraded else state) ≡ live
    → (state ≡ live) × (failures < 3)
live-both state failures h = (ground arith, ground arith)

live-from :
    (state : JobState) (failures : ℕ)
    → state ≡ live
    → failures < 3
    → (if is_live state && leb 3 failures then degraded else state) ≡ live
live-from state failures h few = ground arith

-- A job that has failed three times in a row is never reported live, whatever its last success, and
-- a failure count below three leaves the state that its staleness gives.
pub failures_degrade :
    (kind : Kind) (settings : HealthSettings) (now : ℕ) (b : Heartbeat)
    → ((state_for kind settings now b ≡ live)
        ↔ ((stale_state kind settings now b ≡ live) × (b.consecutive_failures < 3)))
unfolding state_for
failures_degrade kind settings now b = (
  λ h. live-both (stale_state kind settings now b) b.consecutive_failures h,
  λ h. live-from (stale_state kind settings now b) b.consecutive_failures h.0 h.1,
)
