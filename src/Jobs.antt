-- ===== src/Jobs.antt =====
-- app/jobs.py: the heartbeats of scheduled jobs and the health derived from them, and the writes of
-- `job_heartbeats` in app/db/repo.py. The scheduler's trigger, the job and a failing database are
-- other code: parameters.
pub mod Health
pub mod Beats
use personal_portfolio_analy.Prelude.{
  ℕ, zero, suc, ◌+◌, ◌-◌, ◌*◌, Bool, true, false, ◌&&◌, not, Option, none, some, List, [], ◌∷◌, map,
  take, leb, ltb, ◌==◌, is_some, if◌then◌else◌,
}
use personal_portfolio_analy.Prelude.Dict.{Dict, lookup, insert}
use personal_portfolio_analy.Store.{Text, seconds}

pub data JobState : Type 0 where
  live degraded offline disabled unknown : JobState

-- `job_heartbeats`, without `updated_at`
pub record Heartbeat : Type 0 where
  pub last_attempt_at : Option ℕ
  pub last_success_at : Option ℕ
  pub last_error : Option Text
  pub consecutive_failures : ℕ

-- A row with the defaults of the table.
abbrev pub no_beat : Heartbeat
no_beat = record {
  last_attempt_at = none;
  last_success_at = none;
  last_error = none;
  consecutive_failures = 0;
}

-- A job's row, or the defaults.
abbrev pub beat_of : ℕ → Dict Heartbeat → Heartbeat
beat_of job beats = elim (lookup job beats) [ none ↦ no_beat | some b ↦ b ]

-- `INSERT … ON CONFLICT DO UPDATE`: the update of the row there is, or of the default row.
abbrev pub upsert : ℕ → (Heartbeat → Heartbeat) → Dict Heartbeat → Dict Heartbeat
upsert job f beats = insert job (f (beat_of job beats)) beats

-- `Repo.record_job_attempt`
unfoldable pub record_job_attempt : ℕ → ℕ → Dict Heartbeat → Dict Heartbeat
record_job_attempt job now beats = upsert job (λ b. record b { last_attempt_at = some now }) beats

-- `Repo.record_job_result`: `none` for a success, the error of a failure.
unfoldable pub record_job_result : ℕ → Option Text → ℕ → Dict Heartbeat → Dict Heartbeat
record_job_result job none now beats =
    upsert job
      (λ b. record b { last_success_at = some now; last_error = none; consecutive_failures = 0 })
      beats
record_job_result job (some e) now beats =
    upsert job
      (λ b. record b { last_error = some e; consecutive_failures = b.consecutive_failures + 1 })
      beats

-- How a run of a job goes: the times of its writes, whether the database takes them, and the
-- exception of the job, as `repr` prints it.
pub record Run : Type 0 where
  pub started_at : ℕ
  pub ended_at : ℕ
  pub attempt_written : Bool
  pub result_written : Bool
  pub error : Option Text

abbrev pub cut : Option Text → Option Text
cut none = none
cut (some e) = some (take 500 e)

-- `heartbeat_wrapped`: the exception that goes on to the scheduler, and the heartbeats.
unfoldable pub heartbeat_wrapped : ℕ → Run → Dict Heartbeat → Option Text × Dict Heartbeat
unfolding record_job_attempt record_job_result
heartbeat_wrapped job run beats =
    let attempted =
      if run.attempt_written then record_job_attempt job run.started_at beats else beats in
    (
      run.error,
      if run.result_written
          then record_job_result job (cut run.error) run.ended_at attempted
          else attempted,
    )

-- The age is above a number of intervals; the interval and the factor are whole numbers.
abbrev pub is_older : ℕ → ℕ → ℕ → ℕ → Bool
is_older last now interval factor = ltb (seconds (interval * factor)) (now - last)

-- `interval_state`
unfoldable pub interval_state : Option ℕ → ℕ → ℕ → ℕ → ℕ → JobState
interval_state none now interval degraded_factor offline_factor = unknown
interval_state (some last) now interval degraded_factor offline_factor =
    if is_older last now interval offline_factor
    then offline
    else if is_older last now interval degraded_factor
    then degraded
    else live

-- `trigger.get_next_fire_time(None, prev)`: the first fire from a time on.
abbrev pub Trigger : Type 0
Trigger = ℕ → Option ℕ

-- The loop of `cron_state`, which counts to two: the fires missed from `prev` on.
unfoldable pub missed_fires : ℕ → Trigger → ℕ → ℕ → ℕ
missed_fires zero trigger deadline prev = 0
missed_fires (suc left) trigger deadline prev = elim (trigger prev) [
  | none ↦ 0
  | some fire ↦
      let rest = missed_fires left trigger deadline (fire + seconds 1) in
      if ltb deadline fire then 0 else suc rest
]

abbrev pub state_of_missed : ℕ → JobState
state_of_missed zero = live
state_of_missed (suc zero) = degraded
state_of_missed (suc (suc _)) = offline

-- `cron_state`, with the trigger of the crontab, `none` where the crontab is refused.
unfoldable pub cron_state : Option ℕ → ℕ → Option Trigger → ℕ → JobState
unfolding missed_fires
cron_state none now trigger grace = unknown
cron_state (some last) now none grace = unknown
cron_state (some last) now (some trigger) grace =
    state_of_missed (missed_fires 2 trigger (now - seconds grace) last)

pub data Kind : Type 0 where
  cron : Option Trigger → Kind
  interval : ℕ → Kind

-- An entry of `specs`
pub record Spec : Type 0 where
  pub name : ℕ
  pub kind : Kind
  pub enabled : Bool

pub record HealthSettings : Type 0 where
  pub grace : ℕ
  pub degraded_factor : ℕ
  pub offline_factor : ℕ

pub record JobHealth : Type 0 where
  pub state : JobState
  pub last_success_at : Option ℕ
  pub last_attempt_at : Option ℕ
  pub last_error : Option Text
  pub consecutive_failures : ℕ

abbrev pub is_live : JobState → Bool
is_live live = true
is_live _ = false

abbrev pub stale_state : Kind → HealthSettings → ℕ → Heartbeat → JobState
stale_state (cron trigger) settings now b = cron_state b.last_success_at now trigger settings.grace
stale_state (interval s) settings now b =
    interval_state b.last_success_at now s settings.degraded_factor settings.offline_factor

-- Three failures in a row force a live job to degraded.
unfoldable pub state_for : Kind → HealthSettings → ℕ → Heartbeat → JobState
unfolding cron_state interval_state
state_for kind settings now b =
    let state = stale_state kind settings now b in
    if is_live state && leb 3 b.consecutive_failures then degraded else state

abbrev pub health_of : Spec → HealthSettings → ℕ → Heartbeat → JobHealth
health_of spec settings now b =
    if spec.enabled
    then record {
      state = state_for spec.kind settings now b;
      last_success_at = b.last_success_at;
      last_attempt_at = b.last_attempt_at;
      last_error = b.last_error;
      consecutive_failures = b.consecutive_failures;
    }
    else record {
      state = disabled;
      last_success_at = none;
      last_attempt_at = none;
      last_error = none;
      consecutive_failures = 0;
    }

-- The loop of `job_health`, over the specs
unfoldable pub health_by_spec : Dict Heartbeat → List Spec → HealthSettings → ℕ → Dict JobHealth
unfolding state_for
health_by_spec beats specs settings now =
    map (λ spec. (spec.name, health_of spec settings now (beat_of spec.name beats))) specs

-- The schedule of the settings: a crontab, `none` where it is empty, with the trigger it makes;
-- an interval in seconds or minutes, 0 where the job is off.
pub record Schedule : Type 0 where
  pub digest_cron : Option (Option Trigger)
  pub macro_scan_interval_minutes : ℕ
  pub anomaly_scan_cron : Option (Option Trigger)
  pub delivery_interval_seconds : ℕ
  pub fundamentals_refresh_cron : Option (Option Trigger)
  pub daily_prices_cron : Option (Option Trigger)
  pub news_refresh_cron : Option (Option Trigger)
  pub picks_sync_cron : Option (Option Trigger)
  pub picks_cron : Option (Option Trigger)
  pub forecast_ledger_cron : Option (Option Trigger)
  pub form4_sync_interval_minutes : ℕ
  pub thirteenf_sync_cron : Option (Option Trigger)
  pub congress_trades_sync_cron : Option (Option Trigger)
  pub valuation_refresh_cron : Option (Option Trigger)
  pub trial_notices_cron : Option (Option Trigger)

abbrev cron_spec : ℕ → Option (Option Trigger) → Spec
cron_spec name none = record { name = name; kind = cron none; enabled = false }
cron_spec name (some trigger) = record { name = name; kind = cron trigger; enabled = true }

abbrev interval_spec : ℕ → ℕ → Spec
interval_spec name s = record { name = name; kind = interval s; enabled = ltb 0 s }

-- `specs` of `job_health`: a job's name is its place.
unfoldable pub specs_of : Schedule → List Spec
specs_of s =
    cron_spec 0 s.digest_cron
    ∷ interval_spec 1 (s.macro_scan_interval_minutes * 60)
    ∷ cron_spec 2 s.anomaly_scan_cron
    ∷ interval_spec 3 s.delivery_interval_seconds
    ∷ cron_spec 4 s.fundamentals_refresh_cron
    ∷ cron_spec 5 s.daily_prices_cron
    ∷ cron_spec 6 s.news_refresh_cron
    ∷ cron_spec 7 s.picks_sync_cron
    ∷ cron_spec 8 s.picks_cron
    ∷ cron_spec 9 s.forecast_ledger_cron
    ∷ interval_spec 10 (s.form4_sync_interval_minutes * 60)
    ∷ cron_spec 11 s.thirteenf_sync_cron
    ∷ cron_spec 12 s.congress_trades_sync_cron
    ∷ cron_spec 13 s.valuation_refresh_cron
    ∷ cron_spec 14 s.trial_notices_cron
    ∷ []

-- `job_health`
unfoldable pub job_health : Dict Heartbeat → Schedule → HealthSettings → ℕ → Dict JobHealth
unfolding health_by_spec specs_of
job_health beats schedule settings now = health_by_spec beats (specs_of schedule) settings now
