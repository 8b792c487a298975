-- ===== src/Tests/ServiceTests.antt =====
-- The cache of sign-ins, the jobs and the trial notices at concrete inputs.
use personal_portfolio_analy.Prelude.{◌+◌, ◌≡◌, refl, true, false, none, some, [], ◌∷◌, arith}
use personal_portfolio_analy.Store.{Store, days}
use personal_portfolio_analy.Accounts.{new_user}
use personal_portfolio_analy.AuthCache.{Claims, Cache}
use personal_portfolio_analy.Prelude.Dict.{lookup}
use personal_portfolio_analy.Broker.{Broker, Settings, publish}
use personal_portfolio_analy.Broker.Bounds.{publish_records}
use personal_portfolio_analy.Jobs.{Heartbeat, no_beat, HealthSettings, Run, beat_of, Trigger}
use personal_portfolio_analy.Jobs.Beats.{runs, failures_count}
use personal_portfolio_analy.TrialNotices.{Wording, run_trial_notices}
use personal_portfolio_analy.TrialNotices.Once.{always, second_run_idle}

abbrev claims : Claims
claims = record { auth_id = 70; email = none; exp = 3600 }

abbrev cache : Cache
cache = record { user_ids = (70, 7) ∷ []; verified_tokens = (99, claims) ∷ [] }

abbrev failed_run : Run
failed_run = record {
  started_at = 10;
  ended_at = 20;
  attempt_written = false;
  result_written = true;
  error = some (120 ∷ []);
}

failures_count_example :
    ((beat_of 1 (runs 1 (failed_run ∷ failed_run ∷ failed_run ∷ []) [])).consecutive_failures
      ≡ 3 + 0)
    × ((beat_of 1 (runs 1 (failed_run ∷ failed_run ∷ failed_run ∷ []) [])).last_success_at ≡ none)
failures_count_example =
    failures_count 1 (failed_run ∷ failed_run ∷ failed_run ∷ []) []
      ((refl, 120 ∷ [], refl), ((refl, 120 ∷ [], refl), ((refl, 120 ∷ [], refl), tt)))

-- A fire a day.
abbrev daily : Trigger
daily from = some (from + days 1)

abbrev failing_beat : Heartbeat
failing_beat = record no_beat { last_success_at = some 0; consecutive_failures = 3 }

abbrev settings : HealthSettings
settings = record { grace = 3600; degraded_factor = 3; offline_factor = 10 }

abbrev wording : Wording
wording = record {
  subject = λ n. 115 ∷ [];
  body = λ n. 98 ∷ [];
  sms = λ n. 109 ∷ [];
  push_title = 67 ∷ [];
  deep_link = 108 ∷ [];
}

abbrev lapsed_store : Store
lapsed_store = record {
  next_id = 8;
  users = (7, record (new_user 70) { trial_ends_at = some 100 }) ∷ [];
  channels = [];
  devices = [];
  outbound = [];
  codes = [];
  funnel = [];
  stripe_events = [];
  tombstones = [];
}

second_run_idle_example :
    let (scanned, queued, s₁) = run_trial_notices wording always 200 lapsed_store in
    run_trial_notices wording always 200 s₁ ≡ (scanned, 0, s₁)
second_run_idle_example = second_run_idle wording 200 lapsed_store

abbrev broker_settings : Settings
broker_settings = record { replay_size = 2; max_histories = 1 }

-- One run, whose buffer is full.
abbrev broker : Broker
broker = record {
  next_queue = 0;
  subs = [];
  queues = [];
  history = (1, 10 ∷ 11 ∷ []) ∷ [];
  finished = [];
}

publish_records_example :
    (b' : Broker) × (publish broker_settings 1 12 broker ≡ some b')
    × (lookup 1 b'.history ≡ some (11 ∷ 12 ∷ []))
publish_records_example = publish_records broker_settings 0 1 12 broker (omega arith) refl
