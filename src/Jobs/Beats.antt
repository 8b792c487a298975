-- ===== src/Jobs/Beats.antt =====
-- The heartbeats after runs of a job.
use personal_portfolio_analy.Prelude.{
  ℕ, suc, ◌+◌, ◌≡◌, refl, ap, ◌∙◌, Bool, true, false, some, List, [], ◌∷◌, arith, All, length,
  if◌then◌else◌, take,
}
use personal_portfolio_analy.Prelude.Dict.{Dict, lookup-insert_self}
use personal_portfolio_analy.Store.{Text}
use personal_portfolio_analy.Jobs.{
  Heartbeat, upsert, beat_of, record_job_attempt, record_job_result, Run, heartbeat_wrapped,
}

beat-upsert :
    (job : ℕ) (f : Heartbeat → Heartbeat) (beats : Dict Heartbeat)
    → beat_of job (upsert job f beats) ≡ f (beat_of job beats)
beat-upsert job f beats = rw (beat_of, lookup-insert_self job (f (beat_of job beats)) beats) refl

attempted-beat :
    (job now : ℕ) (written : Bool) (beats : Dict Heartbeat)
    → let attempted = if written then record_job_attempt job now beats else beats in
      ((beat_of job attempted).consecutive_failures ≡ (beat_of job beats).consecutive_failures)
      × ((beat_of job attempted).last_success_at ≡ (beat_of job beats).last_success_at)
unfolding record_job_attempt
attempted-beat job now true beats =
    let same = beat-upsert job (λ b. record b { last_attempt_at = some now }) beats in
    (ap (λ b. b.consecutive_failures) same, ap (λ b. b.last_success_at) same)
attempted-beat job now false beats = (refl, refl)

result-beat :
    (job : ℕ) (e : Text) (now : ℕ) (beats : Dict Heartbeat)
    → let b = beat_of job (record_job_result job (some e) now beats) in
      (b.consecutive_failures ≡ (beat_of job beats).consecutive_failures + 1)
      × (b.last_success_at ≡ (beat_of job beats).last_success_at)
unfolding record_job_result
result-beat job e now beats =
    let same =
      beat-upsert job
        (λ b. record b { last_error = some e; consecutive_failures = b.consecutive_failures + 1 })
        beats in
    (ap (λ b. b.consecutive_failures) same, ap (λ b. b.last_success_at) same)

-- Runs of one job, from the first to the last.
abbrev pub runs : ℕ → List Run → Dict Heartbeat → Dict Heartbeat
runs job [] beats = beats
runs job (run ∷ later) beats = runs job later (heartbeat_wrapped job run beats).1

-- The run failed, and the database took the result.
abbrev Failed : Run → Type 0
Failed run = (run.result_written ≡ true) × (e : Text) × (run.error ≡ some e)

Failed-beat :
    (job : ℕ) (run : Run) (beats : Dict Heartbeat)
    → Failed run
    → ((beat_of job (heartbeat_wrapped job run beats).1).consecutive_failures
        ≡ suc (beat_of job beats).consecutive_failures)
      × ((beat_of job (heartbeat_wrapped job run beats).1).last_success_at
          ≡ (beat_of job beats).last_success_at)
unfolding heartbeat_wrapped
Failed-beat job run beats (written, e, failed) =
    let attempted = attempted-beat job run.started_at run.attempt_written beats in
    let result =
      result-beat job (take 500 e) run.ended_at
        (if run.attempt_written then record_job_attempt job run.started_at beats else beats) in
    rw (written, failed) (omega (arith, attempted.0, result.0), result.1 ∙ attempted.1)

-- Each run of a job that fails, and whose result is written, counts once, whether its attempt was
-- written or not, and leaves the time of the last success.
pub failures_count :
    (job : ℕ) (all : List Run) (beats : Dict Heartbeat)
    → All Failed all
    → ((beat_of job (runs job all beats)).consecutive_failures
        ≡ length all + (beat_of job beats).consecutive_failures)
      × ((beat_of job (runs job all beats)).last_success_at ≡ (beat_of job beats).last_success_at)
failures_count job [] beats h = (omega arith, refl)
failures_count job (run ∷ later) beats h =
    let first = Failed-beat job run beats h.0 in
    let rest = failures_count job later (heartbeat_wrapped job run beats).1 h.1 in
    (omega (arith, first.0, rest.0), rest.1 ∙ first.1)
