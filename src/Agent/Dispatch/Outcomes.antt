-- ===== src/Agent/Dispatch/Outcomes.antt =====
-- What `safe_dispatch` promises: two rounds of its loop are enough, it runs a tool at most twice,
-- and how it ends is what the last run of the tool says.
use personal_portfolio_analy.Prelude.{
  ℕ, zero, suc, ◌+◌, ◌*◌, ◌≤◌, ◌≡◌, ◌≢◌, refl, ap, ◌∙◌, true, false, none, some, String, arith, inl,
  inr, Bool-cases, Option-cases,
}
use personal_portfolio_analy.Agent.Value.{Text, Value}
use personal_portfolio_analy.Agent.Content.{
  Content, output, failure, truncate, ToolError, unknown_tool, bad_input, failed_after_retry,
  invalid_input, tool_error,
}
use personal_portfolio_analy.Agent.Content.Truncation.{IsTruncation, truncate-IsTruncation}
use personal_portfolio_analy.Agent.World.{
  Env, World, Outcome, returned, unserializable, retryable, value_error, other_error, Result, ok,
  raised, out_of_fuel, Exec,
}
use personal_portfolio_analy.Agent.World.Settles.{Settles, Later, Later-refl, KeepsCaps-charge_all}
use personal_portfolio_analy.Agent.Dispatch.{
  chars_per_token, run_tool, attempt_from, handle_outcome, input_problem, safe_dispatch_within,
  safe_dispatch,
}

-- The last of so many runs of a tool had the outcome.
abbrev pub LastRun : Env → String → Value → ℕ → Outcome → Type 0
LastRun env name payload n o = (m : ℕ) × (suc m ≡ n) × ((env.run_tool m name payload).outcome ≡ o)

-- What an error message says holds.
abbrev pub IsTrue : Env → String → Value → ℕ → ToolError → Type 0
IsTrue env name payload n (unknown_tool k) = (k ≡ name) × (env.has_tool name ≡ false)
IsTrue env name payload n (bad_input e) = input_problem env name payload ≡ some e
IsTrue env name payload n (failed_after_retry k) = (k ≡ name) × LastRun env name payload n retryable
IsTrue env name payload n (invalid_input k t) =
    (k ≡ name) × LastRun env name payload n (value_error t)
IsTrue env name payload n (tool_error k t) = (k ≡ name) × LastRun env name payload n (other_error t)

-- How a call ends after so many runs of tools: with the text of the last run, cut to the cap; with
-- an error that is true; or with an exception, where `json.dumps` refuses the last run's result.
abbrev pub EndsWith : Env → String → Value → ℕ → Result Content → Type 0
EndsWith env name payload n (ok (output t)) =
    (raw : Text) × LastRun env name payload n (returned raw)
    × IsTruncation (env.max_output_tokens * chars_per_token) raw t
EndsWith env name payload n (ok (failure e)) = IsTrue env name payload n e
EndsWith env name payload n raised = LastRun env name payload n unserializable
EndsWith env name payload n out_of_fuel = ⊥

-- A call that runs the tool at most `k` times, and adds no row, message or summary.
pub record Answers (env : Env) (name : String) (payload : Value) (k : ℕ) (w : World)
    (r : Result Content × World) : Type 0 where
  pub ends : EndsWith env name payload r.1.tool_runs r.0
  pub later : Later w r.1
  pub runs : r.1.tool_runs ≤ w.tool_runs + k
  pub rows : r.1.rows ≡ w.rows
  pub messages : r.1.messages ≡ w.messages
  pub summaries : r.1.summaries ≡ w.summaries

module _ (env : Env) (name : String) (payload : Value) where
  answered_at :
      (k : ℕ) (w : World) (r : Result Content)
      → EndsWith env name payload w.tool_runs r
      → Answers env name payload k w (r, w)
  answered_at k w r h = record {
    ends = h;
    later = Later-refl w;
    runs = omega arith;
    rows = refl;
    messages = refl;
    summaries = refl;
  }

  -- Once the retry is spent, every outcome ends the call.
  last_outcome :
      (o : Outcome) (retry : Exec Content) (w : World)
      → LastRun env name payload w.tool_runs o
      → Answers env name payload 0 w (handle_outcome env name 2 retry o w)
  unfolding handle_outcome
  last_outcome (returned t) retry w ran =
      answered_at 0 w (ok (output (truncate t _))) (t, ran, truncate-IsTruncation t _)
  last_outcome unserializable retry w ran = answered_at 0 w raised ran
  last_outcome retryable retry w ran =
      answered_at 0 w (ok (failure (failed_after_retry name))) (refl, ran)
  last_outcome (value_error t) retry w ran =
      answered_at 0 w (ok (failure (invalid_input name t))) (refl, ran)
  last_outcome (other_error t) retry w ran =
      answered_at 0 w (ok (failure (tool_error name t))) (refl, ran)

  first_outcome :
      (o : Outcome) (retry : Exec Content) (w : World)
      → LastRun env name payload w.tool_runs o
      → Answers env name payload 1 w (retry w)
      → Answers env name payload 1 w (handle_outcome env name 1 retry o w)
  unfolding handle_outcome
  first_outcome (returned t) retry w ran h =
      answered_at 1 w (ok (output (truncate t _))) (t, ran, truncate-IsTruncation t _)
  first_outcome unserializable retry w ran h = answered_at 1 w raised ran
  first_outcome retryable retry w ran h = h
  first_outcome (value_error t) retry w ran h =
      answered_at 1 w (ok (failure (invalid_input name t))) (refl, ran)
  first_outcome (other_error t) retry w ran h =
      answered_at 1 w (ok (failure (tool_error name t))) (refl, ran)

  after_run :
      (k : ℕ) (w : World) (r : Result Content × World)
      → Answers env name payload k (run_tool env name payload w).1 r
      → Answers env name payload (k + 1) w r
  unfolding run_tool
  after_run k w r a =
      let attempt = env.run_tool w.tool_runs name payload in
      let later = a.later in
      let runs = a.runs in
      let paid = KeepsCaps-charge_all attempt.charges w.budget in
      record {
        ends = a.ends;
        later = ground arith;
        runs = omega arith;
        rows = a.rows;
        messages = a.messages;
        summaries = a.summaries;
      }

  just_ran :
      (w : World)
      → LastRun env name payload
          (run_tool env name payload w).1.tool_runs
          (env.run_tool w.tool_runs name payload).outcome
  unfolding run_tool
  just_ran w = (w.tool_runs, omega arith, refl)

  attempt_from-Answers :
      (fuel : ℕ) (w : World)
      → Answers env name payload 2 w (attempt_from env (suc (suc fuel)) 0 name payload w)
  unfolding attempt_from run_tool
  attempt_from-Answers fuel w =
      let outcome = (env.run_tool w.tool_runs name payload).outcome in
      let w' = (run_tool env name payload w).1 in
      let outcome' = (env.run_tool w'.tool_runs name payload).outcome in
      let w'' = (run_tool env name payload w').1 in
      after_run 1 w _ (
        first_outcome outcome (attempt_from env (suc fuel) 1 name payload) w' (just_ran w) (
          after_run 0 w' _
            (last_outcome outcome' (attempt_from env fuel 2 name payload) w'' (just_ran w'))))

  dispatch-Answers :
      (fuel : ℕ) (w : World)
      → Answers env name payload 2 w (safe_dispatch_within env (suc (suc fuel)) name payload w)
  unfolding safe_dispatch_within
  dispatch-Answers fuel w = elim (Bool-cases (env.has_tool name)) [
    | inr unknown ↦ rw unknown (answered_at 2 w (ok (failure (unknown_tool name))) (refl, unknown))
    | inl known ↦ elim (Option-cases (input_problem env name payload)) [
      | inl fine ↦ rw (known, fine) (attempt_from-Answers fuel w)
      | inr (e, bad) ↦ rw (known, bad) (answered_at 2 w (ok (failure (bad_input e))) bad)
    ]
  ]

  -- The dispatch of a call ends, after two runs of the tool at most and with no row, message or
  -- summary added: with the text that the last run returned, cut to the cap, the number of
  -- characters cut off beside it; with an error that is true of the call or of the last run; or
  -- with an exception, only where the last run returned what `json.dumps` refuses.
  pub safe_dispatch-Answers :
      (w : World) → Answers env name payload 2 w (safe_dispatch env name payload w)
  unfolding safe_dispatch
  safe_dispatch-Answers w = dispatch-Answers 6 w

  EndsWith-ends : (n : ℕ) (r : Result Content) → EndsWith env name payload n r → r ≢ out_of_fuel
  EndsWith-ends n (ok c) h e = cc
  EndsWith-ends n raised h e = cc
  EndsWith-ends n out_of_fuel h e = h

  pub safe_dispatch-Settles : Settles (safe_dispatch env name payload)
  safe_dispatch-Settles = record {
    ends = λ w. EndsWith-ends _ _ (safe_dispatch-Answers w).ends;
    later = λ w. (safe_dispatch-Answers w).later;
  }

  -- An outcome that is no timeout or lost connection ends the call where it is.
  settled :
      (n : ℕ) (o : Outcome) (retry : Exec Content) (w : World)
      → o ≢ retryable
      → (handle_outcome env name n retry o w).1 ≡ w
  unfolding handle_outcome
  settled n (returned t) retry w other = refl
  settled n unserializable retry w other = refl
  settled n retryable retry w other = absurd (other refl)
  settled n (value_error t) retry w other = refl
  settled n (other_error t) retry w other = refl

  given_up :
      (o : Outcome) (retry : Exec Content) (w : World) → (handle_outcome env name 2 retry o w).1 ≡ w
  unfolding handle_outcome
  given_up (returned t) retry w = refl
  given_up unserializable retry w = refl
  given_up retryable retry w = refl
  given_up (value_error t) retry w = refl
  given_up (other_error t) retry w = refl

  -- Whatever rounds the loop of the dispatch is given, from two on, it ends; and a known tool with
  -- a valid input is run twice if its first run ended in a timeout or a lost connection, and once
  -- if it did not.
  pub safe_dispatch_retries :
      (fuel : ℕ) (w : World)
      → 2 ≤ fuel
      → env.has_tool name ≡ true
      → input_problem env name payload ≡ none
      → let (r, w') = safe_dispatch_within env fuel name payload w in
        let first = (env.run_tool w.tool_runs name payload).outcome in
        (r ≢ out_of_fuel)
        × (first ≡ retryable → w'.tool_runs ≡ w.tool_runs + 2)
        × (first ≢ retryable → w'.tool_runs ≡ w.tool_runs + 1)
  unfolding safe_dispatch_within attempt_from run_tool handle_outcome
  safe_dispatch_retries zero w two known fine = absurd (omega (arith, two))
  safe_dispatch_retries (suc zero) w two known fine = absurd (omega (arith, two))
  safe_dispatch_retries (suc (suc fuel)) w two known fine = (
    EndsWith-ends _ _ (dispatch-Answers fuel w).ends,
    (λ e.
        rw (known, fine, e)
          (let w' = (run_tool env name payload w).1 in
            let o = (env.run_tool w'.tool_runs name payload).outcome in
            let w'' = (run_tool env name payload w').1 in
            let stays = given_up o (attempt_from env fuel 2 name payload) w'' in
            ap (λ v. v.tool_runs) stays ∙ omega arith)),
    (λ other.
        let w' = (run_tool env name payload w).1 in
        let o = (env.run_tool w.tool_runs name payload).outcome in
        rw (known, fine)
          (ap (λ v. v.tool_runs)
            (settled 1 o (attempt_from env (suc fuel) 1 name payload) w' other))),
  )
