-- ===== src/Agent/Dispatch.antt =====
-- `safe_dispatch` of app/agent/loop.py: one tool call, with validation and one retry.
pub mod Outcomes
use personal_portfolio_analy.Prelude.{
  ℕ, zero, suc, ◌+◌, ◌*◌, Bool, Option, none, some, String, leb, if◌then◌else◌,
}
use personal_portfolio_analy.Agent.Value.{Value, Schema, InputError, validate_input}
use personal_portfolio_analy.Agent.Content.{
  Content, output, failure, truncate, unknown_tool, bad_input, failed_after_retry, invalid_input,
  tool_error,
}
use personal_portfolio_analy.Agent.World.{
  Env, World, Result, ok, raised, out_of_fuel, Exec, pure, ◌>>=◌, Outcome, returned, unserializable,
  retryable, value_error, other_error, charge_all,
}

abbrev pub retry_fuel : ℕ
retry_fuel = 8

abbrev pub chars_per_token : ℕ
chars_per_token = 4

module _ (env : Env) where
  -- `await asyncio.wait_for(fn(payload, ctx), timeout=timeout)`
  unfoldable pub run_tool : String → Value → Exec Outcome
  run_tool name payload w =
      let attempt = env.run_tool w.tool_runs name payload in
      (
        ok attempt.outcome,
        record w { budget = charge_all attempt.charges w.budget; tool_runs = w.tool_runs + 1 },
      )

  -- The `while True` of `safe_dispatch`; `retry` is the next round.
  unfoldable pub handle_outcome : String → ℕ → Exec Content → Outcome → Exec Content
  handle_outcome name attempts retry (returned t) w =
      (ok (output (truncate t (env.max_output_tokens * chars_per_token))), w)
  handle_outcome name attempts retry unserializable w = (raised, w)
  handle_outcome name attempts retry retryable w =
      if leb attempts 1 then retry w else (ok (failure (failed_after_retry name)), w)
  handle_outcome name attempts retry (value_error t) w = (ok (failure (invalid_input name t)), w)
  handle_outcome name attempts retry (other_error t) w = (ok (failure (tool_error name t)), w)

  unfoldable pub attempt_from : ℕ → ℕ → String → Value → Exec Content
  unfolding run_tool handle_outcome ◌>>=◌
  attempt_from zero attempts name payload w = (out_of_fuel, w)
  attempt_from (suc fuel) attempts name payload w =
      let retry : Exec Content = attempt_from fuel (attempts + 1) name payload in
      (run_tool name payload >>= handle_outcome name (attempts + 1) retry) w

  abbrev pub input_problem : String → Value → Option InputError
  input_problem name payload = elim (env.schema_of name) [
    | none ↦ none
    | some schema ↦ validate_input schema payload
  ]

  -- `safe_dispatch`, with so many rounds for its loop; Dispatch/Outcomes shows that two are enough.
  unfoldable pub safe_dispatch_within : ℕ → String → Value → Exec Content
  unfolding attempt_from
  safe_dispatch_within fuel name payload w =
      if env.has_tool name
      then elim (input_problem name payload) [
        | some e ↦ (ok (failure (bad_input e)), w)
        | none ↦ attempt_from fuel 0 name payload w
      ]
      else (ok (failure (unknown_tool name)), w)

  unfoldable pub safe_dispatch : String → Value → Exec Content
  unfolding safe_dispatch_within
  safe_dispatch = safe_dispatch_within retry_fuel
