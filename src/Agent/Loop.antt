-- ===== src/Agent/Loop.antt =====
-- `run_agent` of app/agent/loop.py, with the calls of the API around it. The `while True` takes
-- fuel, a round each; Loop/Ends says how much is enough, and when none is.
mod Steps
pub mod Ends
pub mod Pauses
pub mod Finalize
use personal_portfolio_analy.Prelude.{
  ℕ, zero, suc, ◌+◌, ◌&&◌, Bool, true, false, Option, none, some, List, [], ◌∷◌, String,
  if◌then◌else◌,
}
use personal_portfolio_analy.Budget.{
  record_usage, start_iteration, cost_exceeded, exceeded, round_cost,
}
use personal_portfolio_analy.Agent.Value.{Text}
use personal_portfolio_analy.Agent.Content.{
  Block, content_to_dicts, tool_uses, extract_text, ToolResult, Message, build_initial_messages,
  answered, results, results_and_summary_ask,
}
use personal_portfolio_analy.Agent.World.{
  Env, World, StopReason, end_turn, tool_use, pause_turn, other_reason, Response, StreamEvent,
  delta_text, server_tool_start, unread, Reply, Result, ok, raised, out_of_fuel, Exec, pure, ◌>>=◌,
  ◌>>◌, gets, update_budget, add_message, emit, log_row, finalize_run, persist, run_start, Event,
  text_delta, server_tool, budget_summary, model_call, Status, running, completed, budget_exceeded,
  max_iterations, error, Final, Summary,
}
use personal_portfolio_analy.Agent.Turn.{run_tools}

pub record AgentResult : Type 0 where
  pub answer : Text
  pub status : Status
  pub iterations : ℕ
  pub input_tokens : ℕ
  pub output_tokens : ℕ
  pub cost_usd : ℕ
  pub tool_summaries : List Summary

-- The message at the end of a call, or the exception.
abbrev pub message_of : Option Response → Exec Response
message_of none w = (raised, w)
message_of (some r) w = (ok r, w)

module _ (env : Env) where
  -- The body of the `async for` of `_call_model_streaming`.
  abbrev forward : StreamEvent → Exec (Unit {0})
  forward (delta_text t) = emit env (text_delta t)
  forward (server_tool_start name) = emit env (server_tool name)
  forward unread = pure tt

  unfoldable pub forward_all : List StreamEvent → Exec (Unit {0})
  forward_all [] = pure tt
  forward_all (e ∷ es) = forward e >> forward_all es

  -- `_call_model` or `_call_model_streaming`
  unfoldable pub call_model : Bool → Exec Response
  unfolding forward_all
  call_model with_tools w =
      let reply = env.create w.calls w.messages with_tools in
      let w' = record w { calls = w.calls + 1 } in
      if env.listening && env.streams
      then (forward_all reply.stream >> message_of reply.message) w'
      else message_of reply.message w'

  -- From the answer of the API to its row: usage first, then the log.
  unfoldable pub record_response : ℕ → Response → Exec (List Block)
  record_response iteration response = do
    let blocks = content_to_dicts response.content
    update_budget (record_usage response.input_tokens response.output_tokens)
    log_row env (
        model_call iteration blocks response.stop_reason response.input_tokens
          response.output_tokens)
    add_message (answered blocks)
    pure blocks

  -- `_summary_turn`
  unfoldable pub summary_turn : ℕ → Exec Text
  unfolding call_model record_response
  summary_turn iteration = do
    response ← call_model false
    blocks ← record_response iteration response
    pure (extract_text blocks)

  -- The budget is spent: the tools-off summary.
  unfoldable pub summarize : List ToolResult → Exec (Status × Text)
  unfolding summary_turn
  summarize tool_results = do
    budget ← gets (λ w. w.budget)
    let status = if cost_exceeded budget then budget_exceeded else max_iterations
    emit env budget_summary
    add_message (results_and_summary_ask tool_results)
    answer ← summary_turn (budget.iterations + 1)
    pure (status, answer)

  -- The end of a round whose response asks for tools; `again` is the next round.
  unfoldable pub after_tools : Exec (Status × Text) → ℕ → List Block → Exec (Status × Text)
  unfolding run_tools summarize
  after_tools again iteration blocks = do
    tool_results ← run_tools env iteration (tool_uses blocks)
    budget ← gets (λ w. w.budget)
    if exceeded budget
        then summarize tool_results
        else (add_message (results tool_results) >> again)

  unfoldable pub after_response :
      Exec (Status × Text) → ℕ → StopReason → List Block → Exec (Status × Text)
  unfolding after_tools
  after_response again iteration pause_turn blocks = emit env (server_tool "web_search") >> again
  after_response again iteration tool_use blocks = after_tools again iteration blocks
  after_response again iteration end_turn blocks = pure (completed, extract_text blocks)
  after_response again iteration other_reason blocks = pure (completed, extract_text blocks)

  -- A round, from its `iteration` event on.
  unfoldable pub ask : Exec (Status × Text) → ℕ → Exec (Status × Text)
  unfolding after_response call_model record_response
  ask again iteration = do
    emit env (Event.iteration iteration)
    response ← call_model true
    blocks ← record_response iteration response
    after_response again iteration response.stop_reason blocks

  unfoldable pub round : Exec (Status × Text) → Exec (Status × Text)
  unfolding start_iteration ask
  round again = do
    update_budget start_iteration
    iteration ← gets (λ w. w.budget.iterations)
    ask again iteration

  -- The `while True` of `run_agent`.
  unfoldable pub loop : ℕ → Exec (Status × Text)
  unfolding round
  loop zero w = (out_of_fuel, w)
  loop (suc fuel) w = let again : Exec (Status × Text) = loop fuel in round again w

  unfoldable pub final_of : Status → Option Text → World → Final
  final_of status answer w = record {
    status = status;
    final_answer = answer;
    iterations = w.budget.iterations;
    input_tokens = w.budget.input_tokens;
    output_tokens = w.budget.output_tokens;
    cost_usd = w.budget.cost_usd;
  }

  abbrev pub or_none : Text → Option Text
  or_none [] = none
  or_none (c ∷ t) = some (c ∷ t)

  -- The `except` branch: the run's row, then the exception again.
  unfoldable pub fail_run : {A : Type 0} → Text → Exec A
  unfolding final_of
  fail_run answer w = (raised, (finalize_run env (final_of error (or_none answer) w) w).1)

  unfoldable pub result_of : Status → Text → World → AgentResult
  unfolding round_cost
  result_of status answer w = record {
    answer = answer;
    status = status;
    iterations = w.budget.iterations;
    input_tokens = w.budget.input_tokens;
    output_tokens = w.budget.output_tokens;
    cost_usd = round_cost w.budget.cost_usd;
    tool_summaries = w.summaries;
  }

  -- After the `finalize_run` of the `try` body: the `return`, or the `except` branch.
  unfoldable pub returned_run :
      Status → Text → Result (Unit {0}) → World → Result AgentResult × World
  unfolding fail_run result_of
  returned_run status answer (ok _) w = (ok (result_of status answer w), w)
  returned_run status answer raised w = fail_run answer w
  returned_run status answer out_of_fuel w = (out_of_fuel, w)

  unfoldable pub close_run : Result (Status × Text) → World → Result AgentResult × World
  unfolding final_of returned_run
  close_run (ok (status, answer)) w =
      let (r, w') = finalize_run env (final_of status (some answer) w) w in
      returned_run status answer r w'
  close_run raised w = fail_run [] w
  close_run out_of_fuel w = (out_of_fuel, w)

  unfoldable pub run_loop : ℕ → Exec AgentResult
  unfolding loop close_run
  run_loop fuel w = let (r, w') = loop fuel w in close_run r w'

  -- `run_agent`; the caller gives a run id, or the run's row is made first.
  unfoldable pub run_agent : ℕ → Bool → Text → List Message → Exec AgentResult
  unfolding run_loop
  run_agent fuel has_run_id user_message history = do
    if has_run_id then pure tt else persist env (λ w. w)
    emit env run_start
    (λ w. (ok tt, record w { messages = build_initial_messages user_message history }))
    run_loop fuel
