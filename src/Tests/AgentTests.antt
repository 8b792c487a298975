-- ===== src/Tests/AgentTests.antt =====
-- Runs of the agent at concrete inputs: an API that answers, one that always pauses, and a tool
-- that times out once.
use personal_portfolio_analy.Prelude.{
  ℕ, zero, suc, ◌+◌, ◌≤◌, ◌≡◌, ◌≢◌, refl, Bool, true, false, none, some, List, [], ◌∷◌, arith,
}
use personal_portfolio_analy.Budget.{init}
use personal_portfolio_analy.Agent.Value.{null, object, field, end, array, cons, nil, text, integer}
use personal_portfolio_analy.Agent.Content.{or_object, raw_text, Message, ToolUse}
use personal_portfolio_analy.Agent.World.{
  Env, World, Response, StopReason, end_turn, pause_turn, Outcome, returned, retryable, out_of_fuel,
  raised,
}
use personal_portfolio_analy.Agent.World.Returns.{Returns}
use personal_portfolio_analy.Agent.Dispatch.{safe_dispatch, safe_dispatch_within}
use personal_portfolio_analy.Agent.Dispatch.Outcomes.{
  Answers, safe_dispatch-Answers, safe_dispatch_retries,
}
use personal_portfolio_analy.Agent.Turn.{run_tools, input_summary}
use personal_portfolio_analy.Agent.Turn.Answers.{
  TurnDone, Serializes, IsReadable, run_tools_returns, unreadable_call_raises,
}
use personal_portfolio_analy.Agent.Loop.{loop, run_loop}
use personal_portfolio_analy.Agent.Loop.Ends.{loop_ends}
use personal_portfolio_analy.Agent.Loop.Pauses.{loop_never_ends}
use personal_portfolio_analy.Agent.Loop.Finalize.{Closed, run_loop-Closed}

abbrev answer : StopReason → Response
answer reason = record {
  content = raw_text (some (104 ∷ 105 ∷ [])) ∷ [];
  stop_reason = reason;
  input_tokens = 10;
  output_tokens = 5;
}

-- The first run of a tool times out, the others return.
abbrev first_times_out : ℕ → Outcome
first_times_out zero = retryable
first_times_out (suc _) = returned (111 ∷ 107 ∷ [])

abbrev env_with : StopReason → Env
env_with reason = record {
  create = λ n ms b. record { stream = []; message = some (answer reason) };
  run_tool = λ n name v. record { charges = []; outcome = first_times_out n };
  has_tool = λ name. true;
  str = λ v. [];
  schema_of = λ name. none;
  persists = λ n. true;
  listening = false;
  streams = false;
  max_output_tokens = 100;
}

abbrev no_tools : Env
no_tools = record (env_with end_turn) { has_tool = λ name. false }

abbrev new_world : World
new_world = record {
  budget = init 3 100000000 "claude-sonnet-4-6";
  messages = [];
  summaries = [];
  events = [];
  rows = [];
  finals = [];
  calls = 0;
  tool_runs = 0;
  writes = 0;
}

abbrev one_call : ToolUse
one_call = record { id = 1; name = "get_quote"; input = null }

safe_dispatch-Answers_example :
    Answers
      (env_with end_turn)
      "get_quote"
      null
      2
      new_world
      (safe_dispatch (env_with end_turn) "get_quote" null new_world)
safe_dispatch-Answers_example = safe_dispatch-Answers (env_with end_turn) "get_quote" null new_world

safe_dispatch_retries_example :
    let (r, w') = safe_dispatch_within (env_with end_turn) 3 "get_quote" null new_world in
    (r ≢ out_of_fuel)
    × (first_times_out 0 ≡ retryable → w'.tool_runs ≡ 0 + 2)
    × (first_times_out 0 ≢ retryable → w'.tool_runs ≡ 0 + 1)
safe_dispatch_retries_example =
    safe_dispatch_retries (env_with end_turn) "get_quote" null 3 new_world (omega arith) refl refl

serializes : Serializes (env_with end_turn)
serializes zero name payload e = ground (arith, e)
serializes (suc n) name payload e = ground (arith, e)

readable : IsReadable (env_with end_turn) one_call
unfolding input_summary or_object
readable = (record { kept = []; cut = none }, refl)

run_tools_returns_example :
    Returns
      (run_tools (env_with end_turn) 1 (one_call ∷ one_call ∷ []))
      new_world
      (TurnDone (one_call ∷ one_call ∷ []) new_world)
run_tools_returns_example =
    run_tools_returns (env_with end_turn) (λ n. refl) serializes 1 (one_call ∷ one_call ∷ [])
      new_world (readable, (readable, tt))

-- A list of tickers with a number in it
abbrev odd_call : ToolUse
odd_call = record one_call {
  input = object (field "tickers" (array (cons (text (65 ∷ [])) (cons (integer 1) nil))) end);
}

unreadable_call_raises_example :
    (run_tools (env_with end_turn) 1 (one_call ∷ odd_call ∷ []) new_world).0 ≡ raised
unfolding input_summary or_object
unreadable_call_raises_example =
    unreadable_call_raises (env_with end_turn) 1 (one_call ∷ []) [] odd_call new_world refl

end_turn≢pause_turn : end_turn ≢ pause_turn
end_turn≢pause_turn e = ground (arith, e)

answers_calmly :
    (n : ℕ) (ms : List Message) (b : Bool) (r : Response)
    → 0 ≤ n
    → ((env_with end_turn).create n ms b).message ≡ some r
    → r.stop_reason ≢ pause_turn
answers_calmly n ms b r from e = ground (arith, e)

loop_ends_example : (loop (env_with end_turn) 4 new_world).0 ≢ out_of_fuel
unfolding init
loop_ends_example =
    loop_ends (env_with end_turn) 0 4 new_world answers_calmly (omega arith) (omega arith)
      (omega arith)

loop_never_ends_example :
    ((loop (env_with pause_turn) 50 new_world).0 ≡ out_of_fuel)
    × ((loop (env_with pause_turn) 50 new_world).1.budget.iterations
        ≡ new_world.budget.iterations + 50)
loop_never_ends_example =
    loop_never_ends (env_with pause_turn) (λ n. refl) (λ n ms b. (answer pause_turn, refl, refl)) 50
      new_world

run_loop-Closed_example : Closed new_world (run_loop (env_with end_turn) 4 new_world)
run_loop-Closed_example = run_loop-Closed (env_with end_turn) (λ n. refl) 4 new_world
