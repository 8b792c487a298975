-- ===== src/Agent/Loop/Finalize.antt =====
-- The end of a run: its row is written once, with what the run has used.
use personal_portfolio_analy.Prelude.{
  ℕ, zero, suc, ◌+◌, ◌≤◌, ◌≡◌, refl, ap, Bool, true, false, none, some, List, [], ◌∷◌, ◌++◌, arith,
  if◌then◌else◌,
}
use personal_portfolio_analy.Budget.{start_iteration, exceeded, round_cost}
use personal_portfolio_analy.Agent.Value.{Text}
use personal_portfolio_analy.Agent.Content.{Block, tool_uses}
use personal_portfolio_analy.Agent.World.{
  Env, World, StopReason, end_turn, tool_use, pause_turn, other_reason, Result, ok, raised,
  out_of_fuel, Exec, then_do, ◌>>=◌, update_budget, finalize_run, Status, Final, error,
}
use personal_portfolio_analy.Agent.World.Settles.{
  Settles, Settles-emit, Settles-add_message, Settles-gets, Settles-pure,
}
use personal_portfolio_analy.Agent.World.Returns.{Works}
use personal_portfolio_analy.Agent.Turn.Answers.{run_tools-Settles}
use personal_portfolio_analy.Agent.Loop.{
  AgentResult, after_tools, after_response, ask, round, loop, run_loop, close_run, final_of,
  fail_run, returned_run, result_of,
}
use personal_portfolio_analy.Agent.Loop.Steps.{
  call_model-Settles, record_response-Settles, summarize-Settles,
}

-- Across rounds: the final row is not written, and what the run has used only grows.
record Grown (a b : World) : Type 0 where
  finals : b.finals ≡ a.finals
  iterations : a.budget.iterations ≤ b.budget.iterations
  cost_usd : a.budget.cost_usd ≤ b.budget.cost_usd

abbrev Grows : {A : Type 0} → Exec A → Type 0
Grows m = (w : World) → Grown w (m w).1

Grown-trans : (a b c : World) → Grown a b → Grown b c → Grown a c
Grown-trans a b c h k = ground arith

Grows-Settles : {A : Type 0} (m : Exec A) → Settles m → Grows m
Grows-Settles m h w = let l = h.later w in let c = l.caps in ground arith

Grows-bind :
    {A B : Type 0} (m : Exec A) (f : A → Exec B)
    → Grows m
    → ((a : A) → Grows (f a))
    → Grows (m >>= f)
unfolding ◌>>=◌
Grows-bind {A} {B} m f h k w = Grown-trans w (m w).1 _ (h w) (go (m w).0 (m w).1)
  where
    go : (r : Result A) (w : World) → Grown w (then_do r f w).1
    go (ok a) w = k a w
    go raised w = ground arith
    go out_of_fuel w = ground arith

Grows-if : {A : Type 0} (b : Bool) (m n : Exec A) → Grows m → Grows n → Grows (if b then m else n)
Grows-if true m n h k = h
Grows-if false m n h k = k

module _ (env : Env) where
  after_response-Grows :
      (again : Exec (Status × Text)) (i : ℕ) (stop : StopReason) (blocks : List Block)
      → Grows again
      → Grows (after_response env again i stop blocks)
  unfolding after_response after_tools
  after_response-Grows again i pause_turn blocks h =
      Grows-bind _ _ (Grows-Settles _ (Settles-emit env _)) (λ _. h)
  after_response-Grows again i tool_use blocks h =
      Grows-bind _ _ (Grows-Settles _ (run_tools-Settles env i (tool_uses blocks))) (λ rs.
        Grows-bind _ _ (Grows-Settles _ (Settles-gets _)) (λ b.
          Grows-if (exceeded b) _ _ (Grows-Settles _ (summarize-Settles env rs))
            (Grows-bind _ _ (Grows-Settles _ (Settles-add_message _)) (λ _. h))))
  after_response-Grows again i end_turn blocks h = Grows-Settles _ (Settles-pure _)
  after_response-Grows again i other_reason blocks h = Grows-Settles _ (Settles-pure _)

  start-Grows : Grows (update_budget start_iteration)
  unfolding update_budget start_iteration
  start-Grows w = ground arith

  loop-Grows : (fuel : ℕ) → Grows (loop env fuel)
  unfolding loop round ask
  loop-Grows zero w = ground arith
  loop-Grows (suc f) w =
      Grows-bind _ _ start-Grows
        (λ _. Grows-bind _ _ (Grows-Settles _ (Settles-gets _)) (λ i.
          Grows-bind _ _ (Grows-Settles _ (Settles-emit env _)) (λ _.
            Grows-bind _ _ (Grows-Settles _ (call_model-Settles env true)) (λ r.
              Grows-bind _ _ (Grows-Settles _ (record_response-Settles env i r)) (λ blocks.
                after_response-Grows (loop env f) i r.stop_reason blocks (loop-Grows f))))))
        w

round_cost-near : (usd : ℕ) → (round_cost usd ≤ usd + 50) × (usd ≤ round_cost usd + 50)
unfolding round_cost
round_cost-near usd = (ground arith, ground arith)

-- How a run is closed: a result comes with one final row that says the same, but for the cost, which
-- the result has rounded to 100 units; an exception comes with one final row of status "error",
-- with no answer.
abbrev pub Closed : World → Result AgentResult × World → Type 0
Closed w (ok result, w') =
    (w'.finals
      ≡ w.finals
        ++ record {
          status = result.status;
          final_answer = some result.answer;
          iterations = result.iterations;
          input_tokens = result.input_tokens;
          output_tokens = result.output_tokens;
          cost_usd = w'.budget.cost_usd;
        }
          ∷ [])
    × (w.budget.iterations ≤ result.iterations)
    × (w.budget.cost_usd ≤ w'.budget.cost_usd)
    × (result.cost_usd ≤ w'.budget.cost_usd + 50)
    × (w'.budget.cost_usd ≤ result.cost_usd + 50)
Closed w (raised, w') =
    (f : Final) × (w'.finals ≡ w.finals ++ f ∷ [])
    × (f.status ≡ error)
    × (f.final_answer ≡ none)
    × (w.budget.cost_usd ≤ f.cost_usd)
Closed w (out_of_fuel, w') = w'.finals ≡ w.finals

module _ (env : Env) (works : Works env) where
  close_run-Closed :
      (w w' : World) (r : Result (Status × Text)) → Grown w w' → Closed w (close_run env r w')
  unfolding close_run returned_run result_of fail_run final_of finalize_run
  close_run-Closed w w' (ok (status, answer)) g =
      let near = round_cost-near w'.budget.cost_usd in
      rw (works w'.writes) (
        ap (λ fs. fs ++ final_of env status (some answer) w' ∷ []) g.finals,
        g.iterations,
        g.cost_usd,
        near.0,
        near.1,
      )
  close_run-Closed w w' raised g =
      rw (works w'.writes) (final_of env error none w', ground arith, refl, refl, ground arith)
  close_run-Closed w w' out_of_fuel g = g.finals

  -- With a database that works, a run that returns has written exactly one final row, which says
  -- what the result says, but holds the exact cost, from which that of the result is at most half
  -- a millionth of a dollar away; one that raises has written exactly one, of status "error" and without
  -- an answer; one that has not ended within the fuel has written none. The cost of the final row is
  -- no less than before the run, and so are the iterations of a run that returns.
  pub run_loop-Closed : (fuel : ℕ) (w : World) → Closed w (run_loop env fuel w)
  unfolding run_loop
  run_loop-Closed fuel w = close_run-Closed w _ _ (loop-Grows env fuel w)
