-- ===== src/Agent/Loop/Ends.antt =====
-- When the `while True` of `run_agent` ends. The iteration and cost caps are read only after a
-- tool turn; a response that stops with "pause_turn" goes on to the next round without them.
use personal_portfolio_analy.Prelude.{
  ℕ, zero, suc, ◌+◌, ◌≤◌, ◌<◌, ◌≡◌, refl, ◌≢◌, Bool, true, some, List, arith, inl, inr, Bool-cases,
  if◌then◌else◌,
}
use personal_portfolio_analy.Budget.{start_iteration, exceeded}
use personal_portfolio_analy.Agent.Value.{Text}
use personal_portfolio_analy.Agent.Content.{Block, Message, ToolResult, results, tool_uses}
use personal_portfolio_analy.Agent.World.{
  Env, World, Event, StopReason, end_turn, tool_use, pause_turn, other_reason, Response,
  out_of_fuel, Exec, ◌>>=◌, ◌>>◌, gets, add_message, server_tool, update_budget, emit, Status,
}
use personal_portfolio_analy.Agent.World.Settles.{
  Settles-emit, Settles-pure, Settles-add_message, Later,
}
use personal_portfolio_analy.Agent.Turn.Answers.{run_tools-Settles}
use personal_portfolio_analy.Agent.Loop.Steps.{
  call_model-Called, record_response-Settles, summarize-Settles, ends-bind,
}
use native.Mathlib.Decide.{dec_le}
use personal_portfolio_analy.Agent.Loop.{
  call_model, summarize, after_tools, after_response, ask, round, loop,
}

module _ (env : Env) where
  module _ (p : ℕ) where
    -- The rounds that are left to the cap and to the last pause.
    record Room (f : ℕ) (w : World) : Type 0 where
      to_cap : w.budget.max_iterations ≤ w.budget.iterations + f
      to_calm : p < w.calls + f

    Room-Later : (f : ℕ) (w w' : World) → Room f w → Later w w' → Room f w'
    Room-Later f w w' h l = let c = l.caps in ground arith

    module _ (f : ℕ) (again : Exec (Status × Text))
        (next : (w : World) → 0 < f → Room f w → (again w).0 ≢ out_of_fuel) where
      -- After the tools: the summary ends, and so does the next round, which the cap leaves.
      turn_end-ends :
          (rs : List ToolResult) (w : World)
          → Room f w
          → ((if exceeded w.budget then summarize env rs else (add_message (results rs) >> again))
              w).0
            ≢ out_of_fuel
      turn_end-ends rs w room = elim (Bool-cases (exceeded w.budget)) [
        | inl over ↦ rw over ((summarize-Settles env rs).ends w)
        | inr under ↦
            let a = Settles-add_message (results rs) in
            rw under (
              ends-bind env _ _ w (a.ends w)
                λ _ _. next _ (ground arith) (Room-Later f w _ room (a.later w)))
      ]

      after_tools-ends :
          (i : ℕ) (blocks : List Block) (w : World)
          → Room f w
          → (after_tools env again i blocks w).0 ≢ out_of_fuel
      unfolding after_tools
      after_tools-ends i blocks w room =
          let turn = run_tools-Settles env i (tool_uses blocks) in
          ends-bind env _ _ w (turn.ends w)
            λ rs _. unfold ◌>>=◌ in turn_end-ends rs _ (Room-Later f w _ room (turn.later w))

      after_response-ends :
          (i : ℕ) (stop : StopReason) (blocks : List Block) (w : World)
          → Room f w
          → (stop ≡ pause_turn → 0 < f)
          → (after_response env again i stop blocks w).0 ≢ out_of_fuel
      unfolding after_response
      after_response-ends i pause_turn blocks w room more =
          let e = Settles-emit env (server_tool "web_search") in
          ends-bind env _ _ w (e.ends w)
            λ _ _. next _ (more refl) (Room-Later f w _ room (e.later w))
      after_response-ends i tool_use blocks w room more = after_tools-ends i blocks w room
      after_response-ends i end_turn blocks w room more = (Settles-pure _).ends w
      after_response-ends i other_reason blocks w room more = (Settles-pure _).ends w

    module _
        (calm : (n : ℕ) (ms : List Message) (b : Bool) (r : Response)
          → p ≤ n
          → (env.create n ms b).message ≡ some r
          → r.stop_reason ≢ pause_turn) where
      ask-ends :
          (f i : ℕ) (w : World)
          → ((w : World) → 0 < f → Room f w → (loop env f w).0 ≢ out_of_fuel)
          → w.budget.max_iterations ≤ w.budget.iterations + f
          → p ≤ w.calls + f
          → (ask env (loop env f) i w).0 ≢ out_of_fuel
      unfolding ask
      ask-ends f i w next to_cap to_calm =
          let s = Settles-emit env (Event.iteration i) in
          let w₁ = (emit env (Event.iteration i) w).1 in
          let w₂ = (call_model env true w₁).1 in
          let called = call_model-Called env true w₁ in
          ends-bind env _ _ w (s.ends w) λ _ _. ends-bind env _ _ w₁ called.ends λ r e.
            let logged = record_response-Settles env i r in
            ends-bind env _ _ w₂ (logged.ends w₂) λ blocks _.
              let l = s.later w in
              let l₁ = called.caps in
              let l₂ = logged.later w₂ in
              let c = l.caps in
              let c₁ = l₁.caps in
              let c₂ = l₂.caps in
              let n = called.counted in
              let calm_now = calm w₁.calls w₁.messages true r in
              after_response-ends f (loop env f) next i r.stop_reason blocks _
                (record { to_cap = omega arith; to_calm = omega arith })
                (λ paused. elim (dec_le p w₁.calls) [
                  | yes late ↦ absurd (calm_now late (called.answer r e) paused)
                  | no early ↦ omega arith
                ])

      -- A round goes on to the next one only with fuel left: after a pause below `p`, or below the
      -- cap.
      loop-ends :
          (fuel : ℕ) (w : World) → 0 < fuel → Room fuel w → (loop env fuel w).0 ≢ out_of_fuel
      unfolding loop round start_iteration update_budget gets ◌>>=◌
      loop-ends zero w pos room = absurd (omega arith)
      loop-ends (suc f) w pos room =
          ask-ends f (w.budget.iterations + 1) _ (loop-ends f) (ground arith) (ground arith)

-- If the API answers no call from the p-th on with "pause_turn", the loop has ended after as many
-- rounds as the cap and p together allow, whatever the tools and the database do.
pub loop_ends :
    (env : Env) (p fuel : ℕ) (w : World)
    → ((n : ℕ) (ms : List Message) (b : Bool) (r : Response)
        → p ≤ n
        → (env.create n ms b).message ≡ some r
        → r.stop_reason ≢ pause_turn)
    → 0 < fuel
    → w.budget.max_iterations ≤ w.budget.iterations + fuel
    → p < w.calls + fuel
    → (loop env fuel w).0 ≢ out_of_fuel
loop_ends env p fuel w calm pos to_cap to_calm =
    loop-ends env p calm fuel w pos (record { to_cap = to_cap; to_calm = to_calm })
