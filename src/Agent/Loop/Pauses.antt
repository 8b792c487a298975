-- ===== src/Agent/Loop/Pauses.antt =====
-- A response that stops with "pause_turn" is not held by the caps of the budget.
use personal_portfolio_analy.Prelude.{
  ℕ, zero, suc, ◌+◌, ◌≡◌, refl, ◌∙◌, ◌&&◌, Bool, true, some, List, [], ◌∷◌, arith, inl, inr,
  Bool-cases,
}
use personal_portfolio_analy.Budget.{start_iteration}
use personal_portfolio_analy.Agent.Value.{Text}
use personal_portfolio_analy.Agent.Content.{Block, Message, content_to_dicts}
use personal_portfolio_analy.Agent.World.{
  Env, World, Event, StopReason, pause_turn, Response, StreamEvent, delta_text, server_tool_start,
  unread, ok, out_of_fuel, Exec, ◌>>=◌, server_tool, update_budget, gets, emit, log_row, Status,
}
use personal_portfolio_analy.Agent.World.Settles.{Settles-emit}
use personal_portfolio_analy.Agent.World.Returns.{Works}
use personal_portfolio_analy.Agent.Loop.{
  forward_all, call_model, record_response, after_response, ask, round, loop,
}
use personal_portfolio_analy.Agent.Loop.Steps.{call_model-Settles, record_response-Settles}

bind-at :
    {A B : Type 0} (m : Exec A) (f : A → Exec B) (w : World) (a : A)
    → (m w).0 ≡ ok a
    → (m >>= f) w ≡ f a (m w).1
unfolding ◌>>=◌
bind-at m f w a e = rw e

module _ (env : Env) where
  forward_all-ok : (es : List StreamEvent) (w : World) → (forward_all env es w).0 ≡ ok tt
  unfolding forward_all ◌>>=◌ emit
  forward_all-ok [] w = refl
  forward_all-ok (delta_text t ∷ es) w = forward_all-ok es _
  forward_all-ok (server_tool_start t ∷ es) w = forward_all-ok es _
  forward_all-ok (unread ∷ es) w = forward_all-ok es w

  call_model-ok :
      (with_tools : Bool) (w : World) (r : Response)
      → (env.create w.calls w.messages with_tools).message ≡ some r
      → (call_model env with_tools w).0 ≡ ok r
  unfolding call_model
  call_model-ok with_tools w r e = elim (Bool-cases (env.listening && env.streams)) [
    | inl streaming ↦
        let reply = env.create w.calls w.messages with_tools in
        let w' : World = record w { calls = w.calls + 1 } in
        rw (
          streaming,
          bind-at (forward_all env reply.stream) _ w' tt (forward_all-ok reply.stream w'),
          e,
        )
    | inr plain ↦ rw (plain, e)
  ]

  record_response-ok :
      (i : ℕ) (r : Response) (w : World)
      → Works env
      → (record_response env i r w).0 ≡ ok (content_to_dicts r.content)
  unfolding record_response ◌>>=◌ log_row
  record_response-ok i r w works = rw (works w.writes)

-- Every answer of the API stops with "pause_turn".
abbrev pub AlwaysPauses : Env → Type 0
AlwaysPauses env =
    (n : ℕ) (ms : List Message) (b : Bool)
    → (r : Response) × ((env.create n ms b).message ≡ some r) × (r.stop_reason ≡ pause_turn)

module _ (env : Env) (works : Works env) (pauses : AlwaysPauses env) where
  paused_step :
      (again : Exec (Status × Text)) (i : ℕ) (stop : StopReason) (blocks : List Block) (w : World)
      → stop ≡ pause_turn
      → after_response env again i stop blocks w ≡ again (emit env (server_tool "web_search") w).1
  unfolding after_response
  paused_step again i stop blocks w paused =
      rw paused (bind-at (emit env (server_tool "web_search")) _ w tt (unfold emit in refl))

  -- A paused round is the next round in a later world.
  ask-again :
      (again : Exec (Status × Text)) (i : ℕ) (w : World)
      → (w' : World) × (ask env again i w ≡ again w') × (w'.budget.iterations ≡ w.budget.iterations)
  unfolding ask
  ask-again again i w =
      let w₁ = (emit env (Event.iteration i) w).1 in
      let (r, answers, paused) = pauses w₁.calls w₁.messages true in
      let w₂ = (call_model env true w₁).1 in
      let w₃ = (record_response env i r w₂).1 in
      let w₄ = (emit env (server_tool "web_search") w₃).1 in
      let l₁ = (Settles-emit env (Event.iteration i)).later w in
      let l₂ = (call_model-Settles env true).later w₁ in
      let l₃ = (record_response-Settles env i r).later w₂ in
      let l₄ = (Settles-emit env (server_tool "web_search")).later w₃ in
      let c₁ = l₁.caps in
      let c₂ = l₂.caps in
      let c₃ = l₃.caps in
      let c₄ = l₄.caps in
      (
        w₄,
        bind-at (emit env (Event.iteration i)) _ w tt (unfold emit in refl)
            ∙ bind-at (call_model env true) _ w₁ r (call_model-ok env true w₁ r answers)
            ∙ bind-at (record_response env i r) _ w₂ _ (record_response-ok env i r w₂ works)
            ∙ paused_step again i r.stop_reason (content_to_dicts r.content) w₃ paused,
        c₄.iterations ∙ c₃.iterations ∙ c₂.iterations ∙ c₁.iterations,
      )

  -- If the API always pauses and the database works, then after any number of rounds the loop has
  -- not ended, and has counted every one of them: neither the iteration cap nor the cost cap stops it.
  pub loop_never_ends :
      (fuel : ℕ) (w : World)
      → ((loop env fuel w).0 ≡ out_of_fuel)
        × ((loop env fuel w).1.budget.iterations ≡ w.budget.iterations + fuel)
  unfolding loop round start_iteration update_budget gets ◌>>=◌
  loop_never_ends zero w = (refl, omega arith)
  loop_never_ends (suc f) w =
      let w₁ : World = record w { budget = start_iteration w.budget } in
      let (w', same, count) = ask-again (loop env f) (w.budget.iterations + 1) w₁ in
      let rest = loop_never_ends f w' in rw same (rest.0, omega arith)
