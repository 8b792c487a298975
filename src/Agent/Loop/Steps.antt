-- ===== src/Agent/Loop/Steps.antt =====
-- The steps of a round end, keep the iteration count and its cap, and count the calls of the API.
use personal_portfolio_analy.Prelude.{
  ℕ, ◌+◌, ◌≤◌, ◌≡◌, refl, ◌≢◌, Bool, ◌&&◌, Option, none, some, List, [], ◌∷◌, arith, inl, inr,
  Bool-cases,
}
use personal_portfolio_analy.Agent.Content.{ToolResult}
use personal_portfolio_analy.Agent.World.{
  Env, World, Response, StreamEvent, delta_text, server_tool_start, unread, Result, ok, raised,
  out_of_fuel, Exec, pure, then_do, ◌>>=◌, ◌>>◌,
}
use personal_portfolio_analy.Agent.World.Settles.{
  Settles, Settles-bind, Settles-emit, Settles-pure, Later, Later-refl, settles_rules,
}
use personal_portfolio_analy.Agent.Loop.{
  message_of, forward_all, call_model, record_response, summary_turn, summarize,
}

module _ (env : Env) where
  pub forward_all-Settles : (es : List StreamEvent) → Settles (forward_all env es)
  unfolding forward_all
  forward_all-Settles [] = search settles_rules
  forward_all-Settles (delta_text t ∷ es) =
      Settles-bind _ _ (Settles-emit env _) (λ _. forward_all-Settles es)
  forward_all-Settles (server_tool_start t ∷ es) =
      Settles-bind _ _ (Settles-emit env _) (λ _. forward_all-Settles es)
  forward_all-Settles (unread ∷ es) =
      Settles-bind _ _ (Settles-pure tt) (λ _. forward_all-Settles es)

  -- What one call of the API leaves: it ends, counts itself, and returns what the API answered.
  pub record Called (with_tools : Bool) (w : World) (r : Result Response × World) : Type 0 where
    pub ends : r.0 ≢ out_of_fuel
    pub caps : Later w r.1
    pub counted : w.calls + 1 ≤ r.1.calls
    pub answer :
        (a : Response) → r.0 ≡ ok a → (env.create w.calls w.messages with_tools).message ≡ some a

  message_Later : (m : Option Response) (w : World) → Later w (message_of m w).1
  message_Later none w = Later-refl w
  message_Later (some r) w = Later-refl w

  message_answer :
      (m : Option Response) (r : Result (Unit {0})) (w : World) (a : Response)
      → (then_do r (λ _. message_of m) w).0 ≡ ok a
      → m ≡ some a
  message_answer none (ok _) w a e = cc
  message_answer (some b) (ok _) w a e = cc
  message_answer m raised w a e = cc
  message_answer m out_of_fuel w a e = cc

  message_of-Settles : (m : Option Response) → Settles (message_of m)
  message_of-Settles m = record { ends = ended m; later = message_Later m }
    where
      ended : (m : Option Response) (w : World) → (message_of m w).0 ≢ out_of_fuel
      ended none w e = cc
      ended (some r) w e = cc

  pub stream_then :
      (s : Exec (Unit {0})) (with_tools : Bool) (w : World)
      → Settles s
      → let reply = env.create w.calls w.messages with_tools in
        Called with_tools w ((s >> message_of reply.message) (record w { calls = w.calls + 1 }))
  stream_then s with_tools w h =
      let reply = env.create w.calls w.messages with_tools in
      let w' : World = record w { calls = w.calls + 1 } in
      let both = Settles-bind s (λ _. message_of reply.message) h (λ _. message_of-Settles _) in
      let later = both.later w' in
      record {
        ends = both.ends w';
        caps = ground arith;
        counted = later.calls;
        answer = unfold ◌>>=◌ in message_answer reply.message (s w').0 (s w').1;
      }

  pub call_model-Called :
      (with_tools : Bool) (w : World) → Called with_tools w (call_model env with_tools w)
  unfolding call_model
  call_model-Called with_tools w =
      let reply = env.create w.calls w.messages with_tools in
      elim (Bool-cases (env.listening && env.streams)) [
        | inl streaming ↦ rw streaming (
            stream_then (forward_all env reply.stream) with_tools w
              (forward_all-Settles reply.stream))
        | inr plain ↦
            rw plain (unfold ◌>>=◌ in stream_then (pure tt) with_tools w (Settles-pure tt))
      ]

  pub record_response-Settles :
      (iteration : ℕ) (r : Response) → Settles (record_response env iteration r)
  unfolding record_response
  record_response-Settles iteration r = search settles_rules depth 12

  pub call_model-Settles : (with_tools : Bool) → Settles (call_model env with_tools)
  call_model-Settles with_tools = record {
    ends = λ w. (call_model-Called with_tools w).ends;
    later = λ w. (call_model-Called with_tools w).caps;
  }

  pub summarize-Settles : (rs : List ToolResult) → Settles (summarize env rs)
  unfolding summarize summary_turn
  summarize-Settles rs =
      search (settles_rules, call_model-Settles, record_response-Settles) depth 16

  pub ends-bind :
      {A B : Type 0} (m : Exec A) (f : A → Exec B) (w : World)
      → (m w).0 ≢ out_of_fuel
      → ((a : A) → (m w).0 ≡ ok a → (f a (m w).1).0 ≢ out_of_fuel)
      → ((m >>= f) w).0 ≢ out_of_fuel
  unfolding ◌>>=◌
  ends-bind {A} {B} m f w h k = go (m w).0 h k
    where
      go :
          (r : Result A)
          → r ≢ out_of_fuel
          → ((a : A) → r ≡ ok a → (f a (m w).1).0 ≢ out_of_fuel)
          → (then_do r f (m w).1).0 ≢ out_of_fuel
      go (ok a) h k = k a refl
      go raised h k = λ e. cc
      go out_of_fuel h k = absurd (h refl)
