-- ===== src/Agent/Turn/Answers.antt =====
-- What a tool turn hands back to the model: one result for each call, in the calls' order.
use personal_portfolio_analy.Prelude.{
  ℕ, String, ◌≡◌, ◌≢◌, refl, none, some, List, [], ◌∷◌, ◌++◌, arith, length, All,
}
use personal_portfolio_analy.Agent.Value.{Value}
use personal_portfolio_analy.Agent.Content.{ToolUse, ToolResult, Content, Truncated, is_failure}
use personal_portfolio_analy.Agent.World.{
  Env, World, Result, ok, raised, out_of_fuel, unserializable, Exec, pure, then_do, ◌>>=◌,
}
use personal_portfolio_analy.Agent.World.Settles.{Settles, settles_rules}
use personal_portfolio_analy.Agent.Dispatch.{safe_dispatch}
use personal_portfolio_analy.Agent.Dispatch.Outcomes.{
  EndsWith, safe_dispatch-Settles, safe_dispatch-Answers,
}
use personal_portfolio_analy.Agent.World.Returns.{
  Works, Returns, Returns-bind, Returns-pure, Grows, emit_returns, log_row_returns,
  add_summary_returns, or_raise_returns,
}
use personal_portfolio_analy.Agent.Turn.{run_one, run_tools, input_summary, payload_of}

module _ (env : Env) where
  run_one-Settles : (iteration : ℕ) (block : ToolUse) → Settles (run_one env iteration block)
  unfolding run_one
  run_one-Settles iteration block = search (settles_rules, safe_dispatch-Settles) depth 12

  pub run_tools-Settles :
      (iteration : ℕ) (blocks : List ToolUse) → Settles (run_tools env iteration blocks)
  unfolding run_tools
  run_tools-Settles iteration [] = search settles_rules
  run_tools-Settles iteration (block ∷ blocks) =
      search (settles_rules, run_one-Settles iteration block, run_tools-Settles iteration blocks)
        depth 8

-- A result answers a call: it carries the call's id, and is marked as an error exactly when its
-- content is one.
abbrev pub IsAnswer : ToolUse → ToolResult → Type 0
IsAnswer block r = (r.tool_use_id ≡ block.id) × (r.is_error ≡ is_failure r.content)

-- One answer for each call, in the calls' order.
abbrev pub AnswersEach : List ToolUse → List ToolResult → Type 0
AnswersEach [] [] = Unit
AnswersEach [] (r ∷ rs) = ⊥
AnswersEach (b ∷ bs) [] = ⊥
AnswersEach (b ∷ bs) (r ∷ rs) = IsAnswer b r × AnswersEach bs rs

-- The turn has also logged a row and a summary for each call, and has left the conversation alone.
pub record TurnDone (blocks : List ToolUse) (w : World) (rs : List ToolResult) (w' : World)
    : Type 0 where
  pub answers : AnswersEach blocks rs
  pub grows : Grows (length blocks) (length blocks) w w'

-- Every result of a tool is a text, or one that `json.dumps` takes.
abbrev pub Serializes : Env → Type 0
Serializes env =
    (n : ℕ) (name : String) (payload : Value)
    → (env.run_tool n name payload).outcome ≢ unserializable

-- The payload of a call has a summary.
abbrev pub IsReadable : Env → ToolUse → Type 0
IsReadable env block = (t : Truncated) × (input_summary env.str (payload_of block) ≡ some t)

returned_content :
    (env : Env) (name : String) (payload : Value) (n : ℕ) (r : Result Content)
    → Serializes env
    → EndsWith env name payload n r
    → (c : Content) × (r ≡ ok c)
returned_content env name payload n (ok c) fine h = (c, refl)
returned_content env name payload n raised fine (m, _, e) = absurd (fine m name payload e)
returned_content env name payload n out_of_fuel fine h = absurd h

dispatch_returns :
    (env : Env) (name : String) (payload : Value) (w : World)
    → Serializes env
    → Returns (safe_dispatch env name payload) w (λ _. Grows 0 0 w)
dispatch_returns env name payload w fine =
    let a = safe_dispatch-Answers env name payload w in
    let c = returned_content env name payload _ _ fine a.ends in
    let rows = a.rows in
    let summaries = a.summaries in
    record {
      value = c.0;
      returns = c.1;
      holds = record {
        rows_grow = rw rows (omega arith);
        summaries_grow = rw summaries (omega arith);
        messages_stay = a.messages;
      };
    }

module _ (env : Env) (works : Works env) (fine : Serializes env) where
  run_one_returns :
      (iteration : ℕ) (block : ToolUse) (w : World)
      → IsReadable env block
      → Returns (run_one env iteration block) w (λ r. TurnDone (block ∷ []) w (r ∷ []))
  unfolding run_one
  run_one_returns iteration block w (t, e) =
      Returns-bind _ _ w _ _ (or_raise_returns _ t w e) λ _ w₀ g₀.
        Returns-bind _ _ w₀ _ _ (emit_returns env _ w₀) λ _ w₁ g₁.
          Returns-bind _ _ w₁ _ _ (dispatch_returns env block.name (payload_of block) w₁ fine)
            λ c w₂ g₂. Returns-bind _ _ w₂ _ _ (emit_returns env _ w₂) λ _ w₃ g₃.
              Returns-bind _ _ w₃ _ _ (log_row_returns env works _ w₃) λ _ w₄ g₄.
                Returns-bind _ _ w₄ _ _ (add_summary_returns _ w₄) λ _ w₅ g₅.
                  Returns-pure _ w₅ _
                    (record { answers = ((refl, refl), tt); grows = ground arith })

  -- With a database that works, and tools whose results `json.dumps` takes, a tool turn whose
  -- payloads all have a summary returns, however the tools fail: one result for each call, in the
  -- calls' order and under the call's id, marked as an error exactly when its content is one; it has
  -- logged one row and one summary for each call and left the conversation alone.
  pub run_tools_returns :
      (iteration : ℕ) (blocks : List ToolUse) (w : World)
      → All (IsReadable env) blocks
      → Returns (run_tools env iteration blocks) w (TurnDone blocks w)
  unfolding run_tools
  run_tools_returns iteration [] w readable =
      Returns-pure [] w _ (record { answers = tt; grows = ground arith })
  run_tools_returns iteration (block ∷ blocks) w readable =
      Returns-bind _ _ w _ _ (run_one_returns iteration block w readable.0) λ r w₁ d.
        Returns-bind _ _ w₁ _ _ (run_tools_returns iteration blocks w₁ readable.1) λ rs w₂ ds.
          Returns-pure _ w₂ _ (record {
            answers = (d.answers.0, ds.answers);
            grows = let g = d.grows in let gs = ds.grows in ground arith;
          })

module _ {A B : Type 0} where
  then_do-raised :
      (r : Result A) (f : A → Exec B) (w : World)
      → r ≢ out_of_fuel
      → ((a : A) (w' : World) → (f a w').0 ≡ raised)
      → (then_do r f w).0 ≡ raised
  then_do-raised (ok a) f w ends h = h a w
  then_do-raised raised f w ends h = refl
  then_do-raised out_of_fuel f w ends h = absurd (ends refl)

-- A call whose payload has no summary, such as a list of tickers with a number among them, ends the
-- turn with an exception, whatever the calls before and behind it are.
pub unreadable_call_raises :
    (env : Env) (iteration : ℕ) (before after : List ToolUse) (block : ToolUse) (w : World)
    → input_summary env.str (payload_of block) ≡ none
    → (run_tools env iteration (before ++ block ∷ after) w).0 ≡ raised
unfolding run_tools ◌>>=◌
unreadable_call_raises env iteration [] after block w bad = rw bad refl
unreadable_call_raises env iteration (b ∷ before) after block w bad =
    let others = run_tools env iteration (before ++ block ∷ after) in
    then_do-raised (run_one env iteration b w).0 (λ result. others >>= λ rest. pure (result ∷ rest))
      (run_one env iteration b w).1 ((run_one-Settles env iteration b).ends w)
      (λ r w'.
        let stops = unreadable_call_raises env iteration before after block w' bad in rw stops refl)
