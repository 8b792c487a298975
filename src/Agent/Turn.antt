-- ===== src/Agent/Turn.antt =====
-- `_run_tools` of app/agent/loop.py: the tool calls of one response, in order.
pub mod Answers
use personal_portfolio_analy.Prelude.{
  ℕ, Bool, Option, none, some, List, [], ◌∷◌, String, not, if◌then◌else◌,
}
use personal_portfolio_analy.Agent.Value.{
  Text, Value, Values, nil, cons, text, array, object, Payload, items, get, is_falsy,
}
use personal_portfolio_analy.Agent.Content.{
  ToolUse, ToolResult, Content, Truncated, truncate, is_failure, join, or_object,
}
use personal_portfolio_analy.Agent.World.{
  Env, Exec, pure, ◌>>=◌, ◌>>◌, add_summary, emit, log_row, tool_start, tool_end, tool_call,
  or_raise,
}
use personal_portfolio_analy.Agent.Dispatch.{safe_dispatch}

-- The texts of a list, or none where an element is no text, which `str.join` raises for.
abbrev strings : Values → Option (List Text)
strings nil = some []
strings (cons (text t) vs) = elim (strings vs) [ none ↦ none | some ts ↦ some (t ∷ ts) ]
strings (cons _ vs) = none

-- `", ".join(val)` of a list, or `str(val)`
abbrev summary_text : (Value → Text) → Value → Option Text
summary_text str (array vs) = elim (strings vs) [
  | none ↦ none
  | some ts ↦ some (join (b',' ∷ b' ' ∷ []) ts)
]
summary_text str (text t) = some t
summary_text str v = some (str v)

abbrev summary_of : (Value → Text) → List String → Payload → Option Text
summary_of str [] p = some []
summary_of str (key ∷ keys) p =
    let rest = summary_of str keys p in
    elim (get key p) [ none ↦ rest | some v ↦ if is_falsy v then rest else summary_text str v ]

abbrev cut_summary : Option Text → Option Truncated
cut_summary none = none
cut_summary (some t) = some (truncate t 80)

-- `_input_summary`, or none where it raises: for a payload that is no dict, and for a list that
-- holds anything but texts.
unfoldable pub input_summary : (Value → Text) → Value → Option Truncated
unfolding truncate
input_summary str (object fs) =
    cut_summary (summary_of str ("tickers" ∷ "ticker" ∷ "query" ∷ []) (items fs))
input_summary str _ = none

-- `block.get("input", {}) or {}`
abbrev pub payload_of : ToolUse → Value
payload_of block = or_object (some block.input)

module _ (env : Env) where
  -- The body of the loop.
  unfoldable pub run_one : ℕ → ToolUse → Exec ToolResult
  run_one iteration block = do
    let payload = payload_of block
    summary ← or_raise (input_summary env.str payload)
    emit env (tool_start block.name summary)
    content ← safe_dispatch env block.name payload
    emit env (tool_end block.name (not (is_failure content)))
    log_row env (tool_call iteration block.name payload content (is_failure content))
    add_summary (record { tool_name = block.name; input = payload; is_error = is_failure content })
    pure (record { tool_use_id = block.id; content = content; is_error = is_failure content })

  unfoldable pub run_tools : ℕ → List ToolUse → Exec (List ToolResult)
  unfolding run_one
  run_tools iteration [] = pure []
  run_tools iteration (block ∷ blocks) = do
    result ← run_one iteration block
    rest ← run_tools iteration blocks
    pure (result ∷ rest)
