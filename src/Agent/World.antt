-- ===== src/Agent/World.antt =====
-- What the loop talks to, and the state that a run changes. The model's API, the tools' functions
-- and the database are not the loop's code: they are arguments, as functions of how many calls
-- have been made and of what is sent, so that a theorem holds for whatever they answer.
pub mod Settles
pub mod Returns
use personal_portfolio_analy.Prelude.{
  ℕ, ◌+◌, Bool, true, false, Option, none, some, List, [], ◌∷◌, ◌++◌, String, if◌then◌else◌,
}
use personal_portfolio_analy.Budget.{Budget, record_usage, record_flat_cost}
use personal_portfolio_analy.Agent.Value.{Text, Value, Schema}
use personal_portfolio_analy.Agent.Content.{RawBlock, Block, Message, Content, Truncated}

pub data StopReason : Type 0 where
  end_turn tool_use pause_turn other_reason : StopReason

-- A final message of the API: its blocks, its stop reason, its usage.
pub record Response : Type 0 where
  pub content : List RawBlock
  pub stop_reason : StopReason
  pub input_tokens : ℕ
  pub output_tokens : ℕ

-- An event of a streamed response that the loop looks at, or any other.
pub data StreamEvent : Type 0 where
  delta_text : Text → StreamEvent
  server_tool_start : String → StreamEvent
  unread : StreamEvent

-- One call of the API: the events before its end, and the message, or `none` where it raises.
pub record Reply : Type 0 where
  pub stream : List StreamEvent
  pub message : Option Response

-- What one run of a tool's function adds to the run's budget (`ctx.budget`).
pub data Charge : Type 0 where
  usage : ℕ → ℕ → Charge
  flat : ℕ → Charge

pub data Outcome : Type 0 where
  returned : Text → Outcome
  -- a result that is no text and that `json.dumps` raises for
  unserializable : Outcome
  -- `asyncio.TimeoutError` or `ConnectionError`
  retryable : Outcome
  value_error : Text → Outcome
  other_error : Text → Outcome

pub record Attempt : Type 0 where
  pub charges : List Charge
  pub outcome : Outcome

pub record Env : Type 0 where
  -- the n-th call of the API, with the conversation and whether tools are offered
  pub create : ℕ → List Message → Bool → Reply
  -- the n-th run of a tool's function
  pub run_tool : ℕ → String → Value → Attempt
  -- the table has the tool
  pub has_tool : String → Bool
  pub schema_of : String → Option Schema
  -- Python's `str` of a value
  pub str : Value → Text
  -- the n-th write of the database succeeds
  pub persists : ℕ → Bool
  -- `on_event is not None`, and the client can stream
  pub listening : Bool
  pub streams : Bool
  pub max_output_tokens : ℕ

pub data Event : Type 0 where
  run_start : Event
  iteration : ℕ → Event
  text_delta : Text → Event
  server_tool : String → Event
  -- the tool's name and `input_summary`
  tool_start : String → Truncated → Event
  tool_end : String → Bool → Event
  budget_summary : Event

-- The rows that `Observer` writes.
pub data Row : Type 0 where
  model_call : ℕ → List Block → StopReason → ℕ → ℕ → Row
  tool_call : ℕ → String → Value → Content → Bool → Row

pub data Status : Type 0 where
  running completed budget_exceeded max_iterations error : Status

-- What `finalize_run` writes to the run's row.
pub record Final : Type 0 where
  pub status : Status
  pub final_answer : Option Text
  pub iterations : ℕ
  pub input_tokens : ℕ
  pub output_tokens : ℕ
  pub cost_usd : ℕ

pub record Summary : Type 0 where
  pub tool_name : String
  pub input : Value
  pub is_error : Bool

pub record World : Type 0 where
  pub budget : Budget
  pub messages : List Message
  pub summaries : List Summary
  pub events : List Event
  pub rows : List Row
  pub finals : List Final
  pub calls : ℕ
  pub tool_runs : ℕ
  pub writes : ℕ

-- `raised` is an exception that leaves the call; `out_of_fuel` is a loop that has not ended.
pub data Result (A : Type 0) : Type 0 where
  ok : A → Result A
  raised : Result A
  out_of_fuel : Result A

abbrev pub Exec : Type 0 → Type 0
Exec A = World → Result A × World

unfoldable pub pure : {A : Type 0} → A → Exec A
pure a w = (ok a, w)

unfoldable pub gets : {A : Type 0} → (World → A) → Exec A
gets f w = (ok (f w), w)

unfoldable pub update_budget : (Budget → Budget) → Exec (Unit {0})
update_budget f w = (ok tt, record w { budget = f w.budget })

unfoldable pub add_message : Message → Exec (Unit {0})
add_message m w = (ok tt, record w { messages = w.messages ++ m ∷ [] })

-- `summaries.append(...)`
unfoldable pub add_summary : Summary → Exec (Unit {0})
add_summary s w = (ok tt, record w { summaries = w.summaries ++ s ∷ [] })

-- A value, or the exception in its place.
unfoldable pub or_raise : {A : Type 0} → Option A → Exec A
or_raise none w = (raised, w)
or_raise (some a) w = (ok a, w)

abbrev pub then_do : {A B : Type 0} → Result A → (A → Exec B) → World → Result B × World
then_do (ok a) f w = f a w
then_do raised f w = (raised, w)
then_do out_of_fuel f w = (out_of_fuel, w)

-- To open this is to open the steps above it.
infixl 5 ◌>>=◌ ◌>>◌
unfoldable pub ◌>>=◌ : {A B : Type 0} → Exec A → (A → Exec B) → Exec B
unfolding pure gets update_budget add_message add_summary or_raise
◌>>=◌ m f w = let (r, w') = m w in then_do r f w'

abbrev pub ◌>>◌ : {B : Type 0} → Exec (Unit {0}) → Exec B → Exec B
m >> k = m >>= λ _. k

unfoldable pub charge : Charge → Budget → Budget
unfolding record_usage record_flat_cost
charge (usage i o) b = record_usage i o b
charge (flat usd) b = record_flat_cost usd b

abbrev pub charge_all : List Charge → Budget → Budget
charge_all [] b = b
charge_all (c ∷ cs) b = charge_all cs (charge c b)

module _ (env : Env) where
  -- `emit`: never raises
  unfoldable pub emit : Event → Exec (Unit {0})
  emit e w = (ok tt, if env.listening then record w { events = w.events ++ e ∷ [] } else w)

  -- A write of the database, which raises where the database fails.
  unfoldable pub persist : (World → World) → Exec (Unit {0})
  persist f w =
      if env.persists w.writes
      then (ok tt, f (record w { writes = w.writes + 1 }))
      else (raised, record w { writes = w.writes + 1 })

  -- `Observer.model_call` and `Observer.tool_call`
  unfoldable pub log_row : Row → Exec (Unit {0})
  unfolding persist
  log_row r = persist (λ w. record w { rows = w.rows ++ r ∷ [] })

  unfoldable pub finalize_run : Final → Exec (Unit {0})
  unfolding persist
  finalize_run f = persist (λ w. record w { finals = w.finals ++ f ∷ [] })
