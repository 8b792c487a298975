-- ===== src/Agent/Content.antt =====
-- Content blocks, messages and the text of an answer (app/agent/loop.py, app/agent/events.py).
pub mod Truncation
use personal_portfolio_analy.Prelude.{
  ℕ, ◌-◌, Bool, true, false, ◌||◌, ◌&&◌, Option, none, some, List, [], ◌∷◌, ◌++◌, String, length,
  take, leb, ◌==◌, if◌then◌else◌,
}
use mathlib.Core.List.{reverse}
use personal_portfolio_analy.Agent.Value.{Text, Value, object, end, is_falsy, InputError}

-- A block of a response: text, a tool call, or any block of the server, which is kept verbatim.
-- An attribute that is missing is `none`.
pub data RawBlock : Type 0 where
  raw_text : Option Text → RawBlock
  raw_tool_use : ℕ → String → Option Value → RawBlock
  raw_server : ℕ → RawBlock

pub data Block : Type 0 where
  text : Text → Block
  tool_use : ℕ → String → Value → Block
  server : ℕ → Block

abbrev pub or_empty : Option Text → Text
or_empty none = []
or_empty (some t) = t

-- `_attr(block, "input", {}) or {}`; a JSON value that is false is replaced by `{}` too.
unfoldable pub or_object : Option Value → Value
or_object none = object end
or_object (some v) = if is_falsy v then object end else v

-- `_block_to_dict`
unfoldable pub block_to_dict : RawBlock → Block
unfolding or_object
block_to_dict (raw_text t) = text (or_empty t)
block_to_dict (raw_tool_use id name input) = tool_use id name (or_object input)
block_to_dict (raw_server n) = server n

abbrev pub content_to_dicts : List RawBlock → List Block
content_to_dicts [] = []
content_to_dicts (b ∷ bs) = block_to_dict b ∷ content_to_dicts bs

-- `[b for b in content_dicts if b.get("type") == "tool_use"]`, with the fields that are read.
abbrev pub ToolUse : Type 0
ToolUse = record { id : ℕ; name : String; input : Value }

abbrev pub tool_uses : List Block → List ToolUse
tool_uses [] = []
tool_uses (tool_use i n v ∷ bs) = record { id = i; name = n; input = v } ∷ tool_uses bs
tool_uses (_ ∷ bs) = tool_uses bs

-- The code points that `str.strip` drops.
unfoldable pub is_space : ℕ → Bool
is_space c =
    leb 9 c && leb c 13
    || leb 28 c && leb c 32
    || c == 0x85
    || c == 0xa0
    || c == 0x1680
    || leb 0x2000 c && leb c 0x200a
    || c == 0x2028
    || c == 0x2029
    || c == 0x202f
    || c == 0x205f
    || c == 0x3000

unfoldable pub drop_spaces : Text → Text
unfolding is_space
drop_spaces [] = []
drop_spaces (c ∷ t) = if is_space c then drop_spaces t else c ∷ t

unfoldable pub strip : Text → Text
unfolding drop_spaces
strip t = reverse (drop_spaces (reverse (drop_spaces t)))

-- The texts that `_extract_text` joins: those of text blocks that are not empty.
abbrev pub texts : List Block → List Text
texts [] = []
texts (text [] ∷ bs) = texts bs
texts (text (c ∷ t) ∷ bs) = (c ∷ t) ∷ texts bs
texts (_ ∷ bs) = texts bs

abbrev pub join_from : Text → Text → List Text → Text
join_from sep acc [] = acc
join_from sep acc (t ∷ ts) = join_from sep (acc ++ (sep ++ t)) ts

-- `sep.join(ts)`
abbrev pub join : Text → List Text → Text
join sep [] = []
join sep (t ∷ ts) = join_from sep t ts

-- `_extract_text`
unfoldable pub extract_text : List Block → Text
unfolding strip
extract_text bs = strip (join (10 ∷ []) (texts bs))

-- `_truncate`: the kept text, and the number in the mark behind it, if there is a mark.
pub record Truncated : Type 0 where
  pub kept : Text
  pub cut : Option ℕ

unfoldable pub truncate : Text → ℕ → Truncated
truncate t max_chars =
    if leb (length t) max_chars
    then record { kept = t; cut = none }
    else record { kept = take max_chars t; cut = some (length t - max_chars) }

-- What a tool call hands to the model: the output, or the message of an error.
pub data ToolError : Type 0 where
  unknown_tool : String → ToolError
  bad_input : InputError → ToolError
  failed_after_retry : String → ToolError
  invalid_input : String → Text → ToolError
  tool_error : String → Text → ToolError

pub data Content : Type 0 where
  output : Truncated → Content
  failure : ToolError → Content

abbrev pub is_failure : Content → Bool
is_failure (output _) = false
is_failure (failure _) = true

pub record ToolResult : Type 0 where
  pub tool_use_id : ℕ
  pub content : Content
  pub is_error : Bool

-- A turn of the conversation before the run: its role and its text.
pub data Role : Type 0 where
  user assistant : Role

pub data Message : Type 0 where
  prior : Role → Text → Message
  asked : Text → Message
  answered : List Block → Message
  results : List ToolResult → Message
  -- the results with `BUDGET_SUMMARY_PROMPT` behind them
  results_and_summary_ask : List ToolResult → Message

-- `build_initial_messages`
abbrev pub build_initial_messages : Text → List Message → List Message
build_initial_messages user_message history = history ++ asked user_message ∷ []
