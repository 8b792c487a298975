-- ===== src/Chat.antt =====
-- The questions of the chat in app/main.py, over the rows of `agent_runs` (app/db/repo.py): the
-- quota of a plan, the cap on a month's cost, and the earlier turns that a prompt repeats. Money is
-- a number of the least unit; the start of the month is an argument.
pub mod Quota
pub mod History
use personal_portfolio_analy.Prelude.{
  ℕ, zero, suc, ◌+◌, ◌-◌, ◌*◌, Bool, true, false, not, ◌&&◌, ◌||◌, Option, none, some, List, [],
  ◌∷◌, ◌++◌, min, map, length, take, keep, leb, ltb, ◌==◌, if◌then◌else◌,
}
use personal_portfolio_analy.Store.{User, Plan, free, pro, is_pro, hours, days, Text, owner}
use personal_portfolio_analy.Plans.{effective_plan}

pub data Status : Type 0 where
  running completed budget_exceeded max_iterations error : Status

abbrev pub is_error : Status → Bool
is_error error = true
is_error _ = false

-- A row of `agent_runs`: the columns that are read here.
pub record Run : Type 0 where
  pub id : ℕ
  pub user_id : ℕ
  pub is_chat : Bool
  pub status : Status
  pub created_at : ℕ
  pub cost : ℕ
  pub user_message : Option Text
  pub final_answer : Option Text

pub record Settings : Type 0 where
  pub free_weekly_chat_limit : ℕ
  pub pro_daily_chat_limit : ℕ
  pub free_monthly_cost_cap : ℕ
  pub pro_monthly_cost_cap : ℕ
  pub free_chat_max_cost : ℕ
  pub pro_chat_max_cost : ℕ
  pub chat_history_turns : ℕ

-- `_chat_window`
abbrev pub chat_window : Plan → ℕ
chat_window plan = if is_pro plan then hours 24 else days 7

-- `_chat_limit`
abbrev pub chat_limit : Plan → Settings → ℕ
chat_limit plan c = if is_pro plan then c.pro_daily_chat_limit else c.free_weekly_chat_limit

abbrev pub monthly_cost_cap : Plan → Settings → ℕ
monthly_cost_cap plan c = if is_pro plan then c.pro_monthly_cost_cap else c.free_monthly_cost_cap

abbrev pub chat_run_budget : Plan → Settings → ℕ
chat_run_budget plan c = if is_pro plan then c.pro_chat_max_cost else c.free_chat_max_cost

abbrev pub sum_cost : List Run → ℕ
sum_cost [] = 0
sum_cost (r ∷ rs) = r.cost + sum_cost rs

-- `Repo.monthly_cost_usd`
abbrev pub monthly_cost : ℕ → ℕ → List Run → ℕ
monthly_cost user_id start runs =
    sum_cost (keep (λ r. r.user_id == user_id && leb start r.created_at) runs)

abbrev pub is_counted : ℕ → ℕ → Run → Bool
is_counted user_id since r =
    r.user_id == user_id && r.is_chat && not (is_error r.status) && leb since r.created_at

abbrev pub earliest : List Run → Option ℕ
earliest [] = none
earliest (r ∷ rs) = elim (earliest rs) [
  | none ↦ some r.created_at
  | some t ↦ some (min r.created_at t)
]

-- `Repo.chat_usage_since`
unfoldable pub chat_usage_since : ℕ → ℕ → List Run → ℕ × Option ℕ
chat_usage_since user_id since runs =
    let counted = keep (is_counted user_id since) runs in (length counted, earliest counted)

pub record QuotaState : Type 0 where
  pub limit : ℕ
  pub used : ℕ
  pub remaining : ℕ
  pub resets_at : Option ℕ

-- `_chat_quota_payload`
unfoldable pub chat_quota_payload : ℕ → Plan → Settings → ℕ → List Run → Option QuotaState
unfolding chat_usage_since
chat_quota_payload user_id plan c now runs =
    let usage = chat_usage_since user_id (now - chat_window plan) runs in
    if user_id == owner
    then none
    else some (record {
      limit = chat_limit plan c;
      used = usage.0;
      remaining = chat_limit plan c - usage.0;
      resets_at = elim usage.1 [ none ↦ none | some oldest ↦ some (oldest + chat_window plan) ];
    })

-- The end of `_enforce_usage_limits`: it returns, or raises 402 for the month's cost or for the
-- quota, with the time at which it says the next question unlocks.
pub data Verdict : Type 0 where
  allowed : Verdict
  cost_reached : Verdict
  quota_reached : ℕ → Verdict

abbrev or_else : Option ℕ → ℕ → ℕ
or_else none d = d
or_else (some t) d = t

abbrev pub verdict_of : ℕ × Option ℕ → ℕ → ℕ → ℕ → Verdict
verdict_of usage limit span now =
    if ltb usage.0 limit then allowed else quota_reached (or_else usage.1 now + span)

-- `_enforce_usage_limits`, where `month` is the start of the month
unfoldable pub enforce_usage_limits : Settings → ℕ → Option User → ℕ → ℕ → List Run → Verdict
unfolding effective_plan chat_usage_since
enforce_usage_limits c user_id user month now runs =
    let plan = effective_plan user now in
    let span = chat_window plan in
    if user_id == owner
    then allowed
    else if leb (monthly_cost_cap plan c) (monthly_cost user_id month runs)
    then cost_reached
    else verdict_of (chat_usage_since user_id (now - span) runs) (chat_limit plan c) span now

-- `Repo.create_run` of a chat, whose row gets an id of its own.
abbrev pub row_of : ℕ → ℕ → Text → ℕ → Run
row_of id user_id question now = record {
  id = id;
  user_id = user_id;
  is_chat = true;
  status = running;
  created_at = now;
  cost = 0;
  user_message = some question;
  final_answer = none;
}

abbrev pub create_run : ℕ → ℕ → Text → ℕ → List Run → List Run
create_run id user_id question now runs = runs ++ row_of id user_id question now ∷ []

-- A question: the guard, then the run.
unfoldable pub ask : Settings → ℕ → ℕ → Option User → Text → ℕ → ℕ → List Run → Verdict × List Run
unfolding enforce_usage_limits
ask c id user_id user question month now runs =
    let verdict = enforce_usage_limits c user_id user month now runs in
    elim verdict [
      | allowed ↦ (allowed, create_run id user_id question now runs)
      | cost_reached ↦ (cost_reached, runs)
      | quota_reached t ↦ (quota_reached t, runs)
    ]

-- `Repo.finalize_run`
unfoldable pub finalize_run : ℕ → Status → Option Text → ℕ → List Run → List Run
finalize_run id status answer cost [] = []
finalize_run id status answer cost (r ∷ rs) =
    let rest = finalize_run id status answer cost rs in
    if r.id == id
    then record r { status = status; final_answer = answer; cost = cost } ∷ rs
    else r ∷ rest

pub data Role : Type 0 where
  from_user from_assistant : Role

abbrev pub chat_history_msg_chars : ℕ
chat_history_msg_chars = 1200

abbrev pub said : Option Text → Option Text
said none = none
said (some []) = none
said (some (c ∷ t)) = some (c ∷ t)

-- The question and the answer of a run that ended without an error and has both.
abbrev pub pair_of : Run → Option (Text × Text)
pair_of r = if is_error r.status then none else elim (said r.user_message) [
  | none ↦ none
  | some question ↦ elim (said r.final_answer) [
    | none ↦ none
    | some answer ↦ some (take chat_history_msg_chars question, take chat_history_msg_chars answer)
  ]
]

-- The first `turns` pairs, of runs that are newest first.
abbrev pub pairs_of : ℕ → List Run → List (Text × Text)
pairs_of turns [] = []
pairs_of zero (r ∷ rs) = []
pairs_of (suc turns) (r ∷ rs) =
    let more = pairs_of turns rs in
    let skipped = pairs_of (suc turns) rs in elim (pair_of r) [ none ↦ skipped | some p ↦ p ∷ more ]

abbrev pub oldest_first : List (Text × Text) → List (Role × Text)
oldest_first [] = []
oldest_first ((question, answer) ∷ ps) =
    oldest_first ps ++ (from_user, question) ∷ (from_assistant, answer) ∷ []

-- `_chat_history_messages`, where the chat runs of the user are newest first
unfoldable pub chat_history_messages : Settings → List Run → List (Role × Text)
chat_history_messages c runs =
    if leb c.chat_history_turns 0
    then []
    else oldest_first (pairs_of c.chat_history_turns (take (c.chat_history_turns * 2) runs))
