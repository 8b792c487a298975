-- ===== src/Tests/BookTests.antt =====
-- Questions of the chat, devices and synced positions at concrete inputs: the user 7, on the free
-- plan with a limit of two questions a week and one watched ticker.
use personal_portfolio_analy.Prelude.{
  ℕ, ◌+◌, ◌*◌, ◌/◌, ◌≤◌, ◌≡◌, ◌≢◌, refl, true, none, some, List, [], ◌∷◌, arith, All, length, ltb,
}
use personal_portfolio_analy.Store.{free, days}
use personal_portfolio_analy.Accounts.{new_user}
use personal_portfolio_analy.Plans.{effective_plan, max_watchlist, PlanSettings}
use personal_portfolio_analy.Watchlist.{World, add_to_watchlist}
use personal_portfolio_analy.Watchlist.Cap.{watched, cap_holds}
use personal_portfolio_analy.Watchlist.Race.{cap_exceeded}
use personal_portfolio_analy.Watchlist.Cap
use personal_portfolio_analy.Watchlist.Race
use personal_portfolio_analy.Chat.{
  Run, Settings, completed, allowed, enforce_usage_limits, ask, chat_history_messages,
  chat_usage_since,
}
use personal_portfolio_analy.Chat.Quota.{IsWithin, quota_holds, unlock_too_early}
use personal_portfolio_analy.Chat.Quota
use personal_portfolio_analy.Chat.History.{IsPaired, chat_history_messages-IsPaired}
use personal_portfolio_analy.Delivery.Devices.{upsert_push_device}
use personal_portfolio_analy.Delivery.Devices.Owners.{IsOwned, device_moves}
use personal_portfolio_analy.Delivery.Devices.Owners
use personal_portfolio_analy.Portfolio.{Decimals, Holding, Position, merged, sync_positions}
use personal_portfolio_analy.Portfolio.Sync.{find_position, find_holding, sync_positions_lem}

abbrev settings : Settings
settings = record {
  free_weekly_chat_limit = 2;
  pro_daily_chat_limit = 10;
  free_monthly_cost_cap = 100;
  pro_monthly_cost_cap = 900;
  free_chat_max_cost = 10;
  pro_chat_max_cost = 10;
  chat_history_turns = 3;
}

abbrev question_at : ℕ → ℕ → Run
question_at id t = record {
  id = id;
  user_id = 7;
  is_chat = true;
  status = completed;
  created_at = t;
  cost = 1;
  user_message = some (1 ∷ []);
  final_answer = some (2 ∷ []);
}

quota_holds_example :
    IsWithin settings 7 free (5, (ask settings 1 7 (some (new_user 70)) (1 ∷ []) 0 5 []).1)
unfolding effective_plan
quota_holds_example =
    quota_holds settings 7 free {m = (0, [])} (ground arith)
      (personal_portfolio_analy.Chat.Quota.next personal_portfolio_analy.Chat.Quota.here (
        personal_portfolio_analy.Chat.Quota.asked 7 1 (some (new_user 70)) (1 ∷ []) 0 5 0 []
          (omega arith) (λ _. refl)))
      (λ t by. omega arith)

abbrev three_questions : List Run
three_questions = question_at 1 10 ∷ question_at 2 20 ∷ question_at 3 30 ∷ []

unlock_too_early_example :
    enforce_usage_limits settings 7 (some (new_user 70)) 0 (10 + days 7 + 1) three_questions
    ≢ allowed
unfolding effective_plan chat_usage_since enforce_usage_limits
unlock_too_early_example =
    unlock_too_early settings 7 (some (new_user 70)) free 0 0 40 (10 + days 7) 10 3 three_questions
      (ground arith) refl refl refl (omega arith) refl

chat_history_messages-IsPaired_example :
    IsPaired (chat_history_messages settings three_questions)
    × (length (chat_history_messages settings three_questions) ≤ 6)
chat_history_messages-IsPaired_example = chat_history_messages-IsPaired settings three_questions

device_moves_example :
    All
      (IsOwned (1 ∷ []) 8)
      (upsert_push_device 8 (1 ∷ []) none (upsert_push_device 7 (1 ∷ []) none []))
device_moves_example = device_moves (1 ∷ []) 8 none (upsert_push_device 7 (1 ∷ []) none []) (
    personal_portfolio_analy.Delivery.Devices.Owners.next
      personal_portfolio_analy.Delivery.Devices.Owners.here
      (personal_portfolio_analy.Delivery.Devices.Owners.upserted 7 (1 ∷ []) none []))

abbrev decimals : Decimals
decimals = record {
  add = λ a b. a + b;
  mul = λ a b. a * b;
  div = λ a b. a / b;
  is_positive = λ a. ltb 0 a;
}

abbrev holding_of : ℕ → Holding
holding_of n = record { ticker = 4; account = 5; quantity = n; avg_cost = 6; currency = 0 }

abbrev old_position : Position
old_position = record { user_id = 8; holding = holding_of 1 }

sync_positions_lem_example :
    (find_position 7 4 5
        (sync_positions decimals 7 (holding_of 2 ∷ holding_of 3 ∷ []) (old_position ∷ [])).0
      ≡ find_holding 4 5 (merged decimals (holding_of 2 ∷ holding_of 3 ∷ [])))
    × (find_position 8 4 5
          (sync_positions decimals 7 (holding_of 2 ∷ holding_of 3 ∷ []) (old_position ∷ [])).0
        ≡ find_position 8 4 5 (old_position ∷ []))
sync_positions_lem_example =
    sync_positions_lem decimals 7 8 4 5 (holding_of 2 ∷ holding_of 3 ∷ []) (old_position ∷ [])
      (ground arith)

abbrev plan_settings : PlanSettings
plan_settings = record {
  tz = 0;
  free_max_digest_holdings = 3;
  free_max_watchlist = 1;
  pro_max_watchlist = 10;
}

cap_holds_example :
    watched 7 (add_to_watchlist plan_settings 7 (some (new_user 70)) 0 4 true []).1 ≤ 1
unfolding effective_plan max_watchlist
cap_holds_example =
    cap_holds plan_settings 7 1 {u = []} (ground arith)
      (personal_portfolio_analy.Watchlist.Cap.next personal_portfolio_analy.Watchlist.Cap.here (
        personal_portfolio_analy.Watchlist.Cap.asked 7 4 0 (some (new_user 70)) true []
          (λ _. refl)))
      (omega arith)

cap_exceeded_example :
    (w : World) × personal_portfolio_analy.Watchlist.Race.Reach plan_settings
      (record { items = []; waiting = [] })
      w
    × (watched 7 w.items ≡ max_watchlist (effective_plan (some (new_user 70)) 0) plan_settings + 1)
unfolding effective_plan max_watchlist
cap_exceeded_example =
    cap_exceeded plan_settings 7 0 4 5 (some (new_user 70)) [] (ground arith) refl refl refl
