-- ===== src/Watchlist.antt =====
-- The watchlist: the rows of `watchlist_items` (app/db/repo.py) and the routes that add and remove a
-- ticker (app/main.py). A ticker is a number. Between the check of the cap and the write a request
-- waits for market data, and others run.
pub mod Cap
pub mod Race
use personal_portfolio_analy.Prelude.{
  ℕ, Bool, true, false, not, ◌&&◌, ◌||◌, Option, none, some, List, [], ◌∷◌, ◌++◌, any, keep, length,
  map, ltb, leb, ◌==◌, if◌then◌else◌,
}
use personal_portfolio_analy.Store.{User, owner}
use personal_portfolio_analy.Plans.{PlanSettings, effective_plan, max_watchlist}

-- `watchlist_items`, oldest first: the user and the ticker
abbrev pub Items : Type 0
Items = List (ℕ × ℕ)

abbrev pub is_item : ℕ → ℕ → ℕ × ℕ → Bool
is_item user_id ticker i = i.0 == user_id && i.1 == ticker

-- `Repo.list_watchlist`
abbrev pub list_watchlist : ℕ → Items → Items
list_watchlist user_id = keep (λ i. i.0 == user_id)

-- `Repo.get_watchlist_tickers`
abbrev pub get_watchlist_tickers : ℕ → Items → List ℕ
get_watchlist_tickers user_id items = map (λ i. i.1) (list_watchlist user_id items)

-- `Repo.add_watchlist_ticker`
unfoldable pub add_watchlist_ticker : ℕ → ℕ → Items → Bool × Items
add_watchlist_ticker user_id ticker items =
    if any (is_item user_id ticker) items
    then (false, items)
    else (true, items ++ (user_id, ticker) ∷ [])

-- `Repo.remove_watchlist_ticker`
unfoldable pub remove_watchlist_ticker : ℕ → ℕ → Items → Bool × Items
remove_watchlist_ticker user_id ticker items =
    (any (is_item user_id ticker) items, keep (λ i. not (is_item user_id ticker i)) items)

-- The check of `add_to_watchlist`: whether the request goes on, or is answered with 400.
unfoldable pub has_room : PlanSettings → ℕ → Option User → ℕ → ℕ → Items → Bool
unfolding effective_plan max_watchlist
has_room c user_id user now ticker items =
    let current = get_watchlist_tickers user_id items in
    if any (λ t. t == ticker) current || user_id == owner
    then true
    else ltb (length current) (max_watchlist (effective_plan user now) c)

pub data Added : Type 0 where
  added over_cap unknown_ticker : Added

-- `add_to_watchlist` with nothing in between, where the ticker is a real instrument or not
unfoldable pub add_to_watchlist :
    PlanSettings → ℕ → Option User → ℕ → ℕ → Bool → Items → Added × Items
unfolding has_room add_watchlist_ticker
add_to_watchlist c user_id user now ticker is_real items =
    if not (has_room c user_id user now ticker items)
    then (over_cap, items)
    else if not is_real
    then (unknown_ticker, items)
    else (added, (add_watchlist_ticker user_id ticker items).1)

-- The table, and the requests that have passed the check and wait for market data.
pub record World : Type 0 where
  pub items : Items
  pub waiting : Items

-- The two halves of a request that adds a ticker.
unfoldable pub check : PlanSettings → ℕ → Option User → ℕ → ℕ → World → World
unfolding has_room
check c user_id user now ticker w =
    if has_room c user_id user now ticker w.items
    then record w { waiting = w.waiting ++ (user_id, ticker) ∷ [] }
    else w

unfoldable pub store : ℕ → ℕ → World → World
unfolding add_watchlist_ticker
store user_id ticker w =
    if any (is_item user_id ticker) w.waiting
    then record {
      items = (add_watchlist_ticker user_id ticker w.items).1;
      waiting = keep (λ i. not (is_item user_id ticker i)) w.waiting;
    }
    else w
