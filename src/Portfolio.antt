-- ===== src/Portfolio.antt =====
-- The table `positions` (app/db/repo.py) and the sync of a brokerage's holdings into it
-- (app/integrations/snaptrade/sync.py). Texts and Decimals are known by numbers; the arithmetic of
-- Decimals is Python's. The calls of the brokerage give the mapped rows of the accounts.
pub mod Sync
use personal_portfolio_analy.Prelude.{
  ℕ, ◌+◌, Bool, true, false, not, ◌&&◌, ◌||◌, Option, none, some, List, [], ◌∷◌, ◌++◌, any, keep,
  length, ◌==◌, if◌then◌else◌,
}

pub record Decimals : Type 0 where
  pub add : ℕ → ℕ → ℕ
  pub mul : ℕ → ℕ → ℕ
  pub div : ℕ → ℕ → ℕ
  pub is_positive : ℕ → Bool

-- `MappedPosition`
pub record Holding : Type 0 where
  pub ticker : ℕ
  pub account : ℕ
  pub quantity : ℕ
  pub avg_cost : ℕ
  pub currency : ℕ

-- A row of `positions`
pub record Position : Type 0 where
  pub user_id : ℕ
  pub holding : Holding

abbrev pub has_key : ℕ → ℕ → Holding → Bool
has_key ticker account h = h.ticker == ticker && h.account == account

abbrev average : Decimals → Holding → Holding → ℕ → ℕ
average d prev row total =
    if d.is_positive total
    then d.div (d.add (d.mul prev.avg_cost prev.quantity) (d.mul row.avg_cost row.quantity)) total
    else prev.avg_cost

abbrev pub combined : Decimals → Holding → Holding → Holding
combined d prev row =
    let total = d.add prev.quantity row.quantity in
    record {
      ticker = row.ticker;
      account = row.account;
      quantity = total;
      avg_cost = average d prev row total;
      currency = prev.currency;
    }

-- A row onto `merged`
abbrev pub merge_into : Decimals → Holding → List Holding → List Holding
merge_into d row [] = row ∷ []
merge_into d row (m ∷ ms) =
    let rest = merge_into d row ms in
    if has_key row.ticker row.account m then combined d m row ∷ ms else m ∷ rest

abbrev pub merge_onto : Decimals → List Holding → List Holding → List Holding
merge_onto d ms [] = ms
merge_onto d ms (row ∷ rows) = merge_onto d (merge_into d row ms) rows

-- `merged`
unfoldable pub merged : Decimals → List Holding → List Holding
merged d rows = merge_onto d [] rows

abbrev pub is_row : ℕ → ℕ → ℕ → Position → Bool
is_row user_id ticker account p = p.user_id == user_id && has_key ticker account p.holding

-- What a conflict of the key sets.
abbrev pub replaced : Holding → Position → Position
replaced h p = record p {
  holding = record p.holding {
    quantity = h.quantity;
    avg_cost = h.avg_cost;
    currency = h.currency;
  };
}

-- `Repo.upsert_position`, and a row of `Repo.upsert_positions`
unfoldable pub upsert_position : ℕ → Holding → List Position → List Position
upsert_position user_id h [] = record { user_id = user_id; holding = h } ∷ []
upsert_position user_id h (p ∷ ps) =
    let rest = upsert_position user_id h ps in
    if is_row user_id h.ticker h.account p then replaced h p ∷ ps else p ∷ rest

-- `Repo.upsert_positions`, of rows with distinct keys
unfoldable pub upsert_positions : ℕ → List Holding → List Position → List Position
unfolding upsert_position
upsert_positions user_id [] ps = ps
upsert_positions user_id (h ∷ hs) ps = upsert_positions user_id hs (upsert_position user_id h ps)

-- The key is among those of the holdings.
abbrev pub kept_by : List Holding → Holding → Bool
kept_by hs h = any (has_key h.ticker h.account) hs

-- `Repo.prune_positions_except`: the rows that are left, and how many were deleted.
unfoldable pub prune_positions_except : ℕ → List Holding → List Position → List Position × ℕ
prune_positions_except user_id hs ps = (
  keep (λ p. not (p.user_id == user_id) || kept_by hs p.holding) ps,
  length (keep (λ p. p.user_id == user_id && not (kept_by hs p.holding)) ps),
)

-- `sync_brokerage_positions`, from the mapped rows of the accounts on
unfoldable pub sync_positions : Decimals → ℕ → List Holding → List Position → List Position × ℕ
unfolding merged upsert_positions prune_positions_except
sync_positions d user_id rows ps =
    let book = merged d rows in
    prune_positions_except user_id book (upsert_positions user_id book ps)

-- `Repo.list_positions`
unfoldable pub list_positions : ℕ → List Position → List Position
list_positions user_id = keep (λ p. p.user_id == user_id)
