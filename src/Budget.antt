-- ===== src/Budget.antt =====
-- app/agent/budget.py and the price table of app/config.py. A float amount of US dollars is a
-- whole number of units of 10^-8 dollars: prices are whole cents per million tokens, so that the
-- cost of a call is a whole number of units.
use personal_portfolio_analy.Prelude.{
  ℕ, ◌+◌, ◌*◌, ◌/◌, ◌%◌, Bool, ◌||◌, String, leb, ltb, str_eq, if◌then◌else◌,
}

-- Cents per million tokens.
pub record ModelPrice : Type 0 where
  pub input_per_mtok : ℕ
  pub output_per_mtok : ℕ

unfoldable pub cost : ModelPrice → ℕ → ℕ → ℕ
cost p input_tokens output_tokens =
    input_tokens * p.input_per_mtok + output_tokens * p.output_per_mtok

abbrev pub default_model_price : ModelPrice
default_model_price = record { input_per_mtok = 300; output_per_mtok = 1500 }

unfoldable pub price_for : String → ModelPrice
price_for model =
    if str_eq model "claude-sonnet-4-6"
    then record { input_per_mtok = 300; output_per_mtok = 1500 }
    else if str_eq model "claude-haiku-4-5"
    then record { input_per_mtok = 100; output_per_mtok = 500 }
    else if str_eq model "claude-opus-4-8"
    then record { input_per_mtok = 500; output_per_mtok = 2500 }
    else default_model_price

pub record Budget : Type 0 where
  pub max_iterations : ℕ
  pub max_cost_usd : ℕ
  pub price : ModelPrice
  pub iterations : ℕ
  pub input_tokens : ℕ
  pub output_tokens : ℕ
  pub cost_usd : ℕ

-- `Budget.__init__`
unfoldable pub init : ℕ → ℕ → String → Budget
init max_iterations max_cost_usd model = record {
  max_iterations = max_iterations;
  max_cost_usd = max_cost_usd;
  price = price_for model;
  iterations = 0;
  input_tokens = 0;
  output_tokens = 0;
  cost_usd = 0;
}

unfoldable pub record_usage : ℕ → ℕ → Budget → Budget
unfolding cost
record_usage input_tokens output_tokens b = record b {
  input_tokens = b.input_tokens + input_tokens;
  output_tokens = b.output_tokens + output_tokens;
  cost_usd = b.cost_usd + cost b.price input_tokens output_tokens;
}

-- `round(cost_usd, 6)`: to units of 10^-6 dollars. An amount in the middle goes to the even one; a
-- float is seldom in the middle, and may then go to the other.
unfoldable pub round_cost : ℕ → ℕ
round_cost usd =
    let q = usd / 100 in
    let r = usd % 100 in
    if ltb r 50 then q * 100 else if ltb 50 r then (q + 1) * 100 else (q + q % 2) * 100

unfoldable pub record_flat_cost : ℕ → Budget → Budget
record_flat_cost usd b = record b { cost_usd = b.cost_usd + usd }

unfoldable pub start_iteration : Budget → Budget
start_iteration b = record b { iterations = b.iterations + 1 }

abbrev pub iterations_exhausted : Budget → Bool
iterations_exhausted b = leb b.max_iterations b.iterations

abbrev pub cost_exceeded : Budget → Bool
cost_exceeded b = leb b.max_cost_usd b.cost_usd

abbrev pub exceeded : Budget → Bool
exceeded b = iterations_exhausted b || cost_exceeded b
