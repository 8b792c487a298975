-- ===== src/TrackRecord.antt =====
-- app/quant/trackrecord.py: the returns of published lists of picks. A date is the number of its
-- day, a ticker its place in the alphabetical order of tickers, a price a number of the least unit;
-- a series is one list of bars. The mean of returns and its rounding are arithmetic on floats: a
-- horizon's result keeps the bars that they are computed from.
pub mod Bisect
pub mod Series
pub mod Hindsight
use personal_portfolio_analy.Prelude.{
  ℕ, zero, suc, ◌+◌, ◌-◌, ◌/◌, ◌<◌, Bool, true, false, not, ◌&&◌, ◌||◌, Option, none, some, List,
  [], ◌∷◌, ◌++◌, min, max, map, length, keep, ltb, leb, ◌==◌, if◌then◌else◌,
}
use personal_portfolio_analy.Prelude.Dict.{Dict, lookup, insert}

-- A date and its price.
abbrev pub Bar : Type 0
Bar = ℕ × ℕ

-- The order of Python's pairs.
abbrev pub bar_le : Bar → Bar → Bool
bar_le a b = if a.0 == b.0 then leb a.1 b.1 else ltb a.0 b.0

abbrev pub insort : Bar → List Bar → List Bar
insort b [] = b ∷ []
insort b (c ∷ bs) = let rest = insort b bs in if bar_le b c then b ∷ c ∷ bs else c ∷ rest

abbrev pub sorted : List Bar → List Bar
sorted [] = []
sorted (b ∷ bs) = insort b (sorted bs)

-- The rows that have a price above 0.
abbrev pub priced : List (ℕ × Option ℕ) → List Bar
priced [] = []
priced ((d, none) ∷ rows) = priced rows
priced ((d, some p) ∷ rows) = if ltb 0 p then (d, p) ∷ priced rows else priced rows

-- The last of the bars with one date, in a sorted list.
abbrev pub dedupe : List Bar → List Bar
dedupe [] = []
dedupe (b ∷ []) = b ∷ []
dedupe (b ∷ c ∷ bs) = let rest = dedupe (c ∷ bs) in if b.0 == c.0 then rest else b ∷ rest

unfoldable pub clean_series : List (ℕ × Option ℕ) → List Bar
clean_series rows = dedupe (sorted (priced rows))

abbrev pub get_elem? : ℕ → List Bar → Option Bar
get_elem? i [] = none
get_elem? zero (b ∷ bs) = some b
get_elem? (suc i) (b ∷ bs) = get_elem? i bs

-- Whether the bar at an index is one that the search goes past.
abbrev pub passes : (ℕ → Bool) → ℕ → List Bar → Bool
passes p i bs = elim (get_elem? i bs) [ none ↦ false | some b ↦ p b.0 ]

-- The loop of `bisect`: the search between two indices, with as many rounds as it may take.
unfoldable pub bisect : (ℕ → Bool) → List Bar → ℕ → ℕ → ℕ → ℕ
bisect p bs zero lo hi = lo
bisect p bs (suc rounds) lo hi =
    let mid = (lo + hi) / 2 in
    let right = bisect p bs rounds (mid + 1) hi in
    let left = bisect p bs rounds lo mid in
    if ltb lo hi then if passes p mid bs then right else left else lo

abbrev pub bar_before_index : ℕ → List Bar → Option Bar
bar_before_index zero bs = none
bar_before_index (suc i) bs = get_elem? i bs

-- `last_before`, on `bisect_left`
unfoldable pub last_before : List Bar → ℕ → Option Bar
unfolding bisect
last_before bs day = bar_before_index (bisect (λ d. ltb d day) bs (length bs) 0 (length bs)) bs

-- `last_on_or_before`, on `bisect_right`
unfoldable pub last_on_or_before : List Bar → ℕ → Option Bar
unfolding bisect
last_on_or_before bs day =
    bar_before_index (bisect (λ d. leb d day) bs (length bs) 0 (length bs)) bs

pub record Entry : Type 0 where
  pub run_date : ℕ
  pub ticker : ℕ
  pub rank : ℕ

abbrev dict_at : ℕ → Dict (Dict ℕ) → Dict ℕ
dict_at k d = elim (lookup k d) [ none ↦ [] | some v ↦ v ]

abbrev best_rank : ℕ → ℕ → Dict ℕ → ℕ
best_rank ticker rank ranks = elim (lookup ticker ranks) [ none ↦ rank | some r ↦ min rank r ]

-- `by_run`, onto the entries there are
abbrev pub group : Dict (Dict ℕ) → List Entry → Dict (Dict ℕ)
group d [] = d
group d (e ∷ es) =
    let ranks = dict_at e.run_date d in
    group (insert e.run_date (insert e.ticker (best_rank e.ticker e.rank ranks) ranks) d) es

abbrev ranked_le : ℕ × ℕ → ℕ × ℕ → Bool
ranked_le a b = if a.1 == b.1 then leb a.0 b.0 else ltb a.1 b.1

abbrev insort_rank : ℕ × ℕ → Dict ℕ → Dict ℕ
insort_rank a [] = a ∷ []
insort_rank a (b ∷ bs) =
    let rest = insort_rank a bs in if ranked_le a b then a ∷ b ∷ bs else b ∷ rest

-- The tickers by rank, then by name.
abbrev pub members_of : Dict ℕ → Dict ℕ
members_of [] = []
members_of (a ∷ ranks) = insort_rank a (members_of ranks)

abbrev insort_run : ℕ × Dict ℕ → Dict (Dict ℕ) → Dict (Dict ℕ)
insort_run a [] = a ∷ []
insort_run a (b ∷ bs) = let rest = insort_run a bs in if leb a.0 b.0 then a ∷ b ∷ bs else b ∷ rest

abbrev by_date : Dict (Dict ℕ) → Dict (Dict ℕ)
by_date [] = []
by_date (a ∷ runs) = insort_run a (by_date runs)

-- `_cohorts`
unfoldable pub cohorts : List Entry → Dict (List ℕ)
cohorts entries = map (λ r. (r.0, map (λ m. m.0) (members_of r.1))) (by_date (group [] entries))

-- A horizon that is reported: the benchmark's bars, and each measured member's.
pub record Slot : Type 0 where
  pub bench_entry : Bar
  pub bench_exit : Bar
  pub returns : List (Bar × Bar)

-- The entry and the exit of a series over a run's horizon, where a bar lies behind the entry.
abbrev pub span_of : Option Bar → Option Bar → Option (Bar × Bar)
span_of none _ = none
span_of (some entry) none = none
span_of (some entry) (some exit) = if leb exit.0 entry.0 then none else some (entry, exit)

abbrev pub span : List Bar → ℕ → ℕ → Option (Bar × Bar)
span bs run_date end = span_of (last_before bs run_date) (last_on_or_before bs end)

abbrev pub member_span : Dict (List Bar) → ℕ → ℕ → ℕ → Option (Bar × Bar)
member_span series run_date end t = elim (lookup t series) [
  | none ↦ none
  | some bs ↦ span bs run_date end
]

abbrev pub with_span : Option (Bar × Bar) → List (Bar × Bar) → List (Bar × Bar)
with_span none rets = rets
with_span (some r) rets = r ∷ rets

-- `rets`
abbrev pub measured_returns : Dict (List Bar) → ℕ → ℕ → List ℕ → List (Bar × Bar)
measured_returns series run_date end [] = []
measured_returns series run_date end (t ∷ ts) =
    with_span (member_span series run_date end t) (measured_returns series run_date end ts)

abbrev pub latest : List Bar → Option ℕ
latest [] = none
latest (b ∷ []) = some b.0
latest (b ∷ c ∷ bs) = latest (c ∷ bs)

-- `latest_bench is not None and end <= latest_bench`
abbrev pub is_elapsed : List Bar → ℕ → Bool
is_elapsed bench end = elim (latest bench) [ none ↦ false | some day ↦ leb end day ]

abbrev pub slot_of : Option (Bar × Bar) → List (Bar × Bar) → Option Slot
slot_of none _ = none
slot_of (some b) [] = none
slot_of (some b) (r ∷ rs) = some (record { bench_entry = b.0; bench_exit = b.1; returns = r ∷ rs })

abbrev pub slot_with : List Bar → ℕ → ℕ → List (Bar × Bar) → Option Slot
slot_with bench run_date end returns =
    if not (is_elapsed bench end) then none else slot_of (span bench run_date end) returns

-- The slot of a cohort for one of `horizons_days`
unfoldable pub horizon_slot : List Bar → Dict (List Bar) → ℕ → List ℕ → ℕ → Option Slot
unfolding last_before last_on_or_before
horizon_slot bench series run_date members h =
    slot_with bench run_date (run_date + h)
      (measured_returns series run_date (run_date + h) members)

pub record Cohort : Type 0 where
  pub run_date : ℕ
  pub members : ℕ
  pub measured : ℕ
  pub horizons : List (Option Slot)

abbrev measured_of : List (Option Slot) → ℕ
measured_of [] = 0
measured_of (none ∷ slots) = measured_of slots
measured_of (some s ∷ slots) = max (length s.returns) (measured_of slots)

unfoldable pub cohort_of : List ℕ → List Bar → Dict (List Bar) → ℕ × List ℕ → Cohort
unfolding horizon_slot
cohort_of horizons_days bench series run =
    let slots = map (horizon_slot bench series run.0 run.1) horizons_days in
    record {
      run_date = run.0;
      members = length run.1;
      measured = measured_of slots;
      horizons = slots;
    }

abbrev reversed : List Cohort → List Cohort
reversed [] = []
reversed (c ∷ cs) = reversed cs ++ c ∷ []

-- The cohorts of `cohort_returns`, newest first
unfoldable pub cohort_returns :
    List ℕ → List Entry → Dict (List (ℕ × Option ℕ)) → List (ℕ × Option ℕ) → List Cohort
unfolding clean_series cohorts cohort_of
cohort_returns horizons_days entries prices benchmark =
    let series : Dict (List Bar) = map (λ e. (e.0, clean_series e.1)) prices in
    reversed (map (cohort_of horizons_days (clean_series benchmark) series) (cohorts entries))
