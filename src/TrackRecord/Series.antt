-- ===== src/TrackRecord/Series.antt =====
-- What `clean_series` of app/quant/trackrecord.py keeps of the rows of a series.
use personal_portfolio_analy.Prelude.{
  ℕ, ◌≤◌, ◌<◌, ◌≡◌, refl, sym, true, false, Option, none, some, List, [], ◌∷◌, arith, All, All-map,
  All-zip, ltb→lt, ltb, inl, inr, Bool-cases, ◌==◌, eq_self,
}
use mathlib.Core.Path.{subst}
use personal_portfolio_analy.Prelude.Dict.{lookup}
use personal_portfolio_analy.TrackRecord.{Bar, bar_le, insort, sorted, priced, dedupe, clean_series}
use personal_portfolio_analy.TrackRecord.Bisect.{IsSorted}

-- The order of pairs, along a list.
abbrev IsOrdered : List Bar → Type 0
IsOrdered [] = Unit
IsOrdered (b ∷ bs) = All (λ c. bar_le b c ≡ true) bs × IsOrdered bs

bar_le_trans : (a b c : Bar) → bar_le a b ≡ true → bar_le b c ≡ true → bar_le a c ≡ true
bar_le_trans a b c h k = ground (arith, h, k)

bar_le_total : (a b : Bar) → bar_le a b ≡ false → bar_le b a ≡ true
bar_le_total a b h = ground (arith, h)

bar_le_dates : (a b : Bar) → bar_le a b ≡ true → a.0 ≤ b.0
bar_le_dates a b h = ground (arith, h)

module _ (P : Bar → Type 0) where
  All-insort : (b : Bar) (bs : List Bar) → P b → All P bs → All P (insort b bs)
  All-insort b [] h k = (h, tt)
  All-insort b (c ∷ bs) h k = elim (Bool-cases (bar_le b c)) [
    | inl first ↦ rw first (h, k)
    | inr later ↦ rw later (k.0, All-insort b bs h k.1)
  ]

  insort-All : (b : Bar) (bs : List Bar) → All P (insort b bs) → P b × All P bs
  insort-All b [] h = (h.0, tt)
  insort-All b (c ∷ bs) h = elim (Bool-cases (bar_le b c)) [
    | inl first ↦ let all = rw first at h in (all.0, all.1)
    | inr later ↦
        let all = rw later at h in let rest = insort-All b bs all.1 in (rest.0, (all.0, rest.1))
  ]

  sorted-All : (bs : List Bar) → All P (sorted bs) → All P bs
  sorted-All [] h = tt
  sorted-All (b ∷ bs) h = let split = insort-All b (sorted bs) h in (split.0, sorted-All bs split.1)

  All-sorted : (bs : List Bar) → All P bs → All P (sorted bs)
  All-sorted [] h = tt
  All-sorted (b ∷ bs) h = All-insort b (sorted bs) h.0 (All-sorted bs h.1)

  All-dedupe : (bs : List Bar) → All P bs → All P (dedupe bs)
  All-dedupe [] h = tt
  All-dedupe (b ∷ []) h = h
  All-dedupe (b ∷ c ∷ bs) h =
      let rest = All-dedupe (c ∷ bs) h.1 in
      elim (Bool-cases (b.0 == c.0)) [
        | inl same ↦ rw same rest
        | inr differ ↦ rw differ (h.0, rest)
      ]

insort-IsOrdered : (b : Bar) (bs : List Bar) → IsOrdered bs → IsOrdered (insort b bs)
insort-IsOrdered b [] h = (tt, tt)
insort-IsOrdered b (c ∷ bs) h = elim (Bool-cases (bar_le b c)) [
  | inl first ↦ rw first ((first, All-map bs (λ d above. bar_le_trans b c d first above) h.0), h)
  | inr later ↦ rw later (
    All-insort (λ d. bar_le c d ≡ true) b bs (bar_le_total b c later) h.0,
    insort-IsOrdered b bs h.1,
  )
]

sorted-IsOrdered : (bs : List Bar) → IsOrdered (sorted bs)
sorted-IsOrdered [] = tt
sorted-IsOrdered (b ∷ bs) = insort-IsOrdered b (sorted bs) (sorted-IsOrdered bs)

-- The dates behind a bar of a later date than the next are later too.
later-dates :
    (b c : Bar) (bs : List Bar)
    → b.0 < c.0
    → All (λ d. bar_le c d ≡ true) bs
    → All (λ d. b.0 < d.0) (c ∷ bs)
later-dates b c bs less above =
    (less, All-map bs (λ d le. let dates = bar_le_dates c d le in omega (arith, less, dates)) above)

next-date : (b c : Bar) → bar_le b c ≡ true → b.0 == c.0 ≡ false → b.0 < c.0
next-date b c h k = ground (arith, h, k)

dedupe-IsSorted : (bs : List Bar) → IsOrdered bs → IsSorted (dedupe bs)
dedupe-IsSorted [] h = tt
dedupe-IsSorted (b ∷ []) h = (tt, tt)
dedupe-IsSorted (b ∷ c ∷ bs) h =
    let rest = dedupe-IsSorted (c ∷ bs) h.1 in
    elim (Bool-cases (b.0 == c.0)) [
      | inl same ↦ rw same rest
      | inr differ ↦
          let later = later-dates b c bs (next-date b c h.0.0 differ) h.1.0 in
          rw differ (All-dedupe (λ d. b.0 < d.0) (c ∷ bs) later, rest)
    ]

-- A cleaned series has its dates in ascending order, none twice.
pub clean_series-IsSorted : (rows : List (ℕ × Option ℕ)) → IsSorted (clean_series rows)
unfolding clean_series
clean_series-IsSorted rows = dedupe-IsSorted (sorted (priced rows)) (sorted-IsOrdered (priced rows))

-- The series has a price for the bar's date, no lower than the bar's.
abbrev pub Covers : List Bar → Bar → Type 0
Covers bs b = (q : ℕ) × (lookup b.0 bs ≡ some q) × (b.1 ≤ q)

Covers-self : (b : Bar) (bs : List Bar) → Covers (b ∷ bs) b
Covers-self b bs = (b.1, rw (eq_self b.0) refl, omega arith)

Covers-later : (b d : Bar) (bs : List Bar) → b.0 < d.0 → Covers bs d → Covers (b ∷ bs) d
Covers-later b d bs less h =
    let (q, found, high) = h in
    let differ : (b.0 == d.0 ≡ false) = ground (arith, less) in (q, rw differ found, high)

Covers-same :
    (b c : Bar) (bs : List Bar) → bar_le b c ≡ true → b.0 == c.0 ≡ true → Covers bs c → Covers bs b
Covers-same b c bs le same h =
    let (q, found, high) = h in
    let date : (b.0 ≡ c.0) = ground (arith, same) in
    let price : (b.1 ≤ c.1) = ground (arith, le, same) in
    (q, rw date found, omega (arith, price, high))

dedupe-Covers : (bs : List Bar) → IsOrdered bs → All (Covers (dedupe bs)) bs
dedupe-Covers [] h = tt
dedupe-Covers (b ∷ []) h = (Covers-self b [], tt)
dedupe-Covers (b ∷ c ∷ bs) h =
    let rest = dedupe-Covers (c ∷ bs) h.1 in
    elim (Bool-cases (b.0 == c.0)) [
      | inl same ↦
          let kept : (dedupe (b ∷ c ∷ bs) ≡ dedupe (c ∷ bs)) = rw same refl in
          subst (λ ds. All (Covers ds) (b ∷ c ∷ bs)) (sym kept)
            (Covers-same b c (dedupe (c ∷ bs)) h.0.0 same rest.0, rest)
      | inr differ ↦
          let later = later-dates b c bs (next-date b c h.0.0 differ) h.1.0 in
          let kept : (dedupe (b ∷ c ∷ bs) ≡ b ∷ dedupe (c ∷ bs)) = rw differ refl in
          subst (λ ds. All (Covers ds) (b ∷ c ∷ bs)) (sym kept)
            (
              Covers-self b (dedupe (c ∷ bs)),
              All-zip (c ∷ bs) (λ d less h. Covers-later b d (dedupe (c ∷ bs)) less h) later rest,
            )
    ]

clean-Covers : (rows : List (ℕ × Option ℕ)) → All (Covers (clean_series rows)) (priced rows)
unfolding clean_series
clean-Covers rows =
    sorted-All (Covers (dedupe (sorted (priced rows)))) (priced rows)
      (dedupe-Covers (sorted (priced rows)) (sorted-IsOrdered (priced rows)))

-- A row that has a price above 0.
abbrev pub IsCovered : List Bar → ℕ × Option ℕ → Type 0
IsCovered bs (d, none) = Unit
IsCovered bs (d, some p) = 0 < p → Covers bs (d, p)

priced-All :
    (bs : List Bar) (rows : List (ℕ × Option ℕ))
    → All (Covers bs) (priced rows)
    → All (IsCovered bs) rows
priced-All bs [] h = tt
priced-All bs ((d, none) ∷ rows) h = (tt, priced-All bs rows h)
priced-All bs ((d, some p) ∷ rows) h = elim (Bool-cases (ltb 0 p)) [
  | inl above ↦ let all = rw above at h in ((λ _. all.0), priced-All bs rows all.1)
  | inr zero_price ↦
      ((λ above. ground (arith, above, zero_price)), priced-All bs rows (rw zero_price at h))
]

positive-priced : (rows : List (ℕ × Option ℕ)) → All (λ b. 0 < b.1) (priced rows)
positive-priced [] = tt
positive-priced ((d, none) ∷ rows) = positive-priced rows
positive-priced ((d, some p) ∷ rows) = elim (Bool-cases (ltb 0 p)) [
  | inl above ↦ rw above (ltb→lt 0 p above, positive-priced rows)
  | inr zero_price ↦ rw zero_price (positive-priced rows)
]

-- A cleaned series has its dates in ascending order, none twice, and prices above 0; for each row
-- that has a price above 0 it has a bar of the row's date, at the row's price or a higher one.
pub clean_series_lem :
    (rows : List (ℕ × Option ℕ))
    → IsSorted (clean_series rows)
      × All (λ b. 0 < b.1) (clean_series rows)
      × All (IsCovered (clean_series rows)) rows
unfolding clean_series
clean_series_lem rows = (
  clean_series-IsSorted rows,
  All-dedupe (λ b. 0 < b.1) (sorted (priced rows))
      (All-sorted (λ b. 0 < b.1) (priced rows) (positive-priced rows)),
  priced-All (clean_series rows) rows (clean-Covers rows),
)
