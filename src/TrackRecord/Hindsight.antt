-- ===== src/TrackRecord/Hindsight.antt =====
-- The horizons of app/quant/trackrecord.py measure nothing from behind their end.
use personal_portfolio_analy.Prelude.{
  ℕ, ◌+◌, ◌≤◌, ◌<◌, ◌≡◌, refl, sym, ◌∙◌, ap, Bool, true, Option, List, [], ◌∷◌, arith, All, keep,
  none, not, if◌then◌else◌, map, ltb, leb, inl, inr, Bool-cases, ◌==◌,
}
use personal_portfolio_analy.Prelude.Dict.{Dict}
use personal_portfolio_analy.TrackRecord.{
  Bar, clean_series, last_before, last_on_or_before, span_of, span, slot_with, measured_returns,
  horizon_slot, with_span, member_span, is_elapsed, slot_of,
}
use personal_portfolio_analy.TrackRecord.Bisect.{IsSorted, last_of, lookups_are_last}
use personal_portfolio_analy.TrackRecord.Series.{clean_series-IsSorted}

-- The bars on or before a day.
abbrev pub until : ℕ → List Bar → List Bar
until end = keep (λ b. leb b.0 end)

module _ (end : ℕ) where
  keep-until :
      (p : ℕ → Bool) (bs : List Bar)
      → ((d : ℕ) → p d ≡ true → leb d end ≡ true)
      → keep (λ b. p b.0) (until end bs) ≡ keep (λ b. p b.0) bs
  keep-until p [] h = refl
  keep-until p (b ∷ bs) h =
      let ih = keep-until p bs h in
      elim (Bool-cases (p b.0)) [
        | inl pass ↦ rw (h b.0 pass, pass) (ap (λ rest. b ∷ rest) ih)
        | inr failed ↦ elim (Bool-cases (leb b.0 end)) [
          | inl early ↦ rw (early, failed) ih
          | inr late ↦ rw (late, failed) ih
        ]
      ]

  All-until : (P : Bar → Type 0) (bs : List Bar) → All P bs → All P (until end bs)
  All-until P [] h = tt
  All-until P (b ∷ bs) h = elim (Bool-cases (leb b.0 end)) [
    | inl early ↦ rw early (h.0, All-until P bs h.1)
    | inr late ↦ rw late (All-until P bs h.1)
  ]

  until-IsSorted : (bs : List Bar) → IsSorted bs → IsSorted (until end bs)
  until-IsSorted [] h = tt
  until-IsSorted (b ∷ bs) h = elim (Bool-cases (leb b.0 end)) [
    | inl early ↦ rw early (All-until (λ c. b.0 < c.0) bs h.0, until-IsSorted bs h.1)
    | inr late ↦ rw late (until-IsSorted bs h.1)
  ]

  last_before-until :
      (bs : List Bar) (day : ℕ)
      → IsSorted bs
      → day ≤ end
      → last_before (until end bs) day ≡ last_before bs day
  last_before-until bs day h by =
      (lookups_are_last (until end bs) day (until-IsSorted bs h)).0
      ∙ ap last_of (keep-until (λ d. ltb d day) bs (λ d less. ground (arith, less, by)))
      ∙ sym ((lookups_are_last bs day h).0)

  last_on_or_before-until :
      (bs : List Bar)
      → IsSorted bs
      → last_on_or_before (until end bs) end ≡ last_on_or_before bs end
  last_on_or_before-until bs h =
      (lookups_are_last (until end bs) end (until-IsSorted bs h)).1
      ∙ ap last_of (keep-until (λ d. leb d end) bs (λ d le. le))
      ∙ sym ((lookups_are_last bs end h).1)

  span-until :
      (bs : List Bar) (run_date : ℕ)
      → IsSorted bs
      → run_date ≤ end
      → span (until end bs) run_date end ≡ span bs run_date end
  span-until bs run_date h by =
      ap (λ entry. span_of entry (last_on_or_before (until end bs) end))
        (last_before-until bs run_date h by)
      ∙ ap (span_of (last_before bs run_date)) (last_on_or_before-until bs h)

module _ (prices : Dict (List (ℕ × Option ℕ))) (end : ℕ) where
  -- The cleaned series of each ticker, and what they hold on or before the end.
  abbrev pub series : Dict (List Bar)
  series = map (λ e. (e.0, clean_series e.1)) prices

  abbrev pub known_series : Dict (List Bar)
  known_series = map (λ e. (e.0, until end (clean_series e.1))) prices

member_span-until :
    (prices : Dict (List (ℕ × Option ℕ))) (run_date end t : ℕ)
    → run_date ≤ end
    → member_span (known_series prices end) run_date end t
      ≡ member_span (series prices end) run_date end t
member_span-until [] run_date end t by = refl
member_span-until ((k, rows) ∷ prices) run_date end t by = elim (Bool-cases (k == t)) [
  | inl here ↦
      rw (member_span, here)
        (span-until end (clean_series rows) run_date (clean_series-IsSorted rows) by)
  | inr there ↦ rw (member_span, there) (member_span-until prices run_date end t by)
]

returns-until :
    (prices : Dict (List (ℕ × Option ℕ))) (run_date end : ℕ) (members : List ℕ)
    → run_date ≤ end
    → measured_returns (known_series prices end) run_date end members
      ≡ measured_returns (series prices end) run_date end members
returns-until prices run_date end [] by = refl
returns-until prices run_date end (t ∷ ts) by =
    let first = member_span-until prices run_date end t by in
    let rest = returns-until prices run_date end ts by in
    ap (λ o. with_span o (measured_returns (known_series prices end) run_date end ts)) first
    ∙ ap (with_span (member_span (series prices end) run_date end t)) rest

-- The result of a published list for a horizon is computed from prices on or before the horizon's
-- end alone, of the benchmark and of the members alike, once the benchmark has a price on or behind
-- that end; before, there is none.
pub no_hindsight :
    (benchmark : List (ℕ × Option ℕ)) (prices : Dict (List (ℕ × Option ℕ))) (run_date h : ℕ)
    (members : List ℕ)
    → let bench = clean_series benchmark in
      let end = run_date + h in
      horizon_slot bench (series prices end) run_date members h ≡ (
        if not (is_elapsed bench end)
        then none
        else slot_of
            (span (until end bench) run_date end)
            (measured_returns (known_series prices end) run_date end members))
unfolding horizon_slot
no_hindsight benchmark prices run_date h members =
    let bench = clean_series benchmark in
    let end = run_date + h in
    let early : (run_date ≤ end) = omega arith in
    let same = returns-until prices run_date end members early in
    let spans = span-until end bench run_date (clean_series-IsSorted benchmark) early in
    ap (slot_with bench run_date end) (sym same)
    ∙ ap
        (λ sp.
          if not (is_elapsed bench end)
          then none
          else slot_of sp (measured_returns (known_series prices end) run_date end members))
        (sym spans)
