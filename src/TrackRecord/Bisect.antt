-- ===== src/TrackRecord/Bisect.antt =====
-- The look-ups of app/quant/trackrecord.py find, by bisection, the last bar before a day.
use personal_portfolio_analy.Prelude.{
  ℕ, zero, suc, ◌+◌, ◌/◌, ◌≤◌, ◌<◌, ◌≡◌, refl, ◌∙◌, ap, Bool, false, Option, none, some, List, [],
  ◌∷◌, arith, All, length, keep, ltb, leb, inl, inr, Bool-cases, if◌then◌else◌,
}
use personal_portfolio_analy.TrackRecord.{
  Bar, get_elem?, passes, bisect, bar_before_index, last_before, last_on_or_before,
}

-- The dates ascend, with none twice.
abbrev pub IsSorted : List Bar → Type 0
IsSorted [] = Unit
IsSorted (b ∷ bs) = All (λ c. b.0 < c.0) bs × IsSorted bs

-- The last of the bars whose date passes a test.
abbrev pub last_of : List Bar → Option Bar
last_of [] = none
last_of (b ∷ []) = some b
last_of (b ∷ c ∷ bs) = last_of (c ∷ bs)

abbrev pub last_where : (ℕ → Bool) → List Bar → Option Bar
last_where p bs = last_of (keep (λ b. p b.0) bs)

module _ (p : ℕ → Bool) where
  bisect-finds :
      (bs : List Bar) (n rounds lo hi : ℕ)
      → ((i : ℕ) → passes p i bs ≡ ltb i n)
      → lo ≤ n
      → n ≤ hi
      → hi ≤ lo + rounds
      → bisect p bs rounds lo hi ≡ n
  unfolding bisect
  bisect-finds bs n zero lo hi cut a b enough = omega (arith, a, b, enough)
  bisect-finds bs n (suc rounds) lo hi cut a b enough = elim (Bool-cases (ltb lo hi)) [
    | inr done ↦ rw (bisect, done) (ground (arith, a, b, done))
    | inl more ↦
        let mid = (lo + hi) / 2 in
        let above : (lo ≤ mid) = ground (arith, more) in
        let below : (mid < hi) = ground (arith, more) in
        elim (Bool-cases (ltb mid n)) [
          | inl inside ↦
              rw (bisect, more, cut mid, inside)
                (bisect-finds bs n rounds (mid + 1) hi cut (ground (arith, inside)) b
                  (omega (arith, above, enough)))
          | inr outside ↦
              rw (bisect, more, cut mid, outside)
                (bisect-finds bs n rounds lo mid cut a (ground (arith, outside))
                  (omega (arith, below, enough)))
        ]
  ]

  -- How many bars pass before one does not.
  abbrev prefix : List Bar → ℕ
  prefix [] = 0
  prefix (b ∷ bs) = if p b.0 then suc (prefix bs) else 0

  prefix-le : (bs : List Bar) → prefix bs ≤ length bs
  prefix-le [] = omega arith
  prefix-le (b ∷ bs) = let ih = prefix-le bs in ground (arith, ih)

  -- A date that fails fails all later ones.
  abbrev pub Falls : Type 0
  Falls = (d e : ℕ) → d < e → p d ≡ false → p e ≡ false

  module _ (falls : Falls) where
    fails-after :
        (b : Bar) (bs : List Bar)
        → p b.0 ≡ false
        → All (λ c. b.0 < c.0) bs
        → keep (λ c. p c.0) bs ≡ []
    fails-after b [] failed later = refl
    fails-after b (c ∷ bs) failed later =
        rw (falls b.0 c.0 later.0 failed) (fails-after b bs failed later.1)

    passes-none :
        (b : Bar) (bs : List Bar) (i : ℕ)
        → p b.0 ≡ false
        → All (λ c. b.0 < c.0) bs
        → passes p i bs ≡ false
    passes-none b [] i failed later = refl
    passes-none b (c ∷ bs) zero failed later = falls b.0 c.0 later.0 failed
    passes-none b (c ∷ bs) (suc i) failed later = passes-none b bs i failed later.1

    passes-prefix : (bs : List Bar) (i : ℕ) → IsSorted bs → passes p i bs ≡ ltb i (prefix bs)
    passes-prefix [] i h = ground arith
    passes-prefix (b ∷ bs) zero h = elim (Bool-cases (p b.0)) [
      | inl pass ↦ rw pass (ground arith)
      | inr failed ↦ rw failed refl
    ]
    passes-prefix (b ∷ bs) (suc i) h = elim (Bool-cases (p b.0)) [
      | inl pass ↦ rw pass (passes-prefix bs i h.1 ∙ ground arith)
      | inr failed ↦ rw failed (passes-none b bs i failed h.0 ∙ ground arith)
    ]

    length-prefix : (bs : List Bar) → IsSorted bs → length (keep (λ b. p b.0) bs) ≡ prefix bs
    length-prefix [] h = omega arith
    length-prefix (b ∷ bs) h = elim (Bool-cases (p b.0)) [
      | inl pass ↦ let ih = length-prefix bs h.1 in rw pass (omega (arith, ih))
      | inr failed ↦ rw (failed, fails-after b bs failed h.0) (omega arith)
    ]

    last-cons :
        (b : Bar) (bs ks : List Bar) (n : ℕ)
        → length ks ≡ n
        → bar_before_index n bs ≡ last_of ks
        → get_elem? n (b ∷ bs) ≡ last_of (b ∷ ks)
    last-cons b bs [] zero size e = refl
    last-cons b bs (k ∷ ks) zero size e = ground (arith, size)
    last-cons b bs [] (suc n) size e = ground (arith, size)
    last-cons b bs (k ∷ ks) (suc n) size e = e

    last-prefix : (bs : List Bar) → IsSorted bs → bar_before_index (prefix bs) bs ≡ last_where p bs
    last-prefix [] h = refl
    last-prefix (b ∷ bs) h = elim (Bool-cases (p b.0)) [
      | inl pass ↦ rw pass (
          last-cons b bs (keep (λ c. p c.0) bs) (prefix bs) (length-prefix bs h.1)
            (last-prefix bs h.1))
      | inr failed ↦ rw (failed, fails-after b bs failed h.0) refl
    ]

    -- The bisection ends at the bar that a search through all of them finds.
    pub found-last :
        (bs : List Bar)
        → IsSorted bs
        → bar_before_index (bisect p bs (length bs) 0 (length bs)) bs ≡ last_where p bs
    found-last bs h =
        let found =
          bisect-finds bs (prefix bs) (length bs) 0 (length bs) (λ i. passes-prefix bs i h)
            (omega arith) (prefix-le bs) (omega arith) in
        ap (λ i. bar_before_index i bs) found ∙ last-prefix bs h

ltb-Falls : (day : ℕ) → Falls (λ d. ltb d day)
ltb-Falls day d e later failed = ground (arith, later, failed)

leb-Falls : (day : ℕ) → Falls (λ d. leb d day)
leb-Falls day d e later failed = ground (arith, later, failed)

-- In a series whose dates ascend, with none twice, the two look-ups give the last bar strictly
-- before the day and the last on or before it, as a search through all bars finds them.
pub lookups_are_last :
    (bs : List Bar) (day : ℕ)
    → IsSorted bs
    → (last_before bs day ≡ last_where (λ d. ltb d day) bs)
      × (last_on_or_before bs day ≡ last_where (λ d. leb d day) bs)
unfolding last_before last_on_or_before
lookups_are_last bs day h = (
  found-last (λ d. ltb d day) (ltb-Falls day) bs h,
  found-last (λ d. leb d day) (leb-Falls day) bs h,
)
