-- ===== src/Snapshot/Flights.antt =====
-- The rebuilds in flight of app/perf/snapshot.py: one for a section.
use personal_portfolio_analy.Prelude.{
  ℕ, ◌+◌, ◌≤◌, ◌≡◌, false, List, [], ◌∷◌, ◌++◌, arith, length, keep, any, inl, inr, Bool-cases,
  Option-cases, ◌==◌, ◌&&◌,
}
use personal_portfolio_analy.Snapshot.{
  World, Flight, Progress, waiting, fetched, failed, is_for, refresh, set_progress, land,
  progress_of, finish, Step, Reach, served, stored, dropped, cleared, refreshed, builder_read,
  builder_raised, finished, changed, here, next,
}

-- How many rebuilds of a section are in flight.
abbrev pub flying : ℕ → ℕ → List Flight → ℕ
flying user name flights = length (keep (is_for user name) flights)

module _ (user name : ℕ) where
  none-flying : (fs : List Flight) → any (is_for user name) fs ≡ false → flying user name fs ≡ 0
  none-flying [] h = omega arith
  none-flying (f ∷ fs) h = elim (Bool-cases (is_for user name f)) [
    | inl mine ↦ ground (arith, mine, h)
    | inr other ↦ rw other (none-flying fs (ground (arith, other, h)))
  ]

  flying-launched :
      (u n : ℕ) (p : Progress) (fs : List Flight)
      → flying user name (fs ++ record { user = u; name = n; progress = p } ∷ [])
        ≡ flying user name fs + flying user name (record { user = u; name = n; progress = p } ∷ [])
  flying-launched u n p [] = omega arith
  flying-launched u n p (f ∷ fs) = elim (Bool-cases (is_for user name f)) [
    | inl mine ↦ let ih = flying-launched u n p fs in rw mine (omega (arith, ih))
    | inr other ↦ let ih = flying-launched u n p fs in rw other ih
  ]

  -- The launch of a rebuild of a section that has none.
  launch-le :
      (u n : ℕ) (fs : List Flight)
      → flying user name fs ≤ 1
      → any (is_for u n) fs ≡ false
      → flying user name (fs ++ record { user = u; name = n; progress = waiting } ∷ []) ≤ 1
  launch-le u n fs h free =
      let split = flying-launched u n waiting fs in
      elim (Bool-cases (u == user && n == name)) [
        | inl mine ↦
            let same : (user ≡ u) × (name ≡ n) = (ground (arith, mine), ground (arith, mine)) in
            let empty = none-flying fs (rw (same.0, same.1) free) in
            let added = rw mine at split in omega (arith, added, empty)
        | inr other ↦ let added = rw other at split in omega (arith, added, h)
      ]

  refresh-le :
      (u : ℕ) (names : List ℕ) (fs : List Flight)
      → flying user name fs ≤ 1
      → flying user name (refresh u names fs) ≤ 1
  unfolding refresh
  refresh-le u [] fs h = h
  refresh-le u (n ∷ ns) fs h = elim (Bool-cases (any (is_for u n) fs)) [
    | inl flies ↦ rw (refresh, flies) (refresh-le u ns fs h)
    | inr free ↦
        rw (refresh, free)
          (refresh-le u ns (fs ++ record { user = u; name = n; progress = waiting } ∷ [])
            (launch-le u n fs h free))
  ]

  flying-set_progress :
      (u n : ℕ) (p : Progress) (fs : List Flight)
      → flying user name (set_progress u n p fs) ≡ flying user name fs
  flying-set_progress u n p [] = omega arith
  flying-set_progress u n p (f ∷ fs) =
      let ih = flying-set_progress u n p fs in
      elim (Bool-cases (is_for u n f)) [
        | inl hit ↦ elim (Bool-cases (is_for user name f)) [
          | inl mine ↦ rw (hit, mine) (omega (arith, ih))
          | inr other ↦ rw (hit, other) ih
        ]
        | inr miss ↦ elim (Bool-cases (is_for user name f)) [
          | inl mine ↦ rw (miss, mine) (omega (arith, ih))
          | inr other ↦ rw (miss, other) ih
        ]
      ]

  flying-land : (u n : ℕ) (fs : List Flight) → flying user name (land u n fs) ≤ flying user name fs
  flying-land u n [] = omega arith
  flying-land u n (f ∷ fs) =
      let ih = flying-land u n fs in
      elim (Bool-cases (is_for u n f)) [
        | inl hit ↦ elim (Bool-cases (is_for user name f)) [
          | inl mine ↦ rw (hit, mine) (omega (arith, ih))
          | inr other ↦ rw (hit, other) ih
        ]
        | inr miss ↦ elim (Bool-cases (is_for user name f)) [
          | inl mine ↦ rw (miss, mine) (omega (arith, ih))
          | inr other ↦ rw (miss, other) ih
        ]
      ]

  finish-le :
      (u n now : ℕ) (w : World)
      → flying user name w.inflight ≤ 1
      → flying user name (finish u n now w).inflight ≤ 1
  unfolding finish
  finish-le u n now w h =
      let landed = flying-land u n w.inflight in
      elim (Option-cases (progress_of u n w.inflight)) [
        | inl absent ↦ rw (finish, absent) h
        | inr (waiting, found) ↦ rw (finish, found) h
        | inr (fetched d, found) ↦ rw (finish, found) (omega (arith, landed, h))
        | inr (failed, found) ↦ rw (finish, found) (omega (arith, landed, h))
      ]

  Step-le :
      {w w' : World}
      → Step w w'
      → flying user name w.inflight ≤ 1
      → flying user name w'.inflight ≤ 1
  Step-le (served is_open u now w) h = h
  Step-le (stored u n d now w) h = h
  Step-le (dropped u ns w) h = h
  Step-le (cleared w) h = h
  Step-le (refreshed u ns w) h = refresh-le u ns w.inflight h
  Step-le (builder_read u n w) h =
      let same = flying-set_progress u n (fetched (w.source u n)) w.inflight in
      omega (arith, same, h)
  Step-le (builder_raised u n w) h =
      let same = flying-set_progress u n failed w.inflight in omega (arith, same, h)
  Step-le (finished u n now w) h = finish-le u n now w h
  Step-le (changed u n v w) h = h

-- Whatever requests, rebuilds and writes do, in any order, no section of a user has two rebuilds
-- in flight, if at the start none has.
pub single_flight :
    (user name : ℕ) {w w' : World}
    → Reach w w'
    → flying user name w.inflight ≤ 1
    → flying user name w'.inflight ≤ 1
single_flight user name here h = h
single_flight user name (next r st) h = Step-le user name st (single_flight user name r h)
