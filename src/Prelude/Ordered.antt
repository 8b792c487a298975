-- ===== src/Prelude/Ordered.antt =====
-- An OrderedDict that is kept to a size: the oldest entries go first.
use Prim.Native.Nat.{ℕ, suc, ◌≤◌}
use mathlib.Core.List.{[], ◌∷◌, ◌++◌}
use mathlib.Core.Logic.{◌≢◌, inl, inr}
use mathlib.Core.Option.{none, some}
use mathlib.Core.Path.{◌≡◌, refl}
use native.Mathlib.Omega.{arith}
use personal_portfolio_analy.Prelude.Lists.{length}
use personal_portfolio_analy.Prelude.Tests.{Bool-cases, leb, ◌==◌, if◌then◌else◌}
use personal_portfolio_analy.Prelude.Dict.{Dict, lookup, pop}

-- `while len(d) > max: d.popitem(last=False)`
abbrev pub trim {ℓ} : {V : Type ℓ} → ℕ → Dict V → Dict V
trim max [] = []
trim max (e ∷ d) = let rest = trim max d in if leb (length (e ∷ d)) max then e ∷ d else rest

-- `d[key] = v; d.move_to_end(key)`, then the trim to the size
abbrev pub put {ℓ} : {V : Type ℓ} → ℕ → ℕ → V → Dict V → Dict V
put max key v d = trim max (pop key d ++ (key, v) ∷ [])

module _ {ℓ} {V : Type ℓ} where
  pub lookup-pop : (key : ℕ) (d : Dict V) → lookup key (pop key d) ≡ none
  lookup-pop key [] = refl
  lookup-pop key (e ∷ d) = elim (Bool-cases (e.0 == key)) [
    | inl same ↦ rw same (lookup-pop key d)
    | inr differ ↦ rw (differ, differ) (lookup-pop key d)
  ]

  pub lookup-append :
      (key : ℕ) (v : V) (d : Dict V)
      → lookup key d ≡ none
      → lookup key (d ++ (key, v) ∷ []) ≡ some v
  lookup-append key v [] absent = ground arith
  lookup-append key v (e ∷ d) absent = elim (Bool-cases (e.0 == key)) [
    | inl same ↦ ground (arith, absent)
    | inr differ ↦ rw differ (lookup-append key v d (ground (arith, absent)))
  ]

  -- The trim to one entry or more keeps the newest.
  pub lookup-trim :
      (n key : ℕ) (v : V) (d : Dict V)
      → lookup key d ≡ none
      → lookup key (trim (suc n) (d ++ (key, v) ∷ [])) ≡ some v
  lookup-trim n key v [] absent = ground arith
  lookup-trim n key v (e ∷ d) absent = elim (Bool-cases (e.0 == key)) [
    | inl same ↦ ground (arith, absent)
    | inr differ ↦
        let rest_absent : (lookup key d ≡ none) = ground (arith, absent) in
        elim (Bool-cases (leb (length (e ∷ (d ++ (key, v) ∷ []))) (suc n))) [
          | inl fits ↦ rw (fits, differ) (lookup-append key v d rest_absent)
          | inr over ↦ rw over (lookup-trim n key v d rest_absent)
        ]
  ]

  pub length-trim : (n : ℕ) (d : Dict V) → length (trim n d) ≤ n
  length-trim n [] = omega arith
  length-trim n (e ∷ d) = ground (arith, length-trim n d)

  pub absent-pop : (key k : ℕ) (d : Dict V) → lookup key d ≡ none → lookup key (pop k d) ≡ none
  absent-pop key k [] h = h
  absent-pop key k (e ∷ d) h = elim (Bool-cases (e.0 == key)) [
    | inl same ↦ ground (arith, h)
    | inr differ ↦
        let rest = absent-pop key k d (ground (arith, h)) in
        elim (Bool-cases (e.0 == k)) [ inl gone ↦ rw gone rest | inr kept ↦ rw (kept, differ) rest ]
  ]

  absent-append :
      (key k : ℕ) (v : V) (d : Dict V)
      → key ≢ k
      → lookup key d ≡ none
      → lookup key (d ++ (k, v) ∷ []) ≡ none
  absent-append key k v [] ne h = ground arith
  absent-append key k v (e ∷ d) ne h = elim (Bool-cases (e.0 == key)) [
    | inl same ↦ ground (arith, h)
    | inr differ ↦ rw differ (absent-append key k v d ne (ground (arith, h)))
  ]

  absent-trim : (n key : ℕ) (d : Dict V) → lookup key d ≡ none → lookup key (trim n d) ≡ none
  absent-trim n key [] h = h
  absent-trim n key (e ∷ d) h = elim (Bool-cases (leb (length (e ∷ d)) n)) [
    | inl fits ↦ rw fits h
    | inr over ↦ rw over (absent-trim n key d (ground (arith, h)))
  ]

  -- A key that is not there is not there after another is put.
  pub absent-put :
      (n key k : ℕ) (v : V) (d : Dict V)
      → key ≢ k
      → lookup key d ≡ none
      → lookup key (put n k v d) ≡ none
  absent-put n key k v d ne h =
      absent-trim n key (pop k d ++ (k, v) ∷ [])
        (absent-append key k v (pop k d) ne (absent-pop key k d h))
