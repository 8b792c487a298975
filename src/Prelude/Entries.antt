-- ===== src/Prelude/Entries.antt =====
-- Properties of all entries of a `Dict`, through what is kept, put, evicted and looked up.
use Prim.Native.Nat.{ℕ}
use mathlib.Core.Bool.{Bool}
use mathlib.Core.List.{List, [], ◌∷◌, ◌++◌}
use mathlib.Core.Logic.{◌≢◌, inl, inr}
use mathlib.Core.Option.{some}
use mathlib.Core.Path.{◌≡◌}
use native.Mathlib.Omega.{arith}
use personal_portfolio_analy.Prelude.Lists.{All, keep, length}
use personal_portfolio_analy.Prelude.Tests.{Bool-cases, leb, ◌==◌}
use personal_portfolio_analy.Prelude.Dict.{Dict, lookup, pop}
use personal_portfolio_analy.Prelude.Ordered.{trim, put}

module _ {ℓ κ} {A : Type ℓ} (P : A → Type κ) where
  pub All-keep : (p : A → Bool) (xs : List A) → All P xs → All P (keep p xs)
  All-keep p [] h = tt
  All-keep p (x ∷ xs) h = elim (Bool-cases (p x)) [
    | inl stays ↦ rw stays (h.0, All-keep p xs h.1)
    | inr goes ↦ rw goes (All-keep p xs h.1)
  ]

  All-append : (x : A) (xs : List A) → P x → All P xs → All P (xs ++ x ∷ [])
  All-append x [] px h = (px, tt)
  All-append x (y ∷ xs) px h = (h.0, All-append x xs px h.1)

module _ {ℓ κ} {V : Type ℓ} (P : ℕ × V → Type κ) where
  All-trim : (n : ℕ) (d : Dict V) → All P d → All P (trim n d)
  All-trim n [] h = tt
  All-trim n (e ∷ d) h = elim (Bool-cases (leb (length (e ∷ d)) n)) [
    | inl fits ↦ rw fits h
    | inr over ↦ rw over (All-trim n d h.1)
  ]

  pub All-put : (n k : ℕ) (v : V) (d : Dict V) → P (k, v) → All P d → All P (put n k v d)
  All-put n k v d pv h = All-trim n _ (All-append P (k, v) _ pv (All-keep P _ d h))

  pub All-lookup : (k : ℕ) (v : V) (d : Dict V) → All P d → lookup k d ≡ some v → P (k, v)
  All-lookup k v [] h found = absurd (ground (arith, found))
  All-lookup k v ((j, w) ∷ d) h found = elim (Bool-cases (j == k)) [
    | inl here ↦
        let same_key : (j ≡ k) = ground (arith, here) in
        let same : (w ≡ v) = ground (arith, found, here) in rw (same_key, same) at h.0
    | inr there ↦ All-lookup k v d h.1 (ground (arith, found, there))
  ]

-- No entry has the key that is popped.
pub pop-ne : {V : Type 0} → (k : ℕ) (d : Dict V) → All (λ e. e.0 ≢ k) (pop k d)
pop-ne k [] = tt
pop-ne k (e ∷ d) = elim (Bool-cases (e.0 == k)) [
  | inl same ↦ rw same (pop-ne k d)
  | inr differ ↦ rw differ (ground (arith, differ), pop-ne k d)
]
