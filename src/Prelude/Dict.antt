-- ===== src/Prelude/Dict.antt =====
-- A mapping keyed by numbers, as an association list in insertion order: a Python dict, an
-- OrderedDict, or a table by its primary key.
use Prim.Native.Nat.{ℕ}
use mathlib.Core.Bool.{not}
use mathlib.Core.List.{List, [], ◌∷◌}
use mathlib.Core.Logic.{◌≢◌}
use mathlib.Core.Option.{Option, none, some}
use mathlib.Core.Path.{◌≡◌, refl}
use native.Mathlib.Omega.{arith}
use personal_portfolio_analy.Prelude.Lists.{keep}
use personal_portfolio_analy.Prelude.Tests.{◌==◌, if◌then◌else◌}

abbrev pub Dict {ℓ} : Type ℓ → Type ℓ
Dict V = List (ℕ × V)

module _ {ℓ} {V : Type ℓ} where
  abbrev pub lookup : ℕ → Dict V → Option V
  lookup k [] = none
  lookup k ((j, v) ∷ d) = if j == k then some v else lookup k d

  -- `d[k] = v`: in place where the key is there, at the end where it is new
  abbrev pub insert : ℕ → V → Dict V → Dict V
  insert k v [] = (k, v) ∷ []
  insert k v ((j, w) ∷ d) = if j == k then (k, v) ∷ d else (j, w) ∷ insert k v d

  -- `d.pop(k, None)`
  abbrev pub erase : ℕ → Dict V → Dict V
  erase k [] = []
  erase k ((j, w) ∷ d) = if j == k then d else (j, w) ∷ erase k d

  -- The dict without the entry of a key.
  abbrev pub pop : ℕ → Dict V → Dict V
  pop k d = keep (λ e. not (e.0 == k)) d

  pub lookup-insert :
      (k j : ℕ) (v : V) (d : Dict V)
      → lookup j (insert k v d) ≡ (if k == j then some v else lookup j d)
  lookup-insert k j v [] = refl
  lookup-insert k j v ((i, w) ∷ d) = ground (arith, lookup-insert k j v d)

  pub lookup-insert_self : (k : ℕ) (v : V) (d : Dict V) → lookup k (insert k v d) ≡ some v
  lookup-insert_self k v d = ground (arith, lookup-insert k k v d)

  pub lookup-insert_ne :
      (k j : ℕ) (v : V) (d : Dict V) → k ≢ j → lookup j (insert k v d) ≡ lookup j d
  lookup-insert_ne k j v d h = ground (arith, lookup-insert k j v d)

  -- Writing what is there changes nothing.
  pub insert_same : (k : ℕ) (v : V) (d : Dict V) → lookup k d ≡ some v → insert k v d ≡ d
  insert_same k v [] e = cc
  insert_same k v ((i, w) ∷ d) e = ground (arith, insert_same k v d)
