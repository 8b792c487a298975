-- ===== src/Agent/Content/Truncation.antt =====
-- What `_truncate` of app/agent/loop.py keeps of a text, and what it counts.
use personal_portfolio_analy.Prelude.{
  ℕ, zero, suc, ◌+◌, ◌≤◌, ◌≡◌, refl, ap, Option, none, some, [], ◌∷◌, arith, length, take, inl, inr,
  Bool-cases, leb,
}
use personal_portfolio_analy.Agent.Value.{Text}
use personal_portfolio_analy.Agent.Content.{Truncated, truncate}

abbrev cut_count : Option ℕ → ℕ
cut_count none = 0
cut_count (some n) = n

-- The first characters of a text, at most the cap, and how many more it has.
pub record IsTruncation (cap : ℕ) (raw : Text) (t : Truncated) : Type 0 where
  pub prefix : t.kept ≡ take cap raw
  pub within : length t.kept ≤ cap
  pub counted : length t.kept + cut_count t.cut ≡ length raw

take-short : (cap : ℕ) (t : Text) → length t ≤ cap → take cap t ≡ t
take-short zero [] h = refl
take-short (suc cap) [] h = refl
take-short zero (c ∷ t) h = absurd (omega (arith, h))
take-short (suc cap) (c ∷ t) h = ap (λ r. c ∷ r) (take-short cap t (omega (arith, h)))

length-take : (cap : ℕ) (t : Text) → cap ≤ length t → length (take cap t) ≡ cap
length-take zero t h = ground arith
length-take (suc cap) [] h = absurd (omega (arith, h))
length-take (suc cap) (c ∷ t) h = let ih = length-take cap t (omega (arith, h)) in omega (arith, ih)

pub truncate-IsTruncation : (raw : Text) (cap : ℕ) → IsTruncation cap raw (truncate raw cap)
unfolding truncate
truncate-IsTruncation raw cap = elim (Bool-cases (leb (length raw) cap)) [
  | inl short ↦
      let le : (length raw ≤ cap) = ground (arith, short) in
      let same = take-short cap raw le in
      rw short (record { prefix = ground (arith, same); within = le; counted = omega arith })
  | inr long ↦
      let gt : (cap ≤ length raw) = ground (arith, long) in
      let full = length-take cap raw gt in
      rw long
        (record { prefix = refl; within = omega (arith, full); counted = omega (arith, full, gt) })
]
