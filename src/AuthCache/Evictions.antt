-- ===== src/AuthCache/Evictions.antt =====
-- What the cache has forgotten once an account is deleted.
use personal_portfolio_analy.Prelude.{
  ℕ, ◌≡◌, ◌≢◌, refl, sym, true, Option, some, List, [], ◌∷◌, arith, All, All-map, any, inl, inr,
  Bool-cases, Option-cases, ◌==◌,
}
use personal_portfolio_analy.Prelude.Dict.{Dict, lookup, pop}
use mathlib.Core.Path.{subst}
use personal_portfolio_analy.AuthCache.Lookups.{get_verified_absent, get_verified_found}
use personal_portfolio_analy.AuthCache.{
  Claims, Cache, keys_for, pop_all, get_verified, evict_tokens_for,
}

module _ (auth_id : ℕ) where
  -- An entry of the account has its key in the list.
  abbrev Covered : List ℕ → ℕ × Claims → Type 0
  Covered keys e = e.1.auth_id ≡ auth_id → any (λ k. k == e.0) keys ≡ true

  Covered-pop :
      (key : ℕ) (keys : List ℕ) (d : Dict Claims)
      → All (Covered (key ∷ keys)) d
      → All (Covered keys) (pop key d)
  Covered-pop key keys [] h = tt
  Covered-pop key keys (e ∷ d) h = elim (Bool-cases (e.0 == key)) [
    | inl same ↦ rw same (Covered-pop key keys d h.1)
    | inr differ ↦
        rw differ ((λ mine. let there = h.0 mine in ground arith), Covered-pop key keys d h.1)
  ]

  Covered-keys : (d : Dict Claims) → All (Covered (keys_for auth_id d)) d
  Covered-keys [] = tt
  Covered-keys ((key, claims) ∷ d) = elim (Bool-cases (claims.auth_id == auth_id)) [
    | inl same ↦
        let keys : (keys_for auth_id ((key, claims) ∷ d) ≡ key ∷ keys_for auth_id d) =
          rw same refl in
        subst (λ ks. All (Covered ks) ((key, claims) ∷ d)) (sym keys)
          (
            (λ mine. ground arith),
            All-map d (λ e c mine. let there = c mine in ground arith) (Covered-keys d),
          )
    | inr differ ↦
        let keys : (keys_for auth_id ((key, claims) ∷ d) ≡ keys_for auth_id d) = rw differ refl in
        subst (λ ks. All (Covered ks) ((key, claims) ∷ d)) (sym keys)
          ((λ mine. ground arith), Covered-keys d)
  ]

  pop_all-Covered :
      (keys : List ℕ) (d : Dict Claims)
      → All (Covered keys) d
      → All (λ e. e.1.auth_id ≢ auth_id) (pop_all keys d)
  pop_all-Covered [] d h = All-map d (λ e c mine. let there = c mine in ground arith) h
  pop_all-Covered (key ∷ keys) d h = pop_all-Covered keys (pop key d) (Covered-pop key keys d h)

  gone-lookup :
      (key : ℕ) (d : Dict Claims) (claims : Claims)
      → All (λ e. e.1.auth_id ≢ auth_id) d
      → lookup key d ≡ some claims
      → claims.auth_id ≢ auth_id
  gone-lookup key [] claims h found mine = ground (arith, found)
  gone-lookup key ((k, c) ∷ d) claims h found mine = elim (Bool-cases (k == key)) [
    | inl same ↦ let other = h.0 in ground arith
    | inr differ ↦ gone-lookup key d claims h.1 (ground (arith, found)) mine
  ]

  -- Once the tokens of an account are evicted, no token is taken for that account, at any time.
  pub evicted_tokens_gone :
      (key now : ℕ) (c : Cache) (email : Option ℕ)
      → (get_verified key now (evict_tokens_for (some auth_id) c)).0 ≢ some (auth_id, email)
  unfolding evict_tokens_for
  evicted_tokens_gone key now c email h =
      let d = pop_all (keys_for auth_id c.verified_tokens) c.verified_tokens in
      let gone =
        pop_all-Covered (keys_for auth_id c.verified_tokens) c.verified_tokens
          (Covered-keys c.verified_tokens) in
      elim (Option-cases (lookup key d)) [
        | inl nothing ↦
            let r = get_verified_absent key now (evict_tokens_for (some auth_id) c) nothing in
            ground (arith, h, r)
        | inr (claims, found) ↦
            let r = get_verified_found key now (evict_tokens_for (some auth_id) c) claims found in
            let other = gone-lookup key d claims gone found in ground (arith, h, r)
      ]
