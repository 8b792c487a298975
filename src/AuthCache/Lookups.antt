-- ===== src/AuthCache/Lookups.antt =====
-- What the cache answers for a token, by what it holds.
use personal_portfolio_analy.Prelude.{
  ℕ, Bool, true, false, ◌≡◌, refl, Option, none, some, leb, if◌then◌else◌,
}
use personal_portfolio_analy.Prelude.Dict.{lookup, pop}
use personal_portfolio_analy.AuthCache.{Claims, Cache, get_verified}

module _ (key now : ℕ) (c : Cache) where
  pub get_verified_absent : lookup key c.verified_tokens ≡ none → (get_verified key now c).0 ≡ none
  unfolding get_verified
  get_verified_absent h = rw (get_verified, h) refl

  answer :
      (x y : Option (ℕ × Option ℕ)) (d : Cache) (b : Bool)
      → (if◌then◌else◌ {A = Option (ℕ × Option ℕ) × Cache} b (x, d) (y, c)).0 ≡ (if b then x else y)
  answer x y d true = refl
  answer x y d false = refl

  pub get_verified_found :
      (claims : Claims)
      → lookup key c.verified_tokens ≡ some claims
      → (get_verified key now c).0
        ≡ (if leb claims.exp now then none else some (claims.auth_id, claims.email))
  unfolding get_verified
  get_verified_found claims h =
      rw (get_verified, h)
        (answer none (some (claims.auth_id, claims.email))
          (record c { verified_tokens = pop key c.verified_tokens }) (leb claims.exp now))
