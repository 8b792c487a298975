-- ===== src/AuthCache/Lifetimes.antt =====
-- How long the cache answers for a token, and how much it holds.
use personal_portfolio_analy.Prelude.{
  ℕ, ◌<◌, ◌≡◌, refl, ◌∙◌, false, none, some, arith, leb, ltb, if◌then◌else◌,
}
use personal_portfolio_analy.Prelude.Dict.{pop}
use personal_portfolio_analy.Prelude.Ordered.{put, lookup-pop, lookup-trim}
use personal_portfolio_analy.AuthCache.Lookups.{get_verified_found}
use personal_portfolio_analy.AuthCache.{Claims, Cache, put_verified, get_verified}

put_verified_kept :
    (key now : ℕ) (claims : Claims) (c : Cache)
    → leb claims.exp now ≡ false
    → put_verified key claims now c
      ≡ record c { verified_tokens = put 4096 key claims c.verified_tokens }
unfolding put_verified
put_verified_kept key now claims c kept = rw (put_verified, kept) refl

-- A verified token that has not expired is answered for until its expiry, and not from then on.
pub verified_until_expiry :
    (key now later : ℕ) (claims : Claims) (c : Cache)
    → now < claims.exp
    → (get_verified key later (put_verified key claims now c)).0
      ≡ (if ltb later claims.exp then some (claims.auth_id, claims.email) else none)
verified_until_expiry key now later claims c fresh =
    let kept : (leb claims.exp now ≡ false) = ground arith in
    let stored = put_verified_kept key now claims c kept in
    rw stored (
      get_verified_found key later
        (record c { verified_tokens = put 4096 key claims c.verified_tokens }) claims
        (lookup-trim 4095 key claims (pop key c.verified_tokens) (lookup-pop key c.verified_tokens))
      ∙ ground arith)
