-- ===== src/Auth/Session/Refusals.antt =====
-- The authentication of app/main.py while an account is deleted and marked.
use personal_portfolio_analy.Prelude.{
  ℕ, ◌≡◌, ◌≢◌, refl, ◌∙◌, ap, Bool, true, false, Option, none, some, arith, inl, inr, Bool-cases,
  Option-cases, ◌==◌, leb,
}
use personal_portfolio_analy.Prelude.Dict.{lookup}
use personal_portfolio_analy.Prelude.Ordered.{absent-put}
use personal_portfolio_analy.Accounts.{is_refused, get_or_create_user}
use personal_portfolio_analy.AuthCache.{Cache, get_user_id, put_user_id, get_verified, put_verified}
use personal_portfolio_analy.AuthCache
use personal_portfolio_analy.Auth.Jwt.{
  PyJwt, Claims, Outcome, ok, auth_error, raised, Alg, Endpoint, verify_supabase_jwt,
}
use personal_portfolio_analy.Auth.Jwt.Keys.{accepted_under_configured_key}
use personal_portfolio_analy.Auth.Session.{
  Session, Settings, account_deleted, resolve_user, accept_claims, jwt_auth, require_auth,
  is_api_token, takes_jwt,
}
use personal_portfolio_analy.Accounts.Gone.{
  IsGone, own-get_or_create_user, other-get_or_create_user,
}

pub user_ids-get_verified :
    (token now : ℕ) (c : Cache) → (get_verified token now c).1.user_ids ≡ c.user_ids
unfolding get_verified
user_ids-get_verified token now c = elim (Option-cases (lookup token c.verified_tokens)) [
  | inl absent ↦ rw (get_verified, absent) refl
  | inr (claims, found) ↦ elim (Bool-cases (leb claims.exp now)) [
    | inl over ↦ rw (get_verified, found, over) refl
    | inr still ↦ rw (get_verified, found, still) refl
  ]
]

pub user_ids-put_verified :
    (token now : ℕ) (claims : AuthCache.Claims) (c : Cache)
    → (put_verified token claims now c).user_ids ≡ c.user_ids
unfolding put_verified
user_ids-put_verified token now claims c = elim (Bool-cases (leb claims.exp now)) [
  | inl over ↦ rw (put_verified, over) refl
  | inr still ↦ rw (put_verified, still) refl
]

module _ (auth_id at : ℕ) where
  -- The account is gone, and the cache does not know its user.
  abbrev pub IsOut : Session → Type 0
  IsOut s = (lookup auth_id s.cache.user_ids ≡ none) × IsGone auth_id at s.store

  -- A time of issue that does not bring the account back.
  abbrev pub IsOld : Option ℕ → Type 0
  IsOld issued_at = is_refused issued_at (some at) ≡ true

  own-resolve_user :
      (issued_at : Option ℕ) (s : Session)
      → IsOut s
      → IsOld issued_at
      → resolve_user auth_id issued_at s ≡ (account_deleted, s)
  unfolding resolve_user get_user_id
  own-resolve_user issued_at s out old =
      let refused = own-get_or_create_user auth_id at issued_at s.store out.1 old in
      rw (resolve_user, get_user_id, out.0, refused, refused) refl

  other-resolve_user :
      (b : ℕ) (issued_at : Option ℕ) (s : Session)
      → auth_id ≢ b
      → IsOut s
      → IsOut (resolve_user b issued_at s).1
  unfolding resolve_user get_user_id put_user_id
  other-resolve_user b issued_at s ne out =
      let stays = other-get_or_create_user auth_id at b issued_at s.store ne out.1 in
      elim (Option-cases (lookup b s.cache.user_ids)) [
        | inr (uid, known) ↦ rw (resolve_user, known) out
        | inl unknown ↦ elim (Option-cases ((get_or_create_user b issued_at s.store).0)) [
          | inl refused ↦ rw (resolve_user, unknown, refused) (out.0, stays)
          | inr (uid, found) ↦
              rw (resolve_user, unknown, found)
                (absent-put 2048 auth_id b uid s.cache.user_ids ne out.0, stays)
        ]
      ]

  resolve_user-IsOut :
      (b : ℕ) (issued_at : Option ℕ) (s : Session)
      → (b ≡ auth_id → IsOld issued_at)
      → IsOut s
      → IsOut (resolve_user b issued_at s).1
  resolve_user-IsOut b issued_at s old out = elim (Bool-cases (b == auth_id)) [
    | inl mine ↦
        let same : (b ≡ auth_id) = ground (arith, mine) in
        rw (same, own-resolve_user issued_at s out (old same)) out
    | inr other ↦ other-resolve_user b issued_at s (ground (arith, other)) out
  ]

  accept_claims-IsOut :
      (token now : ℕ) (o : Outcome Claims) (s : Session)
      → ((claims : Claims) → o ≡ ok claims → claims.sub ≡ some auth_id → IsOld claims.iat)
      → IsOut s
      → IsOut (accept_claims token now o s).1
  unfolding accept_claims
  accept_claims-IsOut token now auth_error s old out = out
  accept_claims-IsOut token now raised s old out = out
  accept_claims-IsOut token now (ok claims) s old out = elim (Option-cases claims.sub) [
    | inl bad ↦ rw (accept_claims, bad) out
    | inr (b, sub) ↦
        let entry : AuthCache.Claims = record {
          auth_id = b;
          email = claims.email;
          exp = claims.exp;
        } in
        let stored : Session = record s { cache = put_verified token entry now s.cache } in
        rw (accept_claims, sub)
          (resolve_user-IsOut b claims.iat stored (λ same. old claims refl (sub ∙ ap some same))
            (ap (lookup auth_id) (user_ids-put_verified token now entry s.cache) ∙ out.0, out.1))
  ]

  -- No proof that the library gives makes a token of the account newer than its deletion.
  abbrev pub IsOldToken : PyJwt → ℕ → Type 0
  IsOldToken lib token =
      (key now : ℕ) (alg : Alg) (audience : Option ℕ) (claims : Claims)
      → lib.decode token key alg audience now ≡ some claims
      → claims.sub ≡ some auth_id
      → IsOld claims.iat

  abbrev pub IsOldRequest : PyJwt → Option ℕ → Type 0
  IsOldRequest lib none = Unit
  IsOldRequest lib (some token) = IsOldToken lib token

  jwt_auth-IsOut :
      (lib : PyJwt) (endpoint : Endpoint) (c : Settings) (token now : ℕ) (s : Session)
      → IsOldToken lib token
      → IsOut s
      → IsOut (jwt_auth lib endpoint c token now s).1
  unfolding jwt_auth
  jwt_auth-IsOut lib endpoint c token now s old out =
      let read : Session = record s { cache = (get_verified token now s.cache).1 } in
      let kept : IsOut read =
        (ap (lookup auth_id) (user_ids-get_verified token now s.cache) ∙ out.0, out.1) in
      elim (Option-cases ((get_verified token now s.cache).0)) [
        | inr (claims, cached) ↦
            rw (jwt_auth, cached) (resolve_user-IsOut claims.0 none read (λ _. refl) kept)
        | inl unknown ↦
            rw (jwt_auth, unknown)
              (accept_claims-IsOut token now
                (verify_supabase_jwt lib endpoint c.jwt token now s.jwks).0
                (record read { jwks = (verify_supabase_jwt lib endpoint c.jwt token now s.jwks).1 })
                (λ claims verified.
                  let (header, read, key, sound, rest) =
                    accepted_under_configured_key lib endpoint now s.jwks c.jwt token claims
                      verified in
                  old key now header.alg c.jwt.audience claims sound)
                kept)
      ]

  pub require_auth-IsOut :
      (lib : PyJwt) (endpoint : Endpoint) (c : Settings) (exempt : Bool) (supplied : Option ℕ)
      (now : ℕ) (s : Session)
      → IsOldRequest lib supplied
      → IsOut s
      → IsOut (require_auth lib endpoint c exempt supplied now s).1
  unfolding require_auth
  require_auth-IsOut lib endpoint c true supplied now s old out = out
  require_auth-IsOut lib endpoint c false none now s old out = out
  require_auth-IsOut lib endpoint c false (some token) now s old out =
      elim (Bool-cases (is_api_token c token)) [
        | inl service ↦ rw (require_auth, service) out
        | inr user ↦ elim (Bool-cases (takes_jwt c)) [
          | inl on ↦ rw (require_auth, user, on) (jwt_auth-IsOut lib endpoint c token now s old out)
          | inr off ↦ rw (require_auth, user, off) out
        ]
      ]
