-- ===== src/Auth/Session/Sound.antt =====
-- What the cache of sign-ins of a process holds, whatever the process has served: the ids of the
-- users that there are, and claims that the verification has accepted (app/main.py).
use personal_portfolio_analy.Prelude.{
  ℕ, ◌≡◌, refl, ap, Bool, true, false, Option, none, some, List, [], ◌∷◌, All, All-map, inl, inr,
  Bool-cases, Option-cases, leb,
}
use personal_portfolio_analy.Prelude.Dict.{Dict, lookup, pop}
use personal_portfolio_analy.Prelude.Entries.{All-keep, All-put}
use personal_portfolio_analy.Store.{Store}
use personal_portfolio_analy.Accounts.{find_user, get_or_create_user}
use personal_portfolio_analy.Accounts.Gone.{account}
use personal_portfolio_analy.Accounts.Rows.{IsTable, get_or_create_user-keeps}
use personal_portfolio_analy.Accounts.SignIn.{signed_in-found}
use personal_portfolio_analy.AuthCache.{
  Cache, get_user_id, put_user_id, get_verified, put_verified, evict_user, evict_tokens_for,
  pop_all, keys_for,
}
use personal_portfolio_analy.AuthCache
use personal_portfolio_analy.Auth.Jwt.{
  PyJwt, Claims, Outcome, ok, auth_error, raised, Endpoint, JwksCache, verify_supabase_jwt,
}
use personal_portfolio_analy.Auth.Session.{
  Session, Settings, resolve_user, accept_claims, jwt_auth, require_auth, is_api_token, takes_jwt,
}
use personal_portfolio_analy.Auth.Session.Refusals.{user_ids-get_verified, user_ids-put_verified}

-- The id is that of the account's row.
abbrev pub IsKnown : Store → ℕ × ℕ → Type 0
IsKnown s e = find_user (account e.0) s.users ≡ some e.1

-- The claims are those of a verification of the token, at some time and with some keys.
abbrev pub IsVouched : PyJwt → Settings → ℕ × AuthCache.Claims → Type 0
IsVouched lib c e =
    (endpoint : Endpoint) × (at : ℕ) × (jwks : JwksCache) × (claims : Claims)
    × ((verify_supabase_jwt lib endpoint c.jwt e.0 at jwks).0 ≡ ok claims)
    × (claims.sub ≡ some e.1.auth_id)
    × (claims.exp ≡ e.1.exp)

pub record IsSound (lib : PyJwt) (c : Settings) (s : Session) : Type 0 where
  pub table : IsTable s.store
  pub users : All (IsKnown s.store) s.cache.user_ids
  pub tokens : All (IsVouched lib c) s.cache.verified_tokens

tokens-get_verified :
    (P : ℕ × AuthCache.Claims → Type 0) (token now : ℕ) (c : Cache)
    → All P c.verified_tokens
    → All P (get_verified token now c).1.verified_tokens
unfolding get_verified
tokens-get_verified P token now c h = elim (Option-cases (lookup token c.verified_tokens)) [
  | inl absent ↦ rw (get_verified, absent) h
  | inr (claims, found) ↦ elim (Bool-cases (leb claims.exp now)) [
    | inl over ↦ rw (get_verified, found, over) (All-keep P _ c.verified_tokens h)
    | inr still ↦ rw (get_verified, found, still) h
  ]
]

tokens-put_verified :
    (P : ℕ × AuthCache.Claims → Type 0) (token now : ℕ) (claims : AuthCache.Claims) (c : Cache)
    → P (token, claims)
    → All P c.verified_tokens
    → All P (put_verified token claims now c).verified_tokens
unfolding put_verified
tokens-put_verified P token now claims c p h = elim (Bool-cases (leb claims.exp now)) [
  | inl over ↦ rw (put_verified, over) h
  | inr still ↦ rw (put_verified, still) (All-put P 4096 token claims c.verified_tokens p h)
]

pub tokens-pop_all :
    (P : ℕ × AuthCache.Claims → Type 0) (keys : List ℕ) (d : Dict AuthCache.Claims)
    → All P d
    → All P (pop_all keys d)
tokens-pop_all P [] d h = h
tokens-pop_all P (k ∷ keys) d h = tokens-pop_all P keys (pop k d) (All-keep P _ d h)

module _ (lib : PyJwt) (c : Settings) where
  resolve_user-IsSound :
      (auth_id : ℕ) (issued_at : Option ℕ) (s : Session)
      → IsSound lib c s
      → IsSound lib c (resolve_user auth_id issued_at s).1
  unfolding resolve_user get_user_id put_user_id
  resolve_user-IsSound auth_id issued_at s h =
      let (table, stay) = get_or_create_user-keeps auth_id issued_at s.store h.table in
      let users = All-map s.cache.user_ids (λ e known. stay e.0 e.1 known) h.users in
      elim (Option-cases (lookup auth_id s.cache.user_ids)) [
        | inr (uid, known) ↦ rw (resolve_user, known) h
        | inl unknown ↦ elim (Option-cases ((get_or_create_user auth_id issued_at s.store).0)) [
          | inl refused ↦
              rw (resolve_user, unknown, refused)
                (record { table = table; users = users; tokens = h.tokens })
          | inr (uid, made) ↦
              let store = (get_or_create_user auth_id issued_at s.store).1 in
              let row =
                signed_in-found auth_id uid issued_at s.store store (ap (λ o. (o, store)) made) in
              rw (resolve_user, unknown, made)
                (record {
                  table = table;
                  users = All-put (IsKnown store) 2048 auth_id uid s.cache.user_ids row users;
                  tokens = h.tokens;
                })
        ]
      ]

  accept_claims-IsSound :
      (token now : ℕ) (o : Outcome Claims) (s : Session)
      → ((claims : Claims) (entry : AuthCache.Claims)
          → o ≡ ok claims
          → claims.sub ≡ some entry.auth_id
          → claims.exp ≡ entry.exp
          → IsVouched lib c (token, entry))
      → IsSound lib c s
      → IsSound lib c (accept_claims token now o s).1
  unfolding accept_claims
  accept_claims-IsSound token now auth_error s vouch h = h
  accept_claims-IsSound token now raised s vouch h = h
  accept_claims-IsSound token now (ok claims) s vouch h = elim (Option-cases claims.sub) [
    | inl bad ↦ rw (accept_claims, bad) h
    | inr (b, sub) ↦
        let entry : AuthCache.Claims = record {
          auth_id = b;
          email = claims.email;
          exp = claims.exp;
        } in
        let stored : Session = record s { cache = put_verified token entry now s.cache } in
        rw (accept_claims, sub)
          (resolve_user-IsSound b claims.iat stored (record {
            table = h.table;
            users = rw (user_ids-put_verified token now entry s.cache) h.users;
            tokens =
                tokens-put_verified (IsVouched lib c) token now entry s.cache
                  (vouch claims entry refl sub refl) h.tokens;
          }))
  ]

  jwt_auth-IsSound :
      (endpoint : Endpoint) (token now : ℕ) (s : Session)
      → IsSound lib c s
      → IsSound lib c (jwt_auth lib endpoint c token now s).1
  unfolding jwt_auth
  jwt_auth-IsSound endpoint token now s h =
      let looked : Session = record s { cache = (get_verified token now s.cache).1 } in
      let sound : IsSound lib c looked = record {
        table = h.table;
        users = rw (user_ids-get_verified token now s.cache) h.users;
        tokens = tokens-get_verified (IsVouched lib c) token now s.cache h.tokens;
      } in
      let result = verify_supabase_jwt lib endpoint c.jwt token now s.jwks in
      elim (Option-cases ((get_verified token now s.cache).0)) [
        | inr (claims, cached) ↦
            rw (jwt_auth, cached) (resolve_user-IsSound claims.0 none looked sound)
        | inl unknown ↦
            rw (jwt_auth, unknown)
              (accept_claims-IsSound token now result.0 (record looked { jwks = result.1 })
                (λ claims entry verified sub exp.
                  (endpoint, now, s.jwks, claims, verified, sub, exp))
                (record { table = sound.table; users = sound.users; tokens = sound.tokens }))
      ]

  pub require_auth-IsSound :
      (endpoint : Endpoint) (exempt : Bool) (supplied : Option ℕ) (now : ℕ) (s : Session)
      → IsSound lib c s
      → IsSound lib c (require_auth lib endpoint c exempt supplied now s).1
  unfolding require_auth
  require_auth-IsSound endpoint true supplied now s h = h
  require_auth-IsSound endpoint false none now s h = h
  require_auth-IsSound endpoint false (some token) now s h =
      elim (Bool-cases (is_api_token c token)) [
        | inl service ↦ rw (require_auth, service) h
        | inr user ↦ elim (Bool-cases (takes_jwt c)) [
          | inl on ↦ rw (require_auth, user, on) (jwt_auth-IsSound endpoint token now s h)
          | inr off ↦ rw (require_auth, user, off) h
        ]
      ]
