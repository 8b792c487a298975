-- ===== src/Auth/Session.antt =====
-- `require_auth` and `delete_me` of app/main.py: who a request comes from, and what the deletion of
-- an account leaves. A token is a number, and is kept in the cache under that number; `exempt` says
-- that the path of a request needs no credentials. Tokens are ASCII, and the database is configured. The deletion
-- of the rows, the mark and the evictions of `delete_me` are one step, with no request in between.
-- The Supabase user, which `delete_me` deletes last, is not in the state.
pub mod Deleted
pub mod Refusals
pub mod Sound
pub mod Transparent
use personal_portfolio_analy.Prelude.{
  ℕ, zero, Bool, true, false, not, ◌&&◌, ◌||◌, Option, none, some, List, [], ◌∷◌, ◌==◌, is_some,
  if◌then◌else◌,
}
use personal_portfolio_analy.Prelude.Dict.{lookup}
use personal_portfolio_analy.Store.{Store, User, owner}
use personal_portfolio_analy.Accounts.{get_or_create_user, tombstone_auth_id}
use personal_portfolio_analy.Accounts.Deletion.{delete_user_data}
use personal_portfolio_analy.AuthCache.{
  Cache, get_verified, put_verified, get_user_id, put_user_id, evict_user, evict_tokens_for,
}
use personal_portfolio_analy.Auth.Jwt.{
  PyJwt, Claims, Outcome, ok, auth_error, raised, JwksCache, Endpoint, Config, verify_supabase_jwt,
}
use personal_portfolio_analy.Snapshot.{Snapshots, invalidate}

pub record Settings : Type 0 where
  pub api_token : Option ℕ
  pub jwt : Config

-- What a process keeps, and the tables.
pub record Session : Type 0 where
  pub store : Store
  pub cache : Cache
  pub jwks : JwksCache
  pub snaps : Snapshots

-- How the authentication of a request ends.
pub data Caller : Type 0 where
  anyone : Caller
  bound : ℕ → Caller
  no_token : Caller
  invalid_token : Caller
  account_deleted : Caller
  crashed : Caller

abbrev pub is_api_token : Settings → ℕ → Bool
is_api_token c token = elim c.api_token [ none ↦ false | some t ↦ token == t ]

-- `settings.supabase_url or settings.supabase_jwt_secret`
abbrev pub takes_jwt : Settings → Bool
takes_jwt c = c.jwt.has_jwks || is_some c.jwt.supabase_jwt_secret

-- The account of the claims, from the cache or the database.
unfoldable pub resolve_user : ℕ → Option ℕ → Session → Caller × Session
unfolding get_user_id put_user_id get_or_create_user
resolve_user auth_id issued_at s = elim (get_user_id auth_id s.cache) [
  | some user_id ↦ (bound user_id, s)
  | none ↦
      let (found, store) = get_or_create_user auth_id issued_at s.store in
      elim found [
        | none ↦ (account_deleted, record s { store = store })
        | some user_id ↦
            (bound user_id, record s { store = store; cache = put_user_id auth_id user_id s.cache })
      ]
]

-- A token that the cache has no claims for.
unfoldable pub accept_claims : ℕ → ℕ → Outcome Claims → Session → Caller × Session
unfolding resolve_user put_verified
accept_claims token now (ok claims) s = elim claims.sub [
  | none ↦ (invalid_token, s)
  | some auth_id ↦ resolve_user auth_id claims.iat (record s {
    cache =
        put_verified token (record { auth_id = auth_id; email = claims.email; exp = claims.exp })
          now s.cache;
  })
]
accept_claims token now auth_error s = (invalid_token, s)
accept_claims token now raised s = (crashed, s)

-- The Supabase token of a request.
unfoldable pub jwt_auth : PyJwt → Endpoint → Settings → ℕ → ℕ → Session → Caller × Session
unfolding resolve_user accept_claims get_verified verify_supabase_jwt
jwt_auth lib endpoint c token now s =
    let (cached, cache) = get_verified token now s.cache in
    elim cached [
      | some claims ↦ resolve_user claims.0 none (record s { cache = cache })
      | none ↦
          let (claims, jwks) = verify_supabase_jwt lib endpoint c.jwt token now s.jwks in
          accept_claims token now claims (record s { cache = cache; jwks = jwks })
    ]

unfoldable pub require_auth :
    PyJwt → Endpoint → Settings → Bool → Option ℕ → ℕ → Session → Caller × Session
unfolding jwt_auth
require_auth lib endpoint c true supplied now s = (anyone, s)
require_auth lib endpoint c false none now s = (no_token, s)
require_auth lib endpoint c false (some token) now s =
    if is_api_token c token
    then (bound owner, s)
    else if takes_jwt c
    then jwt_auth lib endpoint c token now s
    else (no_token, s)

pub data Deletion : Type 0 where
  deleted : Deletion
  owner_kept : Deletion
  subscription_kept : Deletion

abbrev pub auth_id_of : Option User → Option ℕ
auth_id_of none = none
auth_id_of (some u) = u.auth_id

abbrev pub pays : Option User → Bool
pays none = false
pays (some u) = is_some u.stripe_subscription_id

abbrev pub tombstoned : Option ℕ → ℕ → Store → Store
tombstoned none now s = s
tombstoned (some auth_id) now s = tombstone_auth_id auth_id now s

-- `delete_me`, where billing is enabled or not, and Stripe cancels the subscription or fails.
unfoldable pub delete_me : Bool → Bool → ℕ → ℕ → Session → Deletion × Session
unfolding delete_user_data evict_user evict_tokens_for
delete_me billing_enabled cancels user_id now s =
    let user = lookup user_id s.store.users in
    if user_id == owner
    then (owner_kept, s)
    else if pays user && billing_enabled && not cancels
    then (subscription_kept, s)
    else (
      deleted,
      record s {
        store = tombstoned (auth_id_of user) now (delete_user_data user_id s.store);
        cache = evict_tokens_for (auth_id_of user) (evict_user (auth_id_of user) s.cache);
        snaps = invalidate user_id [] s.snaps;
      },
    )
