-- ===== src/Tests/RequestTests.antt =====
-- Sign-in tokens, deletions, snapshots and track records at concrete inputs: the token 5 is of the
-- auth id 70, issued at 10, and the user 7 of that auth id is deleted at 20.
use personal_portfolio_analy.Prelude.{
  ℕ, ◌≤◌, ◌<◌, ◌≡◌, refl, sym, ap, true, false, Option, none, some, List, [], ◌∷◌, arith, All, ltb,
  leb, not, if◌then◌else◌,
}
use personal_portfolio_analy.Prelude.Dict.{lookup}
use personal_portfolio_analy.Store.{Store}
use personal_portfolio_analy.Accounts.{new_user, find_user, is_refused}
use personal_portfolio_analy.Accounts.Gone.{account}
use personal_portfolio_analy.Auth.Jwt.{
  PyJwt, Jwk, Claims, JwksCache, document, Endpoint, Config, hs256, Alg, verify_supabase_jwt,
}
use personal_portfolio_analy.Auth.Jwt.Keys.{IsVerified, accepted_under_configured_key}
use personal_portfolio_analy.Auth.Session.{Session, Settings, delete_me, require_auth, resolve_user}
use personal_portfolio_analy.Auth.Session.Refusals.{IsOldToken}
use personal_portfolio_analy.Auth.Session.Deleted.{deleted_stays_out, here, next, requested}
use personal_portfolio_analy.Auth.Session.Transparent.{cache_transparent, empty_cache}
use personal_portfolio_analy.Auth.Session.Transparent
use personal_portfolio_analy.Auth.Session.Sound.{IsVouched}
use personal_portfolio_analy.AuthCache
use personal_portfolio_analy.Snapshot.{Snapshots, World}
use personal_portfolio_analy.Snapshot
use personal_portfolio_analy.Snapshot.Flights.{flying, single_flight}
use personal_portfolio_analy.TrackRecord.{
  Bar, clean_series, last_before, last_on_or_before, horizon_slot, is_elapsed, slot_of, span,
  measured_returns,
}
use personal_portfolio_analy.TrackRecord.Bisect.{IsSorted, last_where, lookups_are_last}
use personal_portfolio_analy.TrackRecord.Series.{IsCovered, clean_series_lem}
use personal_portfolio_analy.TrackRecord.Hindsight.{until, known_series, series, no_hindsight}

abbrev empty_store : Store
empty_store = record {
  next_id = 8;
  users = (7, new_user 70) ∷ [];
  channels = [];
  devices = [];
  outbound = [];
  codes = [];
  funnel = [];
  stripe_events = [];
  tombstones = [];
}

abbrev token_claims : Claims
token_claims = record { sub = some 70; email = none; iat = some 10; exp = 100 }

abbrev pyjwt : Alg → PyJwt
pyjwt alg = record {
  get_unverified_header = λ token. some (record { alg = alg; kid = some 3 });
  from_dict = λ k. some k.material;
  decode = λ token key alg audience now. some token_claims;
}

abbrev config : Config
config = record { supabase_jwt_secret = some 9; has_jwks = true; audience = none }

abbrev new_key : Jwk
new_key = record { kid = some 3; alg = none; material = 33 }

abbrev old_key : Jwk
old_key = record { kid = some 2; alg = none; material = 22 }

abbrev endpoint : Endpoint
endpoint force = document (new_key ∷ [])

abbrev jwks : JwksCache
jwks = record { fetched = some (0, old_key ∷ []) }

accepted_under_configured_key_example :
    IsVerified (pyjwt hs256) endpoint 30 jwks config 5 token_claims
unfolding verify_supabase_jwt
accepted_under_configured_key_example =
    accepted_under_configured_key (pyjwt hs256) endpoint 30 jwks config 5 token_claims refl

abbrev settings : Settings
settings = record { api_token = some 1; jwt = config }

abbrev entry : AuthCache.Claims
entry = record { auth_id = 70; email = none; exp = 100 }

abbrev snapshots : Snapshots
snapshots = record { snaps = []; last_seen = []; max_users = 500 }

abbrev session : Session
session = record {
  store = empty_store;
  cache = record { user_ids = (70, 7) ∷ []; verified_tokens = (5, entry) ∷ [] };
  jwks = jwks;
  snaps = snapshots;
}

old_token : IsOldToken 70 20 (pyjwt hs256) 5
old_token key now alg audience claims decoded sub =
    ap (λ o. elim o [ none ↦ true | some c ↦ is_refused c.iat (some 20) ]) (sym decoded)

abbrev after_request : Session
after_request =
    (require_auth (pyjwt hs256) endpoint settings false (some 5) 30
      (delete_me true true 7 20 session).1).1

deleted_stays_out_example :
    (find_user (account 70) after_request.store.users ≡ none)
    × (lookup 70 after_request.store.tombstones ≡ some 20)
unfolding delete_me
deleted_stays_out_example =
    deleted_stays_out 70 20 7 true true (pyjwt hs256) settings (new_user 70) session after_request
      refl refl refl (omega arith)
      (next here
        (requested endpoint false (some 5) 30 (delete_me true true 7 20 session).1 old_token))

abbrev fresh_session : Session
fresh_session = record session { cache = empty_cache }

abbrev served_session : Session
served_session = (require_auth (pyjwt hs256) endpoint settings false (some 5) 30 fresh_session).1

cache_transparent_example :
    ((auth_id : ℕ) (issued_at : Option ℕ)
      → (resolve_user auth_id issued_at served_session).0
        ≡ (resolve_user auth_id issued_at (record served_session { cache = empty_cache })).0)
    × ((token : ℕ) (held : AuthCache.Claims)
        → lookup token served_session.cache.verified_tokens ≡ some held
        → IsVouched (pyjwt hs256) settings (token, held))
cache_transparent_example =
    cache_transparent (pyjwt hs256) settings fresh_session served_session refl
      (record { fresh = (omega arith, tt); distinct = (tt, tt) })
      (Transparent.requested endpoint false (some 5) 30 (Transparent.here fresh_session))

abbrev sections : World
sections = record { cache = snapshots; inflight = []; source = λ user name. 1 }

single_flight_example : flying 7 1 (Snapshot.refresh 7 (1 ∷ 1 ∷ []) []) ≤ 1
single_flight_example =
    single_flight 7 1 (Snapshot.next Snapshot.here (Snapshot.refreshed 7 (1 ∷ 1 ∷ []) sections))
      (omega arith)

abbrev price_rows : List (ℕ × Option ℕ)
price_rows = (3, some 30) ∷ (1, some 10) ∷ (3, some 20) ∷ (2, none) ∷ []

abbrev bars : List Bar
bars = (1, 10) ∷ (3, 30) ∷ []

lookups_are_last_example :
    (last_before bars 3 ≡ last_where (λ d. ltb d 3) bars)
    × (last_on_or_before bars 3 ≡ last_where (λ d. leb d 3) bars)
lookups_are_last_example = lookups_are_last bars 3 ((omega arith, tt), (tt, tt))

clean_series_lem_example :
    IsSorted (clean_series price_rows)
    × All (λ b. 0 < b.1) (clean_series price_rows)
    × All (IsCovered (clean_series price_rows)) price_rows
clean_series_lem_example = clean_series_lem price_rows

no_hindsight_example :
    horizon_slot (clean_series price_rows) (series ((4, price_rows) ∷ []) 3) 2 (4 ∷ []) 1 ≡ (
      if not (is_elapsed (clean_series price_rows) 3)
      then none
      else slot_of
          (span (until 3 (clean_series price_rows)) 2 3)
          (measured_returns (known_series ((4, price_rows) ∷ []) 3) 2 3 (4 ∷ [])))
no_hindsight_example = no_hindsight price_rows ((4, price_rows) ∷ []) 2 1 (4 ∷ [])
