-- ===== src/Auth/Jwt.antt =====
-- app/auth/jwt.py: the verification of a sign-in token with the key that its header names. A token
-- and a key are numbers, a point of time is a number of microseconds.
pub mod Keys
use personal_portfolio_analy.Prelude.{
  ℕ, ◌+◌, ◌-◌, Bool, true, false, ◌&&◌, not, Option, none, some, List, [], ◌∷◌, ltb, ◌==◌,
  if◌then◌else◌,
}
use personal_portfolio_analy.Store.{seconds}

pub data Alg : Type 0 where
  es256 rs256 hs256 : Alg
  other : ℕ → Alg

pub record Header : Type 0 where
  pub alg : Alg
  pub kid : Option ℕ

-- A key of a JWKS document.
pub record Jwk : Type 0 where
  pub kid : Option ℕ
  pub alg : Option Alg
  pub material : ℕ

-- The claims that the sign-in reads; `sub` is none where it is no UUID.
pub record Claims : Type 0 where
  pub sub : Option ℕ
  pub email : Option ℕ
  pub iat : Option ℕ
  pub exp : ℕ

-- What PyJWT gives: the header of a token, the key of a JWK, and the claims of a token that a key
-- verifies for an algorithm and an audience at a time.
pub record PyJwt : Type 0 where
  pub get_unverified_header : ℕ → Option Header
  pub from_dict : Jwk → Option ℕ
  pub decode : ℕ → ℕ → Alg → Option ℕ → ℕ → Option Claims

-- How a call ends: with a value, with `AuthError`, or with another exception.
pub data Outcome (A : Type 0) : Type 0 where
  ok : A → Outcome A
  -- `AuthError` or `ValueError`, which `require_auth` refuses alike
  auth_error : Outcome A
  raised : Outcome A

-- `_jwks_cache` at the one configured URL.
pub record JwksCache : Type 0 where
  pub fetched : Option (ℕ × List Jwk)

-- The end of `_fetch_jwks`: the keys of a document; a `ValueError`, for bytes that are no JSON; or
-- the exception of a request that fails.
pub data Fetched : Type 0 where
  document : List Jwk → Fetched
  undecodable unreachable : Fetched

-- What the endpoint gives at a request, on its first and on its forced fetch.
abbrev pub Endpoint : Type 0
Endpoint = Bool → Fetched

abbrev jwks_ttl : ℕ
jwks_ttl = seconds 600

-- `cached and _clock() - cached[0] < _JWKS_TTL_SECONDS`
abbrev pub fresh_document : ℕ → JwksCache → Option (List Jwk)
fresh_document now c = elim c.fetched [
  | none ↦ none
  | some (at, keys) ↦ if ltb now (at + jwks_ttl) then some keys else none
]

abbrev pub fetch : Endpoint → Bool → ℕ → JwksCache → Fetched × JwksCache
fetch endpoint force now c = elim (endpoint force) [
  | document keys ↦ (document keys, record { fetched = some (now, keys) })
  | undecodable ↦ (undecodable, c)
  | unreachable ↦ (unreachable, c)
]

-- `_get_jwks`
unfoldable pub get_jwks : Endpoint → Bool → ℕ → JwksCache → Fetched × JwksCache
get_jwks endpoint true now c = fetch endpoint true now c
get_jwks endpoint false now c = elim (fresh_document now c) [
  | some keys ↦ (document keys, c)
  | none ↦ fetch endpoint false now c
]

abbrev pub has_kid : ℕ → Jwk → Bool
has_kid kid k = elim k.kid [ none ↦ false | some j ↦ j == kid ]

abbrev pub first_with : ℕ → List Jwk → Option Jwk
first_with kid [] = none
first_with kid (k ∷ ks) = if has_kid kid k then some k else first_with kid ks

-- `_match_jwk`
unfoldable pub match_jwk : Option ℕ → List Jwk → Option Jwk
match_jwk (some kid) keys = first_with kid keys
match_jwk none (k ∷ []) = some k
match_jwk none [] = none
match_jwk none (k ∷ l ∷ ks) = none

-- `jwk.setdefault("alg", alg)`, on the key and in the cached document that holds it
abbrev pub set_alg : Alg → Jwk → Jwk
set_alg alg k = elim k.alg [ some _ ↦ k | none ↦ record k { alg = some alg } ]

abbrev set_alg_first : ℕ → Alg → List Jwk → List Jwk
set_alg_first kid alg [] = []
set_alg_first kid alg (k ∷ ks) =
    if has_kid kid k then set_alg alg k ∷ ks else k ∷ set_alg_first kid alg ks

abbrev pub set_alg_in : Option ℕ → Alg → List Jwk → List Jwk
set_alg_in (some kid) alg keys = set_alg_first kid alg keys
set_alg_in none alg [] = []
set_alg_in none alg (k ∷ ks) = set_alg alg k ∷ ks

abbrev pub set_alg_cached : Option ℕ → Alg → JwksCache → JwksCache
set_alg_cached kid alg c = elim c.fetched [
  | none ↦ c
  | some (at, keys) ↦ record { fetched = some (at, set_alg_in kid alg keys) }
]

abbrev pub key_of : PyJwt → Alg → Jwk → Outcome ℕ
key_of lib alg k = elim (lib.from_dict (set_alg alg k)) [ none ↦ raised | some key ↦ ok key ]

-- `_resolve_public_key`: the second round of its loop, which fetches in any case.
unfoldable pub resolve_forced :
    PyJwt → Endpoint → Option ℕ → Alg → ℕ → JwksCache → Outcome ℕ × JwksCache
unfolding get_jwks match_jwk
resolve_forced lib endpoint kid alg now c =
    let (fetched, c') = get_jwks endpoint true now c in
    elim fetched [
      | unreachable ↦ (raised, c')
      | undecodable ↦ (auth_error, c')
      | document keys ↦ elim (match_jwk kid keys) [
        | none ↦ (auth_error, c')
        | some k ↦ (key_of lib alg k, set_alg_cached kid alg c')
      ]
    ]

unfoldable pub resolve_public_key :
    PyJwt → Endpoint → Option ℕ → Alg → ℕ → JwksCache → Outcome ℕ × JwksCache
unfolding get_jwks match_jwk resolve_forced
resolve_public_key lib endpoint kid alg now c =
    let (fetched, c') = get_jwks endpoint false now c in
    elim fetched [
      | unreachable ↦ (raised, c')
      | undecodable ↦ (auth_error, c')
      | document keys ↦ elim (match_jwk kid keys) [
        | none ↦ resolve_forced lib endpoint kid alg now c'
        | some k ↦ (key_of lib alg k, set_alg_cached kid alg c')
      ]
    ]

-- The keys that are configured.
pub record Config : Type 0 where
  pub supabase_jwt_secret : Option ℕ
  pub has_jwks : Bool
  pub audience : Option ℕ

abbrev pub decoded : Option Claims → Outcome Claims
decoded none = auth_error
decoded (some claims) = ok claims

abbrev pub is_asymmetric : Alg → Bool
is_asymmetric es256 = true
is_asymmetric rs256 = true
is_asymmetric _ = false

abbrev pub is_hs256 : Alg → Bool
is_hs256 hs256 = true
is_hs256 _ = false

-- The branch of an asymmetric token.
unfoldable pub verify_with_jwks :
    PyJwt → Endpoint → Config → ℕ → Header → ℕ → JwksCache → Outcome Claims × JwksCache
unfolding resolve_public_key
verify_with_jwks lib endpoint config token header now c =
    if not config.has_jwks
    then (auth_error, c)
    else let (key, c') = resolve_public_key lib endpoint header.kid header.alg now c in
      elim key [
        | ok key ↦ (decoded (lib.decode token key header.alg config.audience now), c')
        | auth_error ↦ (auth_error, c')
        | raised ↦ (raised, c')
      ]

-- `verify_supabase_jwt`
unfoldable pub verify_supabase_jwt :
    PyJwt → Endpoint → Config → ℕ → ℕ → JwksCache → Outcome Claims × JwksCache
unfolding verify_with_jwks
verify_supabase_jwt lib endpoint config token now c = elim (lib.get_unverified_header token) [
  | none ↦ (auth_error, c)
  | some header ↦
      if is_asymmetric header.alg
      then verify_with_jwks lib endpoint config token header now c
      else if is_hs256 header.alg
      then (
        elim config.supabase_jwt_secret [
          | none ↦ auth_error
          | some secret ↦ decoded (lib.decode token secret hs256 config.audience now)
        ],
        c,
      )
      else (auth_error, c)
]
