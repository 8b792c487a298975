-- ===== src/AuthCache.antt =====
-- app/perf/authcache.py: what a process remembers of sign-ins. An OrderedDict is a `Dict` with one
-- entry for each key, oldest first. The hash of a token is the key it is kept under.
pub mod Lookups
pub mod Evictions
pub mod Lifetimes
use personal_portfolio_analy.Prelude.{
  ℕ, zero, suc, Bool, true, false, not, Option, none, some, List, [], ◌∷◌, ◌++◌, length, keep, leb,
  ◌==◌, if◌then◌else◌,
}
use personal_portfolio_analy.Prelude.Dict.{Dict, lookup, pop}
use personal_portfolio_analy.Prelude.Ordered.{put}

-- An entry of `_verified_tokens`
pub record Claims : Type 0 where
  pub auth_id : ℕ
  pub email : Option ℕ
  pub exp : ℕ

pub record Cache : Type 0 where
  pub user_ids : Dict ℕ
  pub verified_tokens : Dict Claims

abbrev pub user_ids_max : ℕ
user_ids_max = 2048

abbrev pub verified_max : ℕ
verified_max = 4096

unfoldable pub get_user_id : ℕ → Cache → Option ℕ
get_user_id auth_id c = lookup auth_id c.user_ids

unfoldable pub put_user_id : ℕ → ℕ → Cache → Cache
put_user_id auth_id user_id c = record c { user_ids = put user_ids_max auth_id user_id c.user_ids }

-- A token past its expiry is dropped.
unfoldable pub get_verified : ℕ → ℕ → Cache → Option (ℕ × Option ℕ) × Cache
get_verified key now c = elim (lookup key c.verified_tokens) [
  | none ↦ (none, c)
  | some claims ↦
      if leb claims.exp now
      then (none, record c { verified_tokens = pop key c.verified_tokens })
      else (some (claims.auth_id, claims.email), c)
]

unfoldable pub put_verified : ℕ → Claims → ℕ → Cache → Cache
put_verified key claims now c =
    if leb claims.exp now
    then c
    else record c { verified_tokens = put verified_max key claims c.verified_tokens }

unfoldable pub evict_user : Option ℕ → Cache → Cache
evict_user none c = c
evict_user (some auth_id) c = record c { user_ids = pop auth_id c.user_ids }

-- The keys of an account's tokens.
abbrev pub keys_for : ℕ → Dict Claims → List ℕ
keys_for auth_id [] = []
keys_for auth_id ((key, claims) ∷ d) =
    let rest = keys_for auth_id d in if claims.auth_id == auth_id then key ∷ rest else rest

abbrev pub pop_all : List ℕ → Dict Claims → Dict Claims
pop_all [] d = d
pop_all (key ∷ keys) d = pop_all keys (pop key d)

unfoldable pub evict_tokens_for : Option ℕ → Cache → Cache
evict_tokens_for none c = c
evict_tokens_for (some auth_id) c = record c {
  verified_tokens = pop_all (keys_for auth_id c.verified_tokens) c.verified_tokens;
}
