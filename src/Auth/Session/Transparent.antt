-- ===== src/Auth/Session/Transparent.antt =====
-- The cache of sign-ins through all that a process serves: it changes no user that an account is
-- resolved to, and vouches for no token that the verification has not accepted (app/main.py).
use personal_portfolio_analy.Prelude.{
  ℕ, ◌≡◌, refl, ap, ◌∙◌, sym, Bool, Option, none, some, [], arith, All, All-map, All-zip, inl, inr,
  Bool-cases, Option-cases, ◌==◌, not, ◌&&◌,
}
use personal_portfolio_analy.Prelude.Dict.{lookup, pop}
use personal_portfolio_analy.Prelude.Entries.{All-keep, All-lookup, pop-ne}
use personal_portfolio_analy.Store.{Store, owner}
use personal_portfolio_analy.Accounts.{find_user, get_or_create_user, tombstone_auth_id}
use personal_portfolio_analy.Accounts.Deletion.{delete_user_data}
use personal_portfolio_analy.Accounts.Gone.{account}
use personal_portfolio_analy.Accounts.Rows.{IsTable, IsTable-pop, found-pop, found-row}
use personal_portfolio_analy.Accounts.SignIn.{found-stays}
use personal_portfolio_analy.AuthCache.{Cache, get_user_id, evict_user, evict_tokens_for, keys_for}
use personal_portfolio_analy.AuthCache
use personal_portfolio_analy.Auth.Jwt.{PyJwt, Endpoint}
use personal_portfolio_analy.Snapshot.{invalidate}
use personal_portfolio_analy.Auth.Session.{
  Session, Settings, Caller, account_deleted, bound, auth_id_of, pays, tombstoned, delete_me,
  resolve_user, require_auth,
}
use personal_portfolio_analy.Auth.Session.Sound.{
  IsKnown, IsVouched, IsSound, tokens-pop_all, require_auth-IsSound,
}

abbrev pub empty_cache : Cache
empty_cache = record { user_ids = []; verified_tokens = [] }

-- The row under an id of a user that an account is found at is the account's.
deleted_row :
    (a user_id : ℕ) (b : Option ℕ) (s : Store)
    → IsTable s
    → auth_id_of (lookup user_id s.users) ≡ b
    → find_user (account a) s.users ≡ some user_id
    → b ≡ some a
deleted_row a user_id b s t own found =
    let (u, row, mine) = found-row (account a) user_id s.users t.distinct found in
    elim (Option-cases u.auth_id) [
      | inl unsigned ↦ absurd (ground (arith, rw unsigned at mine))
      | inr (k, signed) ↦
          let same_id = rw signed at mine in
          let same : (k ≡ a) = ground (arith, same_id) in sym own ∙ rw row (signed ∙ ap some same)
    ]

module _ (lib : PyJwt) (c : Settings) where
  abbrev after : Option ℕ → ℕ → ℕ → Session → Session
  after b user_id now s = record s {
    store = tombstoned b now (delete_user_data user_id s.store);
    cache = evict_tokens_for b (evict_user b s.cache);
    snaps = invalidate user_id [] s.snaps;
  }

  after-IsSound :
      (b : Option ℕ) (user_id now : ℕ) (s : Session)
      → auth_id_of (lookup user_id s.store.users) ≡ b
      → IsSound lib c s
      → IsSound lib c (after b user_id now s)
  unfolding delete_user_data tombstone_auth_id evict_user evict_tokens_for
  after-IsSound none user_id now s own h = record {
    table = IsTable-pop user_id s.store _ refl refl h.table;
    users =
        All-map s.cache.user_ids
          (λ e known.
            found-pop (account e.0) user_id e.1 s.store.users
              (λ same.
                ground
                  (arith, deleted_row e.0 user_id none s.store h.table own (known ∙ ap some same)))
              known)
          h.users;
    tokens = h.tokens;
  }
  after-IsSound (some b) user_id now s own h = record {
    table = IsTable-pop user_id s.store _ refl refl h.table;
    users =
        All-zip (pop b s.cache.user_ids)
          (λ e known other.
            found-pop (account e.0) user_id e.1 s.store.users
              (λ same.
                let mine =
                  deleted_row e.0 user_id (some b) s.store h.table own (known ∙ ap some same) in
                ground (arith, mine, other))
              known)
          (All-keep (IsKnown s.store) _ s.cache.user_ids h.users) (pop-ne b s.cache.user_ids);
    tokens =
        tokens-pop_all (IsVouched lib c) (keys_for b s.cache.verified_tokens)
          s.cache.verified_tokens h.tokens;
  }

  delete_me-IsSound :
      (billing cancels : Bool) (user_id now : ℕ) (s : Session)
      → IsSound lib c s
      → IsSound lib c (delete_me billing cancels user_id now s).1
  unfolding delete_me
  delete_me-IsSound billing cancels user_id now s h = elim (Bool-cases (user_id == owner)) [
    | inl is_owner ↦ rw (delete_me, is_owner) h
    | inr user ↦ elim (Bool-cases (pays (lookup user_id s.store.users) && billing && not cancels)) [
      | inl fails ↦ rw (delete_me, user, fails) h
      | inr goes ↦
          rw (delete_me, user, goes)
            (after-IsSound (auth_id_of (lookup user_id s.store.users)) user_id now s refl h)
    ]
  ]

  -- What the process does: requests, deletions, and other work that keeps the accounts' ids and the
  -- primary key.
  pub data Served : Session → Session → Type 0 where
    here : (s : Session) → Served s s
    requested :
        {s t : Session} (endpoint : Endpoint) (exempt : Bool) (supplied : Option ℕ) (now : ℕ)
        → Served s t
        → Served s (require_auth lib endpoint c exempt supplied now t).1
    erased :
        {s t : Session} (billing cancels : Bool) (user_id now : ℕ)
        → Served s t
        → Served s (delete_me billing cancels user_id now t).1
    worked :
        {s t : Session} (store : Store)
        → ((a : ℕ) → find_user (account a) store.users ≡ find_user (account a) t.store.users)
        → IsTable store
        → Served s t
        → Served s (record t { store = store })

  Served-IsSound : {s s' : Session} → Served s s' → IsSound lib c s → IsSound lib c s'
  Served-IsSound (here s) h = h
  Served-IsSound (requested {t} endpoint exempt supplied now r) h =
      require_auth-IsSound lib c endpoint exempt supplied now t (Served-IsSound r h)
  Served-IsSound (erased {t} billing cancels user_id now r) h =
      delete_me-IsSound billing cancels user_id now t (Served-IsSound r h)
  Served-IsSound (worked {t} store same table r) h =
      let before = Served-IsSound r h in
      record {
        table = table;
        users = All-map t.cache.user_ids (λ e known. same e.0 ∙ known) before.users;
        tokens = before.tokens;
      }

abbrev answer : Option ℕ → Caller
answer none = account_deleted
answer (some uid) = bound uid

resolve_user-answer :
    (auth_id : ℕ) (issued_at : Option ℕ) (s : Session)
    → All (IsKnown s.store) s.cache.user_ids
    → (resolve_user auth_id issued_at s).0 ≡ answer (get_or_create_user auth_id issued_at s.store).0
unfolding resolve_user get_user_id
resolve_user-answer auth_id issued_at s knows =
    elim (Option-cases (lookup auth_id s.cache.user_ids)) [
      | inr (uid, known) ↦
          let row = All-lookup (IsKnown s.store) auth_id uid s.cache.user_ids knows known in
          let stays = found-stays auth_id uid issued_at s.store row in
          rw (resolve_user, known, stays) refl
      | inl unknown ↦ elim (Option-cases ((get_or_create_user auth_id issued_at s.store).0)) [
        | inl refused ↦ rw (resolve_user, unknown, refused) refl
        | inr (uid, made) ↦ rw (resolve_user, unknown, made) refl
      ]
    ]

-- Whatever requests, deletions and other work a process has served since it started with an empty
-- cache and a table of users with distinct ids, if the other work keeps the ids of accounts and
-- the ids distinct: an account is resolved to the same user with the cache as without it, and the
-- claims that the cache holds for a token are, in account and expiry, those of a verification that
-- accepted the token.
pub cache_transparent :
    (lib : PyJwt) (c : Settings) (s s' : Session)
    → s.cache ≡ empty_cache
    → IsTable s.store
    → Served lib c s s'
    → ((auth_id : ℕ) (issued_at : Option ℕ)
        → (resolve_user auth_id issued_at s').0
          ≡ (resolve_user auth_id issued_at (record s' { cache = empty_cache })).0)
      × ((token : ℕ) (entry : AuthCache.Claims)
          → lookup token s'.cache.verified_tokens ≡ some entry
          → IsVouched lib c (token, entry))
cache_transparent lib c s s' started table r =
    let sound =
      Served-IsSound lib c r
        (record { table = table; users = rw started tt; tokens = rw started tt }) in
    (
      (λ auth_id issued_at.
          resolve_user-answer auth_id issued_at s' sound.users
          ∙ sym (resolve_user-answer auth_id issued_at (record s' { cache = empty_cache }) tt)),
      (λ token entry.
          All-lookup (IsVouched lib c) token entry s'.cache.verified_tokens sound.tokens),
    )
