-- ===== src/Auth/Session/Deleted.antt =====
-- What follows the deletion of an account in app/main.py: its old tokens come to nothing.
use personal_portfolio_analy.Prelude.{
  ℕ, ◌≡◌, ◌≢◌, ◌≤◌, refl, ◌∙◌, ap, Bool, true, false, Option, none, some, [], arith, inl, inr,
  Bool-cases, Option-cases, ◌==◌, not, ◌&&◌, eq_self,
}
use personal_portfolio_analy.Prelude.Dict.{lookup, lookup-insert_self, lookup-insert_ne}
use personal_portfolio_analy.Prelude.Ordered.{absent-pop, lookup-pop}
use personal_portfolio_analy.Store.{Store, User, owner}
use personal_portfolio_analy.Accounts.{find_user, tombstone_auth_id, holds}
use personal_portfolio_analy.Accounts.Deletion.{delete_user_data}
use personal_portfolio_analy.Accounts.Gone.{
  account, find_user-pop, find_user-lookup, row_count, only_row-pop,
}
use personal_portfolio_analy.AuthCache.{evict_user, evict_tokens_for}
use personal_portfolio_analy.Auth.Jwt.{PyJwt, Endpoint}
use personal_portfolio_analy.Snapshot.{invalidate}
use personal_portfolio_analy.Auth.Session.{
  Session, Settings, deleted, auth_id_of, pays, tombstoned, delete_me, require_auth,
}
use personal_portfolio_analy.Auth.Session.Refusals.{IsOut, IsOldRequest, require_auth-IsOut}

module _ (auth_id : ℕ) where
  -- What a deletion that is carried out leaves.
  abbrev after : Option ℕ → ℕ → ℕ → Session → Session
  after b user_id now s = record s {
    store = tombstoned b now (delete_user_data user_id s.store);
    cache = evict_tokens_for b (evict_user b s.cache);
    snaps = invalidate user_id [] s.snaps;
  }

  other-after :
      (at user_id now : ℕ) (b : Option ℕ) (s : Session)
      → holds b auth_id ≡ false
      → IsOut auth_id at s
      → IsOut auth_id at (after b user_id now s)
  unfolding delete_user_data tombstone_auth_id evict_user evict_tokens_for
  other-after at user_id now none s other out =
      (out.0, (find_user-pop auth_id user_id s.store.users out.1.0, out.1.1))
  other-after at user_id now (some b) s other out =
      let differ : (b ≢ auth_id) = ground (arith, other) in
      (
        absent-pop auth_id b s.cache.user_ids out.0,
        (
          find_user-pop auth_id user_id s.store.users out.1.0,
          lookup-insert_ne b auth_id now s.store.tombstones differ ∙ out.1.1,
        ),
      )

  own-after :
      (user_id now : ℕ) (u : User) (s : Session)
      → lookup user_id s.store.users ≡ some u
      → holds u.auth_id auth_id ≡ true
      → row_count auth_id s.store.users ≤ 1
      → IsOut auth_id now (after (some auth_id) user_id now s)
  unfolding delete_user_data tombstone_auth_id evict_user evict_tokens_for
  own-after user_id now u s found mine one = (
    lookup-pop auth_id s.cache.user_ids,
    (
      only_row-pop auth_id user_id u s.store.users found mine one,
      lookup-insert_self auth_id now s.store.tombstones,
    ),
  )

  other-delete_me :
      (billing cancels : Bool) (at user_id now : ℕ) (s : Session)
      → IsOut auth_id at s
      → IsOut auth_id at (delete_me billing cancels user_id now s).1
  unfolding delete_me
  other-delete_me billing cancels at user_id now s out =
      let other : holds (auth_id_of (lookup user_id s.store.users)) auth_id ≡ false =
        elim (Option-cases (lookup user_id s.store.users)) [
          | inl absent ↦ rw absent refl
          | inr (u, found) ↦
              rw found (find_user-lookup auth_id user_id u s.store.users out.1.0 found)
        ] in
      elim (Bool-cases (user_id == owner)) [
        | inl is_owner ↦ rw (delete_me, is_owner) out
        | inr user ↦
            elim (Bool-cases (pays (lookup user_id s.store.users) && billing && not cancels)) [
              | inl fails ↦ rw (delete_me, user, fails) out
              | inr goes ↦
                  rw (delete_me, user, goes)
                    (other-after at user_id now (auth_id_of (lookup user_id s.store.users)) s other
                      out)
            ]
      ]

  own-delete_me :
      (billing cancels : Bool) (user_id now : ℕ) (u : User) (s : Session)
      → (delete_me billing cancels user_id now s).0 ≡ deleted
      → lookup user_id s.store.users ≡ some u
      → u.auth_id ≡ some auth_id
      → row_count auth_id s.store.users ≤ 1
      → IsOut auth_id now (delete_me billing cancels user_id now s).1
  unfolding delete_me
  own-delete_me billing cancels user_id now u s done found mine one =
      let holder : (holds u.auth_id auth_id ≡ true) = rw mine (eq_self auth_id) in
      let signed : (auth_id_of (lookup user_id s.store.users) ≡ some auth_id) = rw found mine in
      elim (Bool-cases (user_id == owner)) [
        | inl is_owner ↦ ground (arith, rw (delete_me, is_owner) at done)
        | inr user ↦
            elim (Bool-cases (pays (lookup user_id s.store.users) && billing && not cancels)) [
              | inl fails ↦ ground (arith, rw (delete_me, user, fails) at done)
              | inr goes ↦
                  rw (delete_me, user, goes, signed) (own-after user_id now u s found holder one)
            ]
      ]

-- What the process does: it serves the authentication of a request or a deletion, or it writes the
-- tables with an operation that sets no auth id and no mark of a deletion.
pub data Step (lib : PyJwt) (c : Settings) (Asked : Option ℕ → Type 0)
    : Session → Session → Type 0 where
  requested :
      (endpoint : Endpoint) (exempt : Bool) (supplied : Option ℕ) (now : ℕ) (s : Session)
      → Asked supplied
      → Step lib c Asked s (require_auth lib endpoint c exempt supplied now s).1
  erased :
      (billing cancels : Bool) (user_id now : ℕ) (s : Session)
      → Step lib c Asked s (delete_me billing cancels user_id now s).1
  worked :
      (s : Session) (store : Store)
      → ((a : ℕ) → find_user (account a) store.users ≡ find_user (account a) s.store.users)
      → store.tombstones ≡ s.store.tombstones
      → Step lib c Asked s (record s { store = store })

pub data Reach (lib : PyJwt) (c : Settings) (Asked : Option ℕ → Type 0) (s : Session)
    : Session → Type 0 where
  here : Reach lib c Asked s s
  next : {t u : Session} → Reach lib c Asked s t → Step lib c Asked t u → Reach lib c Asked s u

module _ (auth_id at : ℕ) (lib : PyJwt) (c : Settings) where
  Step-IsOut :
      {s s' : Session}
      → Step lib c (IsOldRequest auth_id at lib) s s'
      → IsOut auth_id at s
      → IsOut auth_id at s'
  Step-IsOut (requested endpoint exempt supplied now s old) out =
      require_auth-IsOut auth_id at lib endpoint c exempt supplied now s old out
  Step-IsOut (erased billing cancels user_id now s) out =
      other-delete_me auth_id billing cancels at user_id now s out
  Step-IsOut (worked s store users marks) out =
      (out.0, (users auth_id ∙ out.1.0, ap (lookup auth_id) marks ∙ out.1.1))

  Reach-IsOut :
      {s s' : Session}
      → Reach lib c (IsOldRequest auth_id at lib) s s'
      → IsOut auth_id at s
      → IsOut auth_id at s'
  Reach-IsOut here out = out
  Reach-IsOut (next r st) out = Step-IsOut st (Reach-IsOut r out)

-- Once the deletion of the only user of an auth id has gone through, no user of that auth id is
-- there again, and its mark stays, whatever requests, deletions and other work follow, if no token
-- of that auth id that is sent was issued after the deletion.
pub deleted_stays_out :
    (auth_id at user_id : ℕ) (billing cancels : Bool) (lib : PyJwt) (c : Settings) (u : User)
    (s s' : Session)
    → (delete_me billing cancels user_id at s).0 ≡ deleted
    → lookup user_id s.store.users ≡ some u
    → u.auth_id ≡ some auth_id
    → row_count auth_id s.store.users ≤ 1
    → Reach lib c (IsOldRequest auth_id at lib) (delete_me billing cancels user_id at s).1 s'
    → (find_user (account auth_id) s'.store.users ≡ none)
      × (lookup auth_id s'.store.tombstones ≡ some at)
deleted_stays_out auth_id at user_id billing cancels lib c u s s' done found mine one r =
    (Reach-IsOut auth_id at lib c r
      (own-delete_me auth_id billing cancels user_id at u s done found mine one)).1
