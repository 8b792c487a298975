-- ===== src/Accounts/SignIn.antt =====
-- Sign-in, deletion, and the tokens that were issued before it.
use personal_portfolio_analy.Prelude.{
  ℕ, ◌≤◌, ◌<◌, ◌≡◌, Bool, true, Option, none, some, [], ◌∷◌, arith,
}
use personal_portfolio_analy.Prelude.Dict.{Dict, lookup, insert, erase, lookup-insert_self}
use personal_portfolio_analy.Store.{Store, User, FunnelEvent}
use personal_portfolio_analy.Accounts.{
  find_user, holds, get_or_create_user, tombstone_auth_id, record_funnel_event, new_user,
}

find_user-insert :
    (p : User → Bool) (k : ℕ) (u : User) (us : Dict User)
    → find_user p us ≡ none
    → p u ≡ true
    → find_user p (insert k u us) ≡ some k
find_user-insert p k u [] e h = rw h
find_user-insert p k u ((j, v) ∷ us) e h = ground (arith, find_user-insert p k u us)

pub users-record_funnel_event :
    (e : FunnelEvent) (uid : ℕ) (s : Store) → (record_funnel_event e uid s).users ≡ s.users
unfolding record_funnel_event
users-record_funnel_event e uid s = ground arith

pub found-stays :
    (auth_id uid : ℕ) (later : Option ℕ) (s : Store)
    → find_user (λ u. holds u.auth_id auth_id) s.users ≡ some uid
    → get_or_create_user auth_id later s ≡ (some uid, s)
unfolding get_or_create_user
found-stays auth_id uid later s e = ground arith

pub signed_in-found :
    (auth_id uid : ℕ) (issued_at : Option ℕ) (s s' : Store)
    → get_or_create_user auth_id issued_at s ≡ (some uid, s')
    → find_user (λ u. holds u.auth_id auth_id) s'.users ≡ some uid
unfolding get_or_create_user record_funnel_event
signed_in-found auth_id uid issued_at s s' e =
    ground
      (arith, find_user-insert (λ u. holds u.auth_id auth_id) s.next_id (new_user auth_id) s.users)

-- A sign-in that succeeds gives every later sign-in of the same auth id, with whatever token, the
-- same user, and changes nothing more.
pub sign_in_again :
    (auth_id uid : ℕ) (issued_at later : Option ℕ) (s s' : Store)
    → get_or_create_user auth_id issued_at s ≡ (some uid, s')
    → get_or_create_user auth_id later s' ≡ (some uid, s')
sign_in_again auth_id uid issued_at later s s' e =
    found-stays auth_id uid later s' (signed_in-found auth_id uid issued_at s s' e)

-- After the deletion of an account at `deleted`, with its user gone, a token that has no date, or
-- was issued by then, is refused and changes nothing.
pub old_token_refused :
    (auth_id deleted issued : ℕ) (s : Store)
    → find_user (λ u. holds u.auth_id auth_id) s.users ≡ none
    → issued ≤ deleted
    → let s' = tombstone_auth_id auth_id deleted s in
      (get_or_create_user auth_id none s' ≡ (none, s'))
      × (get_or_create_user auth_id (some issued) s' ≡ (none, s'))
unfolding get_or_create_user tombstone_auth_id
old_token_refused auth_id deleted issued s absent old =
    let marked = lookup-insert_self auth_id deleted s.tombstones in (ground arith, ground arith)

-- After the deletion of an account, with its user gone, a token that was issued later makes a new
-- user, on the free plan and with no trial, and takes the mark of the deletion away.
pub new_token_signs_up :
    (auth_id deleted issued : ℕ) (s : Store)
    → find_user (λ u. holds u.auth_id auth_id) s.users ≡ none
    → deleted < issued
    → let s' = tombstone_auth_id auth_id deleted s in
      let (uid, s'') = get_or_create_user auth_id (some issued) s' in
      (uid ≡ some s.next_id)
      × (lookup s.next_id s''.users ≡ some (new_user auth_id))
      × (s''.tombstones ≡ erase auth_id s'.tombstones)
unfolding get_or_create_user tombstone_auth_id record_funnel_event
new_token_signs_up auth_id deleted issued s absent new =
    let marked = lookup-insert_self auth_id deleted s.tombstones in
    let made = lookup-insert_self s.next_id (new_user auth_id) s.users in
    (ground arith, ground arith, ground arith)
