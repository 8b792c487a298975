-- ===== src/Accounts/Rows.antt =====
-- The table of users by its primary key: new rows have new ids, and no two rows have one id.
use personal_portfolio_analy.Prelude.{
  ℕ, ◌+◌, ◌<◌, ◌≡◌, ◌≢◌, refl, Bool, true, false, Option, some, [], ◌∷◌, arith, All, inl, inr,
  Bool-cases, Option-cases, ◌==◌, keep,
}
use personal_portfolio_analy.Prelude.Dict.{Dict, lookup, insert, erase, pop}
use personal_portfolio_analy.Prelude.Entries.{All-keep, All-lookup}
use personal_portfolio_analy.Store.{Store, User, FunnelEvent, signup}
use personal_portfolio_analy.Accounts.{
  find_user, new_user, is_refused, get_or_create_user, record_funnel_event,
}
use personal_portfolio_analy.Accounts.SignIn.{users-record_funnel_event}
use personal_portfolio_analy.Accounts.Gone.{account}

abbrev DistinctIds : Dict User → Type 0
DistinctIds [] = Unit
DistinctIds (e ∷ us) = All (λ f. f.0 ≢ e.0) us × DistinctIds us

pub record IsTable (s : Store) : Type 0 where
  pub fresh : All (λ e. e.0 < s.next_id) s.users
  pub distinct : DistinctIds s.users

pub fresh-insert :
    (n : ℕ) (u : User) (us : Dict User)
    → All (λ e. e.0 < n) us
    → All (λ e. e.0 < n + 1) (insert n u us)
fresh-insert n u [] h = (omega arith, tt)
fresh-insert n u ((j, w) ∷ us) h =
    let old = h.0 in
    let other : ((j == n) ≡ false) = ground (arith, old) in
    rw other (omega (arith, old), fresh-insert n u us h.1)

ids-insert :
    (k n : ℕ) (u : User) (us : Dict User)
    → n ≢ k
    → All (λ e. e.0 ≢ k) us
    → All (λ e. e.0 ≢ k) (insert n u us)
ids-insert k n u [] ne h = (ne, tt)
ids-insert k n u ((j, w) ∷ us) ne h = elim (Bool-cases (j == n)) [
  | inl here ↦ rw here (ne, h.1)
  | inr there ↦ rw there (h.0, ids-insert k n u us ne h.1)
]

distinct-insert :
    (n : ℕ) (u : User) (us : Dict User)
    → All (λ e. e.0 < n) us
    → DistinctIds us
    → DistinctIds (insert n u us)
distinct-insert n u [] h d = (tt, tt)
distinct-insert n u ((j, w) ∷ us) h d =
    let old = h.0 in
    let other : ((j == n) ≡ false) = ground (arith, old) in
    let ne : (n ≢ j) = ground (arith, old) in
    rw other (ids-insert j n u us ne d.0, distinct-insert n u us h.1 d.1)

distinct-keep : (p : ℕ × User → Bool) (us : Dict User) → DistinctIds us → DistinctIds (keep p us)
distinct-keep p [] d = tt
distinct-keep p (e ∷ us) d = elim (Bool-cases (p e)) [
  | inl stays ↦ rw stays (All-keep (λ f. f.0 ≢ e.0) p us d.0, distinct-keep p us d.1)
  | inr goes ↦ rw goes (distinct-keep p us d.1)
]

module _ (p : User → Bool) where
  found-insert :
      (n v : ℕ) (u : User) (us : Dict User)
      → All (λ e. e.0 < n) us
      → find_user p us ≡ some v
      → find_user p (insert n u us) ≡ some v
  found-insert n v u [] h found = absurd (ground (arith, found))
  found-insert n v u ((j, w) ∷ us) h found =
      let old = h.0 in
      let other : ((j == n) ≡ false) = ground (arith, old) in
      elim (Bool-cases (p w)) [
        | inl mine ↦ rw (other, mine) (rw mine at found)
        | inr its ↦ rw (other, its) (found-insert n v u us h.1 (rw its at found))
      ]

  pub found-pop :
      (k v : ℕ) (us : Dict User) → v ≢ k → find_user p us ≡ some v → find_user p (pop k us) ≡ some v
  found-pop k v [] ne found = absurd (ground (arith, found))
  found-pop k v ((j, w) ∷ us) ne found = elim (Bool-cases (p w)) [
    | inl mine ↦
        let first = rw mine at found in
        let same : (j ≡ v) = ground (arith, first) in
        let kept : ((j == k) ≡ false) = ground (arith, same, ne) in rw (kept, mine) first
    | inr its ↦
        let rest = found-pop k v us ne (rw its at found) in
        elim (Bool-cases (j == k)) [ inl gone ↦ rw gone rest | inr kept ↦ rw (kept, its) rest ]
  ]

  -- The row that is found is the row under its id.
  pub found-row :
      (v : ℕ) (us : Dict User)
      → DistinctIds us
      → find_user p us ≡ some v
      → (u : User) × (lookup v us ≡ some u) × (p u ≡ true)
  found-row v [] d found = absurd (ground (arith, found))
  found-row v ((j, w) ∷ us) d found = elim (Bool-cases (p w)) [
    | inl mine ↦
        let first = rw mine at found in
        let same : ((j == v) ≡ true) = ground (arith, first) in (w, rw same refl, mine)
    | inr its ↦
        let (u, row, holds_p) = found-row v us d.1 (rw its at found) in
        let ne = All-lookup (λ f. f.0 ≢ j) v u us d.0 row in
        let other : ((j == v) ≡ false) = ground (arith, ne) in (u, rw other row, holds_p)
  ]

next_id-record_funnel_event :
    (e : FunnelEvent) (uid : ℕ) (s : Store) → (record_funnel_event e uid s).next_id ≡ s.next_id
unfolding record_funnel_event
next_id-record_funnel_event e uid s = ground arith

-- A sign-in keeps the table, and the users that there are.
pub get_or_create_user-keeps :
    (auth_id : ℕ) (issued_at : Option ℕ) (s : Store)
    → IsTable s
    → let s' = (get_or_create_user auth_id issued_at s).1 in
      IsTable s'
      × ((a v : ℕ)
          → find_user (account a) s.users ≡ some v
          → find_user (account a) s'.users ≡ some v)
unfolding get_or_create_user
get_or_create_user-keeps auth_id issued_at s t =
    elim (Option-cases (find_user (account auth_id) s.users)) [
      | inr (uid, found) ↦ rw (get_or_create_user, found) (t, λ a v e. e)
      | inl absent ↦ elim (Bool-cases (is_refused issued_at (lookup auth_id s.tombstones))) [
        | inl old ↦ rw (get_or_create_user, absent, old) (t, λ a v e. e)
        | inr new ↦
            let made : Store = record s {
              next_id = s.next_id + 1;
              users = insert s.next_id (new_user auth_id) s.users;
              tombstones = erase auth_id s.tombstones;
            } in
            rw (get_or_create_user, absent, new)
              (
                record {
                  fresh =
                      rw
                        (
                          users-record_funnel_event signup s.next_id made,
                          next_id-record_funnel_event signup s.next_id made,
                        )
                        (fresh-insert s.next_id (new_user auth_id) s.users t.fresh);
                  distinct =
                      rw (users-record_funnel_event signup s.next_id made)
                        (distinct-insert s.next_id (new_user auth_id) s.users t.fresh t.distinct);
                },
                λ a v found.
                    rw (users-record_funnel_event signup s.next_id made) (
                      found-insert (account a) s.next_id v (new_user auth_id) s.users t.fresh
                        found),
              )
      ]
    ]

pub IsTable-pop :
    (k : ℕ) (s s' : Store)
    → s'.users ≡ pop k s.users
    → s'.next_id ≡ s.next_id
    → IsTable s
    → IsTable s'
IsTable-pop k s s' users next t = record {
  fresh = rw (users, next) (All-keep (λ e. e.0 < s.next_id) _ s.users t.fresh);
  distinct = rw users (distinct-keep _ s.users t.distinct);
}
