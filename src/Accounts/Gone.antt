-- ===== src/Accounts/Gone.antt =====
-- The rows of an account that is deleted and marked, over the sign-ins of app/db/repo.py.
use personal_portfolio_analy.Prelude.{
  ℕ, ◌+◌, ◌≤◌, keep, length, ◌≡◌, ◌≢◌, refl, ◌∙◌, Bool, true, false, Option, none, some, [], ◌∷◌,
  arith, inl, inr, Bool-cases, Option-cases, ◌==◌,
}
use personal_portfolio_analy.Prelude.Dict.{Dict, lookup, insert, erase, pop}
use personal_portfolio_analy.Store.{Store, User, FunnelEvent, signup}
use personal_portfolio_analy.Accounts.{
  find_user, holds, new_user, is_refused, get_or_create_user, record_funnel_event,
}
use personal_portfolio_analy.Accounts.SignIn.{users-record_funnel_event}

module _ (auth_id : ℕ) where
  abbrev pub account : User → Bool
  account u = holds u.auth_id auth_id

  absent-insert :
      (k : ℕ) (u : User) (us : Dict User)
      → account u ≡ false
      → find_user account us ≡ none
      → find_user account (insert k u us) ≡ none
  absent-insert k u [] other h = rw other refl
  absent-insert k u ((j, v) ∷ us) other h = elim (Bool-cases (account v)) [
    | inl mine ↦ ground (arith, rw mine at h)
    | inr its ↦
        let rest = absent-insert k u us other (rw its at h) in
        let same = rw its at h in
        elim (Bool-cases (j == k)) [
          | inl here ↦ rw (here, other) same
          | inr there ↦ rw (there, its) rest
        ]
  ]

  lookup-erase_ne :
      (k : ℕ) (d : Dict ℕ) → auth_id ≢ k → lookup auth_id (erase k d) ≡ lookup auth_id d
  lookup-erase_ne k [] h = refl
  lookup-erase_ne k ((j, v) ∷ d) h = let ih = lookup-erase_ne k d h in ground (arith, ih)

  tombstones-record_funnel_event :
      (e : FunnelEvent) (uid : ℕ) (s : Store)
      → (record_funnel_event e uid s).tombstones ≡ s.tombstones
  unfolding record_funnel_event
  tombstones-record_funnel_event e uid s = ground arith

  -- No row of the account is there, and its deletion is marked.
  abbrev pub IsGone : ℕ → Store → Type 0
  IsGone at s = (find_user account s.users ≡ none) × (lookup auth_id s.tombstones ≡ some at)

  pub own-get_or_create_user :
      (at : ℕ) (issued_at : Option ℕ) (s : Store)
      → IsGone at s
      → is_refused issued_at (some at) ≡ true
      → get_or_create_user auth_id issued_at s ≡ (none, s)
  unfolding get_or_create_user
  own-get_or_create_user at issued_at s gone old = rw (get_or_create_user, gone.0, gone.1, old) refl

  pub other-get_or_create_user :
      (at b : ℕ) (issued_at : Option ℕ) (s : Store)
      → auth_id ≢ b
      → IsGone at s
      → IsGone at (get_or_create_user b issued_at s).1
  unfolding get_or_create_user
  other-get_or_create_user at b issued_at s ne gone =
      elim (Option-cases (find_user (λ u. holds u.auth_id b) s.users)) [
        | inr (uid, found) ↦ rw (get_or_create_user, found) gone
        | inl absent ↦ elim (Bool-cases (is_refused issued_at (lookup b s.tombstones))) [
          | inl old ↦ rw (get_or_create_user, absent, old) gone
          | inr new ↦
              let made : Store = record s {
                next_id = s.next_id + 1;
                users = insert s.next_id (new_user b) s.users;
                tombstones = erase b s.tombstones;
              } in
              rw
                (
                  get_or_create_user,
                  absent,
                  new,
                  users-record_funnel_event signup s.next_id made,
                  tombstones-record_funnel_event signup s.next_id made,
                )
                (
                  absent-insert s.next_id (new_user b) s.users (ground arith) gone.0,
                  lookup-erase_ne b s.tombstones ne ∙ gone.1,
                )
        ]
      ]

  pub find_user-pop :
      (k : ℕ) (us : Dict User) → find_user account us ≡ none → find_user account (pop k us) ≡ none
  find_user-pop k [] h = h
  find_user-pop k ((j, v) ∷ us) h = elim (Bool-cases (account v)) [
    | inl mine ↦ ground (arith, rw mine at h)
    | inr its ↦
        let rest = find_user-pop k us (rw its at h) in
        elim (Bool-cases (j == k)) [ inl gone ↦ rw gone rest | inr kept ↦ rw (kept, its) rest ]
  ]

  -- A row that is there is of no account that is not.
  pub find_user-lookup :
      (k : ℕ) (u : User) (us : Dict User)
      → find_user account us ≡ none
      → lookup k us ≡ some u
      → account u ≡ false
  find_user-lookup k u [] h found = ground (arith, found)
  find_user-lookup k u ((j, v) ∷ us) h found = elim (Bool-cases (account v)) [
    | inl mine ↦ ground (arith, rw mine at h)
    | inr its ↦ elim (Bool-cases (j == k)) [
      | inl here ↦ let same : (v ≡ u) = ground (arith, found, here) in rw same at its
      | inr there ↦ find_user-lookup k u us (rw its at h) (ground (arith, found, there))
    ]
  ]

  -- How many rows the account has.
  abbrev pub row_count : Dict User → ℕ
  row_count us = length (keep (λ e. account e.1) us)

  no_row-find_user : (us : Dict User) → row_count us ≡ 0 → find_user account us ≡ none
  no_row-find_user [] h = refl
  no_row-find_user ((j, v) ∷ us) h = elim (Bool-cases (account v)) [
    | inl mine ↦ let more = rw mine at h in ground (arith, more)
    | inr its ↦ rw its (no_row-find_user us (rw its at h))
  ]

  row-counted :
      (k : ℕ) (u : User) (us : Dict User)
      → lookup k us ≡ some u
      → account u ≡ true
      → 1 ≤ row_count us
  row-counted k u [] found mine = ground (arith, found)
  row-counted k u ((j, v) ∷ us) found mine = elim (Bool-cases (j == k)) [
    | inl here ↦
        let same : (v ≡ u) = ground (arith, found, here) in
        let its : (account v ≡ true) = rw same mine in rw its (omega arith)
    | inr there ↦
        let ih = row-counted k u us (ground (arith, found, there)) mine in
        elim (Bool-cases (account v)) [ inl its ↦ rw its (omega arith) | inr other ↦ rw other ih ]
  ]

  -- An account that has one row has none once that row is deleted.
  pub only_row-pop :
      (k : ℕ) (u : User) (us : Dict User)
      → lookup k us ≡ some u
      → account u ≡ true
      → row_count us ≤ 1
      → find_user account (pop k us) ≡ none
  only_row-pop k u [] found mine one = refl
  only_row-pop k u ((j, v) ∷ us) found mine one = elim (Bool-cases (j == k)) [
    | inl here ↦
        let same : (v ≡ u) = ground (arith, found, here) in
        let its : (account v ≡ true) = rw same mine in
        let one' = rw its at one in
        rw here (find_user-pop k us (no_row-find_user us (omega (arith, one'))))
    | inr there ↦
        let rest : (lookup k us ≡ some u) = ground (arith, found, there) in
        let counted = row-counted k u us rest mine in
        elim (Bool-cases (account v)) [
          | inl its ↦ let one' = rw its at one in ground (arith, counted, one')
          | inr other ↦ rw (there, other) (only_row-pop k u us rest mine (rw other at one))
        ]
  ]
