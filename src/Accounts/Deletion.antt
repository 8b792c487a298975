-- ===== src/Accounts/Deletion.antt =====
-- `Repo.delete_user_data` of app/db/repo.py: every row of a user. The tables `push_devices` and
-- `funnel_events` follow the user's row by `ON DELETE CASCADE` (migrations 030 and 025).
use personal_portfolio_analy.Prelude.{
  ℕ, ◌≡◌, ◌≢◌, refl, ap, false, Option, none, List, [], ◌∷◌, arith, keep, not, inl, inr, Bool-cases,
  ◌==◌,
}
use personal_portfolio_analy.Prelude.Dict.{Dict, lookup, pop}
use personal_portfolio_analy.Prelude.Ordered.{lookup-pop}
use personal_portfolio_analy.Store.{
  Store, User, OutboundMessage, NotificationChannel, PushDevice, VerificationCode, FunnelEvent,
}

unfoldable pub delete_user_data : ℕ → Store → Store
delete_user_data user_id s = record s {
  outbound = keep (λ m. not (m.user_id == user_id)) s.outbound;
  channels = keep (λ c. not (c.user_id == user_id)) s.channels;
  codes = keep (λ c. not (c.user_id == user_id)) s.codes;
  devices = keep (λ d. not (d.user_id == user_id)) s.devices;
  funnel = keep (λ e. not (e.0 == user_id)) s.funnel;
  users = pop user_id s.users;
}

module _ {A : Type 0} (user_of : A → ℕ) where
  -- The rows of a user.
  abbrev pub rows_of : ℕ → List A → List A
  rows_of user_id = keep (λ r. user_of r == user_id)

  gone-rows_of :
      (user_id : ℕ) (rows : List A)
      → rows_of user_id (keep (λ r. not (user_of r == user_id)) rows) ≡ []
  gone-rows_of user_id [] = refl
  gone-rows_of user_id (r ∷ rows) = elim (Bool-cases (user_of r == user_id)) [
    | inl mine ↦ rw mine (gone-rows_of user_id rows)
    | inr other ↦ rw (other, other) (gone-rows_of user_id rows)
  ]

  other-rows_of :
      (user_id v : ℕ) (rows : List A)
      → v ≢ user_id
      → rows_of v (keep (λ r. not (user_of r == user_id)) rows) ≡ rows_of v rows
  other-rows_of user_id v [] h = refl
  other-rows_of user_id v (r ∷ rows) h = elim (Bool-cases (user_of r == user_id)) [
    | inl mine ↦
        let skipped : (user_of r == v ≡ false) = ground arith in
        rw (mine, skipped) (other-rows_of user_id v rows h)
    | inr other ↦ elim (Bool-cases (user_of r == v)) [
      | inl its ↦ rw (other, its) (ap (λ rs. r ∷ rs) (other-rows_of user_id v rows h))
      | inr not_its ↦ rw (other, not_its) (other-rows_of user_id v rows h)
    ]
  ]

-- The rows that the tables hold of a user.
pub record Rows : Type 0 where
  pub user : Option User
  pub channels : List NotificationChannel
  pub devices : List PushDevice
  pub outbound : List OutboundMessage
  pub codes : List VerificationCode
  pub funnel : List (ℕ × FunnelEvent)

abbrev pub rows : ℕ → Store → Rows
rows user_id s = record {
  user = lookup user_id s.users;
  channels = rows_of (λ c. c.user_id) user_id s.channels;
  devices = rows_of (λ d. d.user_id) user_id s.devices;
  outbound = rows_of (λ m. m.user_id) user_id s.outbound;
  codes = rows_of (λ c. c.user_id) user_id s.codes;
  funnel = rows_of (λ e. e.0) user_id s.funnel;
}

abbrev pub no_rows : Rows
no_rows = record {
  user = none;
  channels = [];
  devices = [];
  outbound = [];
  codes = [];
  funnel = [];
}

lookup-pop_ne : (k j : ℕ) (us : Dict User) → j ≢ k → lookup j (pop k us) ≡ lookup j us
lookup-pop_ne k j [] h = refl
lookup-pop_ne k j (e ∷ us) h = elim (Bool-cases (e.0 == k)) [
  | inl mine ↦
      let skipped : (e.0 == j ≡ false) = ground arith in rw (mine, skipped) (lookup-pop_ne k j us h)
  | inr other ↦ elim (Bool-cases (e.0 == j)) [
    | inl its ↦ rw (other, its) refl
    | inr not_its ↦ rw (other, not_its) (lookup-pop_ne k j us h)
  ]
]

-- The deletion leaves no row of the user in any of the tables modelled, and every row of the
-- others, in their order.
pub deletes_own_rows :
    (user_id v : ℕ) (s : Store)
    → v ≢ user_id
    → (rows user_id (delete_user_data user_id s) ≡ no_rows)
      × (rows v (delete_user_data user_id s) ≡ rows v s)
unfolding delete_user_data
deletes_own_rows user_id v s h = (
  rw
      (
        lookup-pop user_id s.users,
        gone-rows_of (λ c. c.user_id) user_id s.channels,
        gone-rows_of (λ d. d.user_id) user_id s.devices,
        gone-rows_of (λ m. m.user_id) user_id s.outbound,
        gone-rows_of (λ c. c.user_id) user_id s.codes,
        gone-rows_of (λ e. e.0) user_id s.funnel,
      )
      refl,
  rw
      (
        lookup-pop_ne user_id v s.users h,
        other-rows_of (λ c. c.user_id) user_id v s.channels h,
        other-rows_of (λ d. d.user_id) user_id v s.devices h,
        other-rows_of (λ m. m.user_id) user_id v s.outbound h,
        other-rows_of (λ c. c.user_id) user_id v s.codes h,
        other-rows_of (λ e. e.0) user_id v s.funnel h,
      )
      refl,
)
