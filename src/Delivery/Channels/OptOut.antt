-- ===== src/Delivery/Channels/OptOut.antt =====
-- The write of an opt-out, row by row (app/db/repo.py).
use personal_portfolio_analy.Prelude.{
  ℕ, ◌≡◌, refl, ap, Bool, true, ◌&&◌, none, some, List, [], ◌∷◌, arith, map, inl, inr, Bool-cases,
  ◌==◌, eq_self, if◌then◌else◌,
}
use personal_portfolio_analy.Store.{Text, Channel, NotificationChannel}
use personal_portfolio_analy.Delivery.Channels.{same_channel, same_text, find_row, set_opt_out}

pub same_text_refl : (t : Text) → same_text t t ≡ true
unfolding same_text
same_text_refl [] = refl
same_text_refl (c ∷ t) = rw (eq_self c) (same_text_refl t)

pub same_text_eq : (s t : Text) → same_text s t ≡ true → s ≡ t
unfolding same_text
same_text_eq [] [] h = refl
same_text_eq [] (d ∷ t) h = ground (arith, h)
same_text_eq (c ∷ s) [] h = ground (arith, h)
same_text_eq (c ∷ s) (d ∷ t) h = elim (Bool-cases (c == d)) [
  | inl same ↦
      let head : (c ≡ d) = ground (arith, same) in let tail = same_text_eq s t (rw same at h) in cc
  | inr differ ↦ ground (arith, rw differ at h)
]

module _ (c : Channel) (destination : Text) where
  -- A row of the channel with the destination.
  abbrev pub is_at : NotificationChannel → Bool
  is_at r = same_channel r.channel c && same_text r.destination destination

  abbrev pub mark : Bool → ℕ → NotificationChannel → NotificationChannel
  mark out now r = if is_at r then record r { opted_out_at = if out then some now else none } else r

  abbrev marks : Bool → ℕ → List NotificationChannel → List NotificationChannel
  marks out now = map (mark out now)

  pub set_opt_out-map :
      (out : Bool) (now : ℕ) (rs : List NotificationChannel)
      → (set_opt_out c destination out now rs).0 ≡ map (mark out now) rs
  unfolding set_opt_out
  set_opt_out-map out now [] = refl
  set_opt_out-map out now (r ∷ rs) = elim (Bool-cases (is_at r)) [
    | inl here ↦ rw here (
        ap (λ rest. record r { opted_out_at = if out then some now else none } ∷ rest)
          (set_opt_out-map out now rs))
    | inr there ↦ rw there (ap (λ rest. r ∷ rest) (set_opt_out-map out now rs))
  ]

  -- The last write decides.
  pub mark-mark :
      (a b : Bool) (now later : ℕ) (rs : List NotificationChannel)
      → map (mark b later) (map (mark a now) rs) ≡ map (mark b later) rs
  mark-mark a b now later [] = refl
  mark-mark a b now later (r ∷ rs) = elim (Bool-cases (is_at r)) [
    | inl here ↦
        rw (here, here)
          (ap (λ rest. record r { opted_out_at = if b then some later else none } ∷ rest)
            (mark-mark a b now later rs))
    | inr there ↦ rw (there, there) (ap (λ rest. r ∷ rest) (mark-mark a b now later rs))
  ]

  pub find_row-mark :
      (uid : ℕ) (out : Bool) (now : ℕ) (rs : List NotificationChannel) (row : NotificationChannel)
      → find_row uid c rs ≡ some row
      → same_text row.destination destination ≡ true
      → find_row uid c (map (mark out now) rs)
        ≡ some (record row { opted_out_at = if out then some now else none })
  unfolding find_row
  find_row-mark uid out now [] row found same = ground (arith, found)
  find_row-mark uid out now (r ∷ rs) row found same =
      elim (Bool-cases (r.user_id == uid && same_channel r.channel c)) [
        | inl its ↦
            let first : (r ≡ row) = ground (arith, rw its at found) in
            let on : (same_channel r.channel c ≡ true) = ground (arith, its) in
            let here : (is_at r ≡ true) = rw (on, first) same in
            rw (here, its)
              (ap {A = NotificationChannel}
                (λ q. some (record q { opted_out_at = if out then some now else none })) first)
        | inr other ↦
            let rest = find_row-mark uid out now rs row (rw other at found) same in
            elim (Bool-cases (is_at r)) [
              | inl here ↦ rw (here, other) rest
              | inr there ↦ rw (there, other) rest
            ]
      ]
