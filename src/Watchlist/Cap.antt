-- ===== src/Watchlist/Cap.antt =====
-- The cap of a watchlist in app/main.py, over requests that come one after the other.
use personal_portfolio_analy.Prelude.{
  ℕ, ◌+◌, ◌≤◌, ◌≡◌, ◌≢◌, refl, sym, ◌∙◌, ltb→lt, eq_self, Bool, true, false, not, Option, [], ◌∷◌,
  ◌++◌, arith, any, keep, length, inl, inr, Bool-cases, ◌==◌, if◌then◌else◌,
}
use personal_portfolio_analy.Store.{User, owner}
use personal_portfolio_analy.Plans.{PlanSettings, effective_plan, max_watchlist}
use personal_portfolio_analy.Watchlist.{
  Items, is_item, get_watchlist_tickers, add_watchlist_ticker, remove_watchlist_ticker, has_room,
  add_to_watchlist,
}

module _ (user_id : ℕ) where
  -- How many tickers the user watches.
  abbrev pub watched : Items → ℕ
  watched items = length (get_watchlist_tickers user_id items)

  pub watched-append :
      (items : Items) (u t : ℕ)
      → watched (items ++ (u, t) ∷ []) ≡ (if u == user_id then watched items + 1 else watched items)
  watched-append [] u t = ground arith
  watched-append (i ∷ items) u t = let ih = watched-append items u t in ground (arith, ih)

  watched-keep : (p : ℕ × ℕ → Bool) (items : Items) → watched (keep p items) ≤ watched items
  watched-keep p [] = omega arith
  watched-keep p (i ∷ items) =
      let ih = watched-keep p items in
      elim (Bool-cases (p i)) [
        | inl kept ↦ elim (Bool-cases (i.0 == user_id)) [
          | inl mine ↦ rw (kept, mine) (omega (arith, ih))
          | inr other ↦ rw (kept, other) ih
        ]
        | inr gone ↦ elim (Bool-cases (i.0 == user_id)) [
          | inl mine ↦ rw (gone, mine) (omega (arith, ih))
          | inr other ↦ rw (gone, other) ih
        ]
      ]

  -- A ticker among the user's has a row.
  ticker-item :
      (ticker : ℕ) (items : Items)
      → any (is_item user_id ticker) items
        ≡ any (λ t. t == ticker) (get_watchlist_tickers user_id items)
  ticker-item ticker [] = refl
  ticker-item ticker (i ∷ items) =
      let ih = ticker-item ticker items in
      elim (Bool-cases (i.0 == user_id)) [
        | inl mine ↦ elim (Bool-cases (i.1 == ticker)) [
          | inl same ↦ rw (mine, same) refl
          | inr differ ↦ rw (mine, differ) ih
        ]
        | inr other ↦ rw other ih
      ]

  other-add :
      (u t : ℕ) (items : Items)
      → u ≢ user_id
      → watched (add_watchlist_ticker u t items).1 ≡ watched items
  unfolding add_watchlist_ticker
  other-add u t items ne =
      let grown = watched-append items u t in
      let differ : (u == user_id ≡ false) = ground arith in
      elim (Bool-cases (any (is_item u t) items)) [
        | inl there ↦ rw (add_watchlist_ticker, there) refl
        | inr new ↦ rw (add_watchlist_ticker, new) (rw differ at grown)
      ]

  own-add :
      (c : PlanSettings) (user : Option User) (now t : ℕ) (items : Items)
      → user_id ≢ owner
      → has_room c user_id user now t items ≡ true
      → watched items ≤ max_watchlist (effective_plan user now) c
      → watched (add_watchlist_ticker user_id t items).1 ≤ max_watchlist (effective_plan user now) c
  unfolding add_watchlist_ticker has_room
  own-add c user now t items mortal room within =
      let not_owner : (user_id == owner ≡ false) = ground arith in
      let grown = rw (eq_self user_id) at (watched-append items user_id t) in
      elim (Bool-cases (any (is_item user_id t) items)) [
        | inl there ↦ rw (add_watchlist_ticker, there) within
        | inr new ↦
            let absent = sym (ticker-item t items) ∙ new in
            let below = rw (has_room, absent, not_owner) at room in
            let less = ltb→lt (watched items) (max_watchlist (effective_plan user now) c) below in
            rw (add_watchlist_ticker, new) (omega (arith, grown, less))
      ]

-- A request that adds a ticker, for the user on a plan or for another one, or one that removes one.
pub data Step (c : PlanSettings) (user_id cap : ℕ) : Items → Items → Type 0 where
  asked :
      (asker ticker now : ℕ) (user : Option User) (is_real : Bool) (items : Items)
      → (asker ≡ user_id → max_watchlist (effective_plan user now) c ≡ cap)
      → Step c user_id cap items (add_to_watchlist c asker user now ticker is_real items).1
  removed :
      (asker ticker : ℕ) (items : Items)
      → Step c user_id cap items (remove_watchlist_ticker asker ticker items).1

pub data Reach (c : PlanSettings) (user_id cap : ℕ) (items : Items) : Items → Type 0 where
  here : Reach c user_id cap items items
  next :
      {u v : Items}
      → Reach c user_id cap items u
      → Step c user_id cap u v
      → Reach c user_id cap items v

module _ (c : PlanSettings) (user_id cap : ℕ) (mortal : user_id ≢ owner) where
  asked-le :
      (asker ticker now : ℕ) (user : Option User) (is_real : Bool) (items : Items)
      → (asker ≡ user_id → max_watchlist (effective_plan user now) c ≡ cap)
      → watched user_id items ≤ cap
      → watched user_id (add_to_watchlist c asker user now ticker is_real items).1 ≤ cap
  unfolding add_to_watchlist
  asked-le asker ticker now user is_real items plan within =
      elim (Bool-cases (has_room c asker user now ticker items)) [
        | inr full ↦ rw (add_to_watchlist, full) within
        | inl room ↦ elim (Bool-cases is_real) [
          | inr junk ↦ rw (add_to_watchlist, room, junk) within
          | inl real ↦ elim (Bool-cases (asker == user_id)) [
            | inl mine ↦
                let its : (asker ≡ user_id) = ground (arith, mine) in
                let on = plan its in
                let fits =
                  own-add user_id c user now ticker items mortal (rw its at room) (rw on within) in
                rw (add_to_watchlist, room, real, its) (rw on at fits)
            | inr other ↦
                let same = other-add user_id asker ticker items (ground (arith, other)) in
                rw (add_to_watchlist, room, real) (omega (arith, same, within))
          ]
        ]
      ]

  Step-le :
      {u v : Items} → Step c user_id cap u v → watched user_id u ≤ cap → watched user_id v ≤ cap
  unfolding remove_watchlist_ticker
  Step-le (asked asker ticker now user is_real items plan) within =
      asked-le asker ticker now user is_real items plan within
  Step-le (removed asker ticker items) within =
      let fewer = watched-keep user_id (λ i. not (is_item asker ticker i)) items in
      omega (arith, fewer, within)

-- While requests come one after the other, a user who is not the owner and whose plan has one cap
-- never watches more tickers than the cap, whatever is added and removed, if not at the start.
pub cap_holds :
    (c : PlanSettings) (user_id cap : ℕ) {u v : Items}
    → user_id ≢ owner
    → Reach c user_id cap u v
    → watched user_id u ≤ cap
    → watched user_id v ≤ cap
cap_holds c user_id cap mortal here within = within
cap_holds c user_id cap mortal (next r st) within =
    Step-le c user_id cap mortal st (cap_holds c user_id cap mortal r within)
