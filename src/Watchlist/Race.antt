-- ===== src/Watchlist/Race.antt =====
-- Two requests at once pass the cap of a watchlist in app/main.py.
use personal_portfolio_analy.Prelude.{
  ℕ, ◌+◌, ◌≡◌, ◌≢◌, refl, true, false, Option, [], ◌∷◌, ◌++◌, arith, any, not, keep, lt→ltb, Bool,
  Bool-cases, inl, inr, eq_self, ◌==◌, ◌||◌,
}
use mathlib.Core.Path.{subst}
use personal_portfolio_analy.Store.{User, owner}
use personal_portfolio_analy.Plans.{PlanSettings, effective_plan, max_watchlist}
use personal_portfolio_analy.Watchlist.{
  Items, World, is_item, get_watchlist_tickers, has_room, check, store, add_watchlist_ticker,
}
use personal_portfolio_analy.Watchlist.Cap.{watched, watched-append}

pub data Step (c : PlanSettings) : World → World → Type 0 where
  checked :
      (user_id now ticker : ℕ) (user : Option User) (w : World)
      → Step c w (check c user_id user now ticker w)
  stored : (user_id ticker : ℕ) (w : World) → Step c w (store user_id ticker w)

pub data Reach (c : PlanSettings) (w : World) : World → Type 0 where
  here : Reach c w w
  next : {u v : World} → Reach c w u → Step c u v → Reach c w v

has_room-below :
    (c : PlanSettings) (user_id now ticker : ℕ) (user : Option User) (items : Items)
    → watched user_id items + 1 ≡ max_watchlist (effective_plan user now) c
    → has_room c user_id user now ticker items ≡ true
unfolding has_room
has_room-below c user_id now ticker user items one_left =
    elim (Bool-cases
      (any (λ t. t == ticker) (get_watchlist_tickers user_id items) || user_id == owner)) [
        | inl passes ↦ rw (has_room, passes) refl
        | inr counts ↦
            rw (has_room, counts)
              (lt→ltb (watched user_id items) (max_watchlist (effective_plan user now) c)
                (omega (arith, one_left)))
      ]

check-waits :
    (c : PlanSettings) (user_id now ticker : ℕ) (user : Option User) (w : World)
    → has_room c user_id user now ticker w.items ≡ true
    → check c user_id user now ticker w ≡ record w { waiting = w.waiting ++ (user_id, ticker) ∷ [] }
unfolding check
check-waits c user_id now ticker user w room = rw (check, room) refl

store-adds :
    (user_id ticker : ℕ) (w : World)
    → any (is_item user_id ticker) w.waiting ≡ true
    → any (is_item user_id ticker) w.items ≡ false
    → (store user_id ticker w).items ≡ w.items ++ (user_id, ticker) ∷ []
unfolding store add_watchlist_ticker
store-adds user_id ticker w there new = rw (store, there, add_watchlist_ticker, new) refl

store-waiting :
    (user_id ticker : ℕ) (w : World)
    → any (is_item user_id ticker) w.waiting ≡ true
    → (store user_id ticker w).waiting ≡ keep (λ i. not (is_item user_id ticker i)) w.waiting
unfolding store
store-waiting user_id ticker w there = rw (store, there) refl

any-append :
    (p : ℕ × ℕ → Bool) (items : Items) (i : ℕ × ℕ)
    → any p items ≡ false
    → p i ≡ false
    → any p (items ++ i ∷ []) ≡ false
any-append p [] i h k = rw k refl
any-append p (j ∷ items) i h k = elim (Bool-cases (p j)) [
  | inl yes_j ↦ ground (arith, rw yes_j at h)
  | inr no_j ↦ rw no_j (any-append p items i (rw no_j at h) k)
]

-- A user with one place left under the plan's cap, who sends two requests for two tickers at once,
-- may end up with one ticker more than the cap: both pass the check before either writes.
pub cap_exceeded :
    (c : PlanSettings) (user_id now a b : ℕ) (user : Option User) (items : Items)
    → a ≢ b
    → any (is_item user_id a) items ≡ false
    → any (is_item user_id b) items ≡ false
    → watched user_id items + 1 ≡ max_watchlist (effective_plan user now) c
    → (w : World) × Reach c (record { items = items; waiting = [] }) w
      × (watched user_id w.items ≡ max_watchlist (effective_plan user now) c + 1)
cap_exceeded c user_id now a b user items differ new_a new_b one_left =
    let w0 : World = record { items = items; waiting = [] } in
    let w2 : World = record w0 { waiting = (user_id, a) ∷ (user_id, b) ∷ [] } in
    let first =
      check-waits c user_id now a user w0 (has_room-below c user_id now a user items one_left) in
    let second =
      check-waits c user_id now b user (record w0 { waiting = (user_id, a) ∷ [] })
        (has_room-below c user_id now b user items one_left) in
    let r1 : Reach c w0 (record w0 { waiting = (user_id, a) ∷ [] }) =
      subst (Reach c w0) first (next here (checked user_id now a user w0)) in
    let r2 : Reach c w0 w2 =
      subst (Reach c w0) second
        (next r1 (checked user_id now b user (record w0 { waiting = (user_id, a) ∷ [] }))) in
    let waits_a : (any (is_item user_id a) w2.waiting ≡ true) = ground arith in
    let waiting = store-waiting user_id a w2 waits_a in
    let items_a = store-adds user_id a w2 waits_a new_a in
    let waits_b : (any (is_item user_id b) (store user_id a w2).waiting ≡ true) =
      rw waiting (ground (arith, differ)) in
    let absent_b : (any (is_item user_id b) (store user_id a w2).items ≡ false) =
      rw items_a
        (any-append (is_item user_id b) items (user_id, a) new_b (ground (arith, differ))) in
    let items_b = store-adds user_id b (store user_id a w2) waits_b absent_b in
    let grown_a = rw (eq_self user_id) at (watched-append user_id items user_id a) in
    let grown_b =
      rw (eq_self user_id) at (watched-append user_id (items ++ (user_id, a) ∷ []) user_id b) in
    (
      store user_id b (store user_id a w2),
      next (next r2 (stored user_id a w2)) (stored user_id b (store user_id a w2)),
      rw (items_b, items_a) (omega (arith, grown_a, grown_b, one_left)),
    )
