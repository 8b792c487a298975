-- ===== src/Portfolio/Sync.antt =====
-- What a sync of app/integrations/snaptrade/sync.py leaves in the table.
use personal_portfolio_analy.Prelude.{
  ℕ, ◌≡◌, ◌≢◌, refl, sym, ◌∙◌, ap, true, false, not, ◌&&◌, ◌||◌, Option, none, some, List, [], ◌∷◌,
  arith, inl, inr, Bool-cases, Option-cases, is_some, ◌==◌, if◌then◌else◌, eq_self,
}
use personal_portfolio_analy.Portfolio.{
  Decimals, Holding, Position, has_key, merge_into, merge_onto, merged, is_row, replaced,
  upsert_position, upsert_positions, kept_by, prune_positions_except, sync_positions,
}

-- The first holding of a key, and the holding of the first row of a user and a key.
abbrev pub find_holding : ℕ → ℕ → List Holding → Option Holding
find_holding t a [] = none
find_holding t a (h ∷ hs) = if has_key t a h then some h else find_holding t a hs

abbrev pub find_position : ℕ → ℕ → ℕ → List Position → Option Holding
find_position u t a [] = none
find_position u t a (p ∷ ps) = if is_row u t a p then some p.holding else find_position u t a ps

-- No key twice.
abbrev IsDistinct : List Holding → Type 0
IsDistinct [] = Unit
IsDistinct (h ∷ hs) = (find_holding h.ticker h.account hs ≡ none) × IsDistinct hs

module _ (d : Decimals) where
  absent-merge_into :
      (t a : ℕ) (row : Holding) (ms : List Holding)
      → has_key t a row ≡ false
      → find_holding t a ms ≡ none
      → find_holding t a (merge_into d row ms) ≡ none
  absent-merge_into t a row [] other h = rw other refl
  absent-merge_into t a row (m ∷ ms) other h = elim (Bool-cases (has_key t a m)) [
    | inl mine ↦ ground (arith, rw mine at h)
    | inr its ↦
        let rest = absent-merge_into t a row ms other (rw its at h) in
        elim (Bool-cases (has_key row.ticker row.account m)) [
          | inl hit ↦ rw (hit, other) (rw its at h)
          | inr miss ↦ rw (miss, its) rest
        ]
  ]

  merge_into-IsDistinct :
      (row : Holding) (ms : List Holding) → IsDistinct ms → IsDistinct (merge_into d row ms)
  merge_into-IsDistinct row [] h = (refl, tt)
  merge_into-IsDistinct row (m ∷ ms) h = elim (Bool-cases (has_key row.ticker row.account m)) [
    | inl hit ↦
        let keys : (m.ticker ≡ row.ticker) × (m.account ≡ row.account) =
          (ground (arith, hit), ground (arith, hit)) in
        let alone = h.0 in rw hit (rw (keys.0, keys.1) at alone, h.1)
    | inr miss ↦
        let other : (has_key m.ticker m.account row ≡ false) = ground (arith, miss) in
        rw miss
          (absent-merge_into m.ticker m.account row ms other h.0, merge_into-IsDistinct row ms h.1)
  ]

  merge_onto-IsDistinct :
      (ms rows : List Holding) → IsDistinct ms → IsDistinct (merge_onto d ms rows)
  merge_onto-IsDistinct ms [] h = h
  merge_onto-IsDistinct ms (row ∷ rows) h =
      merge_onto-IsDistinct (merge_into d row ms) rows (merge_into-IsDistinct row ms h)

replaced-holding :
    (h : Holding) (p : Position)
    → p.holding.ticker ≡ h.ticker
    → p.holding.account ≡ h.account
    → (replaced h p).holding ≡ h
replaced-holding h p e f = rw (e, f) refl

module _ (u t a : ℕ) where
  abbrev find : List Position → Option Holding
  find = find_position u t a

  hit-upsert_position :
      (h : Holding) (ps : List Position)
      → has_key t a h ≡ true
      → find (upsert_position u h ps) ≡ some h
  unfolding upsert_position
  hit-upsert_position h [] key = rw (eq_self u, key) refl
  hit-upsert_position h (p ∷ ps) key =
      let keys : (h.ticker ≡ t) × (h.account ≡ a) = (ground (arith, key), ground (arith, key)) in
      elim (Bool-cases (is_row u h.ticker h.account p)) [
        | inl hit ↦
            let row : (is_row u t a p ≡ true) = rw (keys.0, keys.1) at hit in
            let same = replaced-holding h p (ground (arith, hit)) (ground (arith, hit)) in
            rw (hit, row) (ap some same)
        | inr miss ↦
            let other : (is_row u t a p ≡ false) = rw (keys.0, keys.1) at miss in
            rw (miss, other) (hit-upsert_position h ps key)
      ]

  miss-upsert_position :
      (v : ℕ) (h : Holding) (ps : List Position)
      → (v == u && has_key t a h) ≡ false
      → find (upsert_position v h ps) ≡ find ps
  unfolding upsert_position
  miss-upsert_position v h [] key = rw key refl
  miss-upsert_position v h (p ∷ ps) key = elim (Bool-cases (is_row v h.ticker h.account p)) [
    | inl hit ↦
        let other : (is_row u t a p ≡ false) = ground (arith, hit, key) in rw (hit, other) refl
    | inr miss ↦
        let ih = miss-upsert_position v h ps key in
        elim (Bool-cases (is_row u t a p)) [
          | inl mine ↦ rw (miss, mine) refl
          | inr other ↦ rw (miss, other) ih
        ]
  ]

  absent-upsert_positions :
      (hs : List Holding) (ps : List Position)
      → find_holding t a hs ≡ none
      → find (upsert_positions u hs ps) ≡ find ps
  unfolding upsert_positions
  absent-upsert_positions [] ps h = refl
  absent-upsert_positions (m ∷ hs) ps h = elim (Bool-cases (has_key t a m)) [
    | inl mine ↦ ground (arith, rw mine at h)
    | inr other ↦
        absent-upsert_positions hs (upsert_position u m ps) (rw other at h)
        ∙ miss-upsert_position u m ps (rw (eq_self u, other) refl)
  ]

  found-upsert_positions :
      (hs : List Holding) (ps : List Position) (h : Holding)
      → IsDistinct hs
      → find_holding t a hs ≡ some h
      → find (upsert_positions u hs ps) ≡ some h
  unfolding upsert_positions
  found-upsert_positions [] ps h alone found = ground (arith, found)
  found-upsert_positions (m ∷ hs) ps h alone found = elim (Bool-cases (has_key t a m)) [
    | inl mine ↦
        let same : (m ≡ h) = ground (arith, rw mine at found) in
        let keys : (m.ticker ≡ t) × (m.account ≡ a) =
          (ground (arith, mine), ground (arith, mine)) in
        let none_left = alone.0 in
        absent-upsert_positions hs (upsert_position u m ps) (rw (keys.0, keys.1) at none_left)
        ∙ hit-upsert_position m ps mine
        ∙ ap some same
    | inr other ↦ found-upsert_positions hs (upsert_position u m ps) h alone.1 (rw other at found)
  ]

  other-upsert_positions :
      (v : ℕ) (hs : List Holding) (ps : List Position)
      → v ≢ u
      → find (upsert_positions v hs ps) ≡ find ps
  unfolding upsert_positions
  other-upsert_positions v [] ps ne = refl
  other-upsert_positions v (m ∷ hs) ps ne =
      let differ : (v == u ≡ false) = ground arith in
      other-upsert_positions v hs (upsert_position v m ps) ne
      ∙ miss-upsert_position v m ps (rw differ refl)

  kept-key :
      (hs : List Holding) (h : Holding)
      → has_key t a h ≡ true
      → kept_by hs h ≡ is_some (find_holding t a hs)
  kept-key [] h key = refl
  kept-key (m ∷ hs) h key =
      let keys : (h.ticker ≡ t) × (h.account ≡ a) = (ground (arith, key), ground (arith, key)) in
      let ih = kept-key hs h key in
      elim (Bool-cases (has_key t a m)) [
        | inl mine ↦
            let hit : (has_key h.ticker h.account m ≡ true) = rw (keys.0, keys.1) mine in
            rw (hit, mine) refl
        | inr other ↦
            let miss : (has_key h.ticker h.account m ≡ false) = rw (keys.0, keys.1) other in
            rw (miss, other) ih
      ]

  -- What the prune of a user's rows leaves of a key: the row, if the user is another one or the key
  -- is kept.
  find-prune :
      (v : ℕ) (hs : List Holding) (ps : List Position)
      → find (prune_positions_except v hs ps).0
        ≡ (if not (u == v) || is_some (find_holding t a hs) then find ps else none)
  unfolding prune_positions_except
  find-prune v hs [] = elim (Bool-cases (not (u == v) || is_some (find_holding t a hs))) [
    | inl stays ↦ rw stays refl
    | inr goes ↦ rw goes refl
  ]
  find-prune v hs (p ∷ ps) =
      let ih = find-prune v hs ps in
      elim (Bool-cases (is_row u t a p)) [
        | inl mine ↦
            let key : (has_key t a p.holding ≡ true) = ground (arith, mine) in
            let user : (p.user_id ≡ u) = ground (arith, mine) in
            let kept = kept-key hs p.holding key in
            elim (Bool-cases (not (u == v) || is_some (find_holding t a hs))) [
              | inl stays ↦
                  let test : (not (p.user_id == v) || kept_by hs p.holding ≡ true) =
                    rw (user, kept) stays in
                  rw (test, stays, mine) refl
              | inr goes ↦
                  let test : (not (p.user_id == v) || kept_by hs p.holding ≡ false) =
                    rw (user, kept) goes in
                  rw (test, goes) (rw goes at ih)
            ]
        | inr other ↦ elim (Bool-cases (not (p.user_id == v) || kept_by hs p.holding)) [
          | inl stays ↦ rw (stays, other) ih
          | inr goes ↦ rw (goes, other) ih
        ]
      ]

-- After a sync of a user the table holds, under each ticker and account, what the merged rows of the
-- brokerage hold for it, and nothing where they hold nothing; the holdings of other users are what
-- they were.
pub sync_positions_lem :
    (d : Decimals) (user_id v ticker account : ℕ) (rows : List Holding) (ps : List Position)
    → v ≢ user_id
    → let after = (sync_positions d user_id rows ps).0 in
      (find_position user_id ticker account after ≡ find_holding ticker account (merged d rows))
      × (find_position v ticker account after ≡ find_position v ticker account ps)
unfolding sync_positions merged
sync_positions_lem d user_id v ticker account rows ps ne =
    let book = merge_onto d [] rows in
    let written = upsert_positions user_id book ps in
    let alone = merge_onto-IsDistinct d [] rows tt in
    let own = find-prune user_id ticker account user_id book written in
    let others = find-prune v ticker account user_id book written in
    let differ : (v == user_id ≡ false) = ground arith in
    (
      own ∙ elim (Option-cases (find_holding ticker account book)) [
        | inl absent ↦ rw (eq_self user_id, absent) refl
        | inr (h, found) ↦
            rw (eq_self user_id, found)
              (found-upsert_positions user_id ticker account book ps h alone found)
      ],
      others
          ∙ rw differ (other-upsert_positions v ticker account user_id book ps (λ e. ne (sym e))),
    )
