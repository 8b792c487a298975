-- ===== src/Delivery/Queue/Tables.antt =====
-- The table of the queue as a whole: ids that differ, rows that a send may write, and what a claim
-- and a write of one row keep of that.
use personal_portfolio_analy.Prelude.{
  ℕ, zero, suc, ◌≤◌, ◌≡◌, ◌≢◌, refl, sym, ap, Bool, true, false, none, some, List, [], ◌∷◌, arith,
  All, All-map, All-zip, inl, inr, Bool-cases, if◌then◌else◌, keep, leb, ◌&&◌,
}
use personal_portfolio_analy.Store.{OutboundMessage, queued, push}
use personal_portfolio_analy.Delivery.Queue.{claim_due, is_due, is_queued, on_a_channel}

abbrev pub Absent : ℕ → List OutboundMessage → Type 0
Absent k = All (λ m. m.id ≢ k)

-- No two rows have one id, as the primary key has it.
abbrev pub Distinct : List OutboundMessage → Type 0
Distinct [] = Unit
Distinct (m ∷ ms) = Absent m.id ms × Distinct ms

-- A row under the id is queued, on a channel that users choose.
abbrev pub IsSendable : ℕ → OutboundMessage → Type 0
IsSendable k m = m.id ≡ k → (m.status ≡ queued) × (on_a_channel m.channel ≡ true)

-- A row's attempts are within the limit, and below it while the row is queued.
pub record IsBounded (max_attempts : ℕ) (m : OutboundMessage) : Type 0 where
  pub within : m.attempts ≤ max_attempts
  pub below : (is_queued m.status && leb max_attempts m.attempts) ≡ false

abbrev pub is_push : OutboundMessage → Bool
is_push m = elim m.channel [ none ↦ false | some c ↦ elim c [ push ↦ true | _ ↦ false ] ]

module _ (limit_lease now : ℕ) where
  claim-ids :
      (P : ℕ → Type 0) (limit : ℕ) (table : List OutboundMessage)
      → All (λ m. P m.id) table
      → let (claimed, rest) = claim_due limit limit_lease now table in
        All (λ m. P m.id) claimed × All (λ m. P m.id) rest
  unfolding claim_due
  claim-ids P limit [] h = (tt, tt)
  claim-ids P zero (m ∷ ms) h = (tt, h)
  claim-ids P (suc limit) (m ∷ ms) h = elim (Bool-cases (is_due now m)) [
    | inl due ↦ let ih = claim-ids P limit ms h.1 in rw due ((h.0, ih.0), (h.0, ih.1))
    | inr later ↦ let ih = claim-ids P (suc limit) ms h.1 in rw later (ih.0, (h.0, ih.1))
  ]

  due-sendable :
      (m : OutboundMessage)
      → is_due now m ≡ true
      → (m.status ≡ queued) × (on_a_channel m.channel ≡ true)
  unfolding is_due
  due-sendable m due = (ground arith, ground arith)

  pub claim-Distinct :
      (limit : ℕ) (table : List OutboundMessage)
      → Distinct table
      → let (claimed, rest) = claim_due limit limit_lease now table in
        Distinct claimed × Distinct rest × All (λ c. All (IsSendable c.id) rest) claimed
  unfolding claim_due
  claim-Distinct limit [] h = (tt, tt, tt)
  claim-Distinct zero (m ∷ ms) h = (tt, h, tt)
  claim-Distinct (suc limit) (m ∷ ms) h = elim (Bool-cases (is_due now m)) [
    | inl due ↦
        let ih = claim-Distinct limit ms h.1 in
        let ids = claim-ids (λ k. k ≢ m.id) limit ms h.0 in
        let ready = due-sendable m due in
        let (claimed, rest) = claim_due limit limit_lease now ms in
        rw due (
          (ids.0, ih.0),
          (ids.1, ih.1),
          (
            ((λ _. ready), All-map rest (λ n other same. absurd (other same)) ids.1),
            All-map claimed (λ c r. ((λ _. ready), r)) ih.2,
          ),
        )
    | inr later ↦
        let ih = claim-Distinct (suc limit) ms h.1 in
        let ids = claim-ids (λ k. k ≢ m.id) (suc limit) ms h.0 in
        let (claimed, rest) = claim_due (suc limit) limit_lease now ms in
        rw later (
          ih.0,
          (ids.1, ih.1),
          All-zip claimed (λ c r other. ((λ same. absurd (other (sym same))), r)) ih.2 ids.0,
        )
  ]

  pub claim-IsBounded :
      (cap limit : ℕ) (table : List OutboundMessage)
      → All (IsBounded cap) table
      → All (IsBounded cap) (claim_due limit limit_lease now table).1
  unfolding claim_due
  claim-IsBounded cap limit [] h = tt
  claim-IsBounded cap zero (m ∷ ms) h = h
  claim-IsBounded cap (suc limit) (m ∷ ms) h = elim (Bool-cases (is_due now m)) [
    | inl due ↦
        let b = h.0 in
        rw due (record { within = b.within; below = b.below }, claim-IsBounded cap limit ms h.1)
    | inr later ↦ rw later (h.0, claim-IsBounded cap (suc limit) ms h.1)
  ]

  due-is_push : (m : OutboundMessage) → is_due now m ≡ true → is_push m ≡ false
  unfolding is_due
  due-is_push m due = ground arith

  -- Rows for devices are never due.
  pub claim-push :
      (limit : ℕ) (table : List OutboundMessage)
      → keep is_push (claim_due limit limit_lease now table).1 ≡ keep is_push table
  unfolding claim_due
  claim-push limit [] = refl
  claim-push zero (m ∷ ms) = refl
  claim-push (suc limit) (m ∷ ms) = elim (Bool-cases (is_due now m)) [
    | inl due ↦ let other = due-is_push m due in rw (due, other) (claim-push limit ms)
    | inr later ↦ rw later (ap (λ r. if is_push m then m ∷ r else r) (claim-push (suc limit) ms))
  ]
