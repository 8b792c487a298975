-- ===== src/Delivery/Dispatcher/Sends.antt =====
-- How often the dispatcher of app/delivery/dispatcher.py hands a row of the queue to an adapter.
use personal_portfolio_analy.Prelude.{
  ℕ, zero, suc, ◌+◌, ◌-◌, ◌≤◌, ◌<◌, ◌≡◌, ◌≢◌, refl, sym, ◌∙◌, true, false, List, [], ◌∷◌, arith,
  All, All-map, inl, inr, Bool-cases, ◌==◌, ◌&&◌, if◌then◌else◌,
}
use personal_portfolio_analy.Store.{OutboundMessage}
use personal_portfolio_analy.Delivery.Queue.{SendResult, claim_due, is_due, record_send_result}
use personal_portfolio_analy.Delivery.Queue.Tables.{Absent, Distinct, IsBounded, claim-IsBounded}
use personal_portfolio_analy.Delivery.Queue.Records.{sent-id, sent-attempts}
use personal_portfolio_analy.Delivery.Dispatcher.{Dispatcher, send_one, send_all, tick}
use personal_portfolio_analy.Delivery.Dispatcher.Ticks.{
  Sendable, one, sent_next, claim-Sendable, tick-Distinct, send_all-IsBounded,
}

-- The row under the id has been attempted so often at least.
abbrev IsUsed : ℕ → ℕ → OutboundMessage → Type 0
IsUsed id n m = m.id ≡ id → n ≤ m.attempts

module _ (lease now : ℕ) where
  -- A claim keeps what holds of a row's id and its attempts.
  claim-fields :
      (P : ℕ → ℕ → Type 0) (limit : ℕ) (table : List OutboundMessage)
      → All (λ m. P m.id m.attempts) table
      → let (claimed, rest) = claim_due limit lease now table in
        All (λ m. P m.id m.attempts) claimed × All (λ m. P m.id m.attempts) rest
  unfolding claim_due
  claim-fields P limit [] h = (tt, tt)
  claim-fields P zero (m ∷ ms) h = (tt, h)
  claim-fields P (suc limit) (m ∷ ms) h = elim (Bool-cases (is_due now m)) [
    | inl due ↦ let ih = claim-fields P limit ms h.1 in rw due ((h.0, ih.0), (h.0, ih.1))
    | inr later ↦ let ih = claim-fields P (suc limit) ms h.1 in rw later (ih.0, (h.0, ih.1))
  ]

  due-below :
      (cap : ℕ) (m : OutboundMessage) → IsBounded cap m → is_due now m ≡ true → m.attempts < cap
  unfolding is_due
  due-below cap m b due = let below = b.below in ground arith

  claim-below :
      (cap limit : ℕ) (table : List OutboundMessage)
      → All (IsBounded cap) table
      → All (λ m. m.attempts < cap) (claim_due limit lease now table).0
  unfolding claim_due
  claim-below cap limit [] h = tt
  claim-below cap zero (m ∷ ms) h = tt
  claim-below cap (suc limit) (m ∷ ms) h = elim (Bool-cases (is_due now m)) [
    | inl due ↦ rw due (due-below cap m h.0 due, claim-below cap limit ms h.1)
    | inr later ↦ rw later (claim-below cap (suc limit) ms h.1)
  ]

module _ (id n : ℕ) (r : SendResult) (max_attempts delay now : ℕ) where
  record-IsUsed :
      (table : List OutboundMessage)
      → Distinct table
      → All (IsUsed id n) table
      → All (IsUsed id (n + 1)) (record_send_result id r max_attempts delay now table)
  unfolding record_send_result
  record-IsUsed [] d h = tt
  record-IsUsed (m ∷ ms) d h = elim (Bool-cases (m.id == id)) [
    | inl same ↦
        let mine : (m.id ≡ id) = ground (arith, same) in
        let e = sent-attempts r max_attempts delay now m in
        let used = h.0 mine in
        rw same (
          (λ _. rw e (omega (arith, used))),
          All-map ms (λ other ne its. absurd (ne (its ∙ sym mine))) d.0,
        )
    | inr differ ↦
        rw differ ((λ its. absurd (ground (arith, differ, its))), record-IsUsed ms d.1 h.1)
  ]

  record-other :
      (k : ℕ) (table : List OutboundMessage)
      → k ≢ id
      → All (IsUsed id n) table
      → All (IsUsed id n) (record_send_result k r max_attempts delay now table)
  unfolding record_send_result
  record-other k [] ne h = tt
  record-other k (m ∷ ms) ne h = elim (Bool-cases (m.id == k)) [
    | inl same ↦
        let e = sent-id r max_attempts delay now m in
        let its : (m.id ≡ k) = ground (arith, same) in
        rw same ((λ q. absurd (ne (sym its ∙ (sym e ∙ q)))), h.1)
    | inr differ ↦ rw differ (h.0, record-other k ms ne h.1)
  ]

module _ (d : Dispatcher) (id : ℕ) where
  -- The rows of a batch that are handed to an adapter under the id.
  abbrev pub sends_in : List OutboundMessage → ℕ
  sends_in [] = 0
  sends_in (m ∷ ms) =
      let rest = sends_in ms in if m.id == id && d.has_adapter m.channel then suc rest else rest

  -- Over several ticks, at their times.
  abbrev pub sends : List ℕ → List OutboundMessage → ℕ
  sends [] table = 0
  sends (now ∷ later) table =
      sends_in (claim_due d.batch_size d.lease now table).0 + sends later (tick d now table).1

  weaken :
      (n k : ℕ) (table : List OutboundMessage)
      → k ≤ n
      → All (IsUsed id n) table
      → All (IsUsed id k) table
  weaken n k table le h = All-map table (λ m used its. let u = used its in omega (arith, u, le)) h

  sends_in-le :
      (m : OutboundMessage) (ms : List OutboundMessage) → sends_in (m ∷ ms) ≤ 1 + sends_in ms
  sends_in-le m ms = ground arith

  send_all-IsUsed :
      (n : ℕ) (ms table : List OutboundMessage)
      → Sendable table ms
      → All (IsUsed id n) table
      → All (IsUsed id (n + sends_in ms)) (send_all d ms table)
  unfolding send_all
  send_all-IsUsed n [] table h used = weaken n (n + 0) table (omega arith) used
  send_all-IsUsed n (m ∷ ms) table h used = elim (Bool-cases (m.id == id)) [
    | inl mine ↦
        let its : (m.id ≡ id) = ground (arith, mine) in
        let next =
          one d (All (IsUsed id (n + 1))) m table
            (λ r delay now.
              rw its (record-IsUsed id n r d.max_attempts delay now table h.distinct used))
            (λ r delay now. rw its (record-IsUsed id n r 5 delay now table h.distinct used)) in
        weaken (n + 1 + sends_in ms) (n + sends_in (m ∷ ms)) _
          (let few = sends_in-le m ms in omega (arith, few))
          (send_all-IsUsed (n + 1) ms (send_one d m table) (sent_next d m ms table h) next)
    | inr other ↦
        let ne : (m.id ≢ id) = ground (arith, other) in
        let next =
          one d (All (IsUsed id n)) m table
            (λ r delay now. record-other id n r d.max_attempts delay now m.id table ne used)
            (λ r delay now. record-other id n r 5 delay now m.id table ne used) in
        rw other (send_all-IsUsed n ms (send_one d m table) (sent_next d m ms table h) next)
  ]

  no_sends : (ms : List OutboundMessage) → Absent id ms → sends_in ms ≡ 0
  no_sends [] h = refl
  no_sends (m ∷ ms) h =
      let ne = h.0 in
      let other : ((m.id == id) ≡ false) = ground (arith, ne) in rw other (no_sends ms h.1)

  room :
      (n cap : ℕ) (ms : List OutboundMessage)
      → n ≤ cap
      → Distinct ms
      → All (IsUsed id n) ms
      → All (λ m. m.attempts < cap) ms
      → n + sends_in ms ≤ cap
  room n cap [] le dist used below = omega (arith, le)
  room n cap (m ∷ ms) le dist used below = elim (Bool-cases (m.id == id)) [
    | inl mine ↦
        let its : (m.id ≡ id) = ground (arith, mine) in
        let few = sends_in-le m ms in
        let none_left = no_sends ms (All-map ms (λ c ne same. ne (same ∙ sym its)) dist.0) in
        let old = used.0 its in let low = below.0 in omega (arith, few, none_left, old, low)
    | inr other ↦ rw other (room n cap ms le dist.1 used.1 below.1)
  ]

  sends-room :
      d.max_attempts ≡ 5
      → (times : List ℕ) (n : ℕ) (table : List OutboundMessage) → n ≤ 5
      → Distinct table
      → All (IsBounded 5) table
      → All (IsUsed id n) table
      → n + sends times table ≤ 5
  unfolding tick
  sends-room five [] n table le h b used = omega (arith, le)
  sends-room five (now ∷ later) n table le h b used =
      let batch = claim_due d.batch_size d.lease now table in
      let ready = claim-Sendable d now table h in
      let fields = claim-fields d.lease now (λ k a. k ≡ id → n ≤ a) d.batch_size table used in
      let below = claim-below d.lease now 5 d.batch_size table b in
      let fits = room n 5 batch.0 le ready.distinct_claimed fields.0 below in
      let bounded =
        send_all-IsBounded d five batch.0 batch.1 ready
          (claim-IsBounded d.lease now 5 d.batch_size table b) in
      let rest =
        sends-room five later (n + sends_in batch.0) (tick d now table).1 fits
          (tick-Distinct d now table h) bounded
          (send_all-IsUsed n batch.0 batch.1 ready fields.1) in
      omega (arith, rest)

  -- With the configured limit of five attempts, on a table with distinct ids whose rows are within
  -- five attempts, and below five while queued: over any number of ticks, each run to its end, a
  -- row is handed to an adapter at most as often as five exceeds the attempts that the rows under
  -- its id had; a new row at most five times.
  pub sends-le :
      d.max_attempts ≡ 5
      → (times : List ℕ) (n : ℕ) (table : List OutboundMessage) → n ≤ 5
      → Distinct table
      → All (IsBounded 5) table
      → All (λ m. m.id ≡ id → n ≤ m.attempts) table
      → sends times table ≤ 5 - n
  sends-le five times n table le h b used =
      let most = sends-room five times n table le h b used in omega (arith, most)
