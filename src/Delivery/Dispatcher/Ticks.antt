-- ===== src/Delivery/Dispatcher/Ticks.antt =====
-- What a tick of the dispatcher keeps of the table of the queue.
use personal_portfolio_analy.Prelude.{
  ℕ, ◌+◌, ◌≡◌, refl, ◌∙◌, List, [], ◌∷◌, All, All-zip, keep, inl, inr, Bool-cases,
}
use personal_portfolio_analy.Store.{OutboundMessage, seconds}
use personal_portfolio_analy.Delivery.Queue.{claim_due, record_send_result, SendResult}
use personal_portfolio_analy.Delivery.Queue.Tables.{
  Distinct, IsSendable, IsBounded, is_push, claim-Distinct, claim-push,
}
use personal_portfolio_analy.Delivery.Queue.Records.{
  record-Distinct, record-IsSendable, record-IsBounded, record-push,
}
use personal_portfolio_analy.Delivery.Dispatcher.{
  Dispatcher, result_of, unconfigured, unsubscribe_link, retry_delay, send_one, send_all, tick,
}

-- What one tick needs of its batch and the table.
pub record Sendable (table : List OutboundMessage) (claimed : List OutboundMessage) : Type 0 where
  pub distinct_claimed : Distinct claimed
  pub distinct : Distinct table
  pub ready : All (λ c. All (IsSendable c.id) table) claimed

module _ (d : Dispatcher) where
  pub one :
      (P : List OutboundMessage → Type 0) (m : OutboundMessage) (table : List OutboundMessage)
      → ((r : SendResult) (delay : ℕ) (now : ℕ)
          → P (record_send_result m.id r d.max_attempts delay now table))
      → ((r : SendResult) (delay : ℕ) (now : ℕ) → P (record_send_result m.id r 5 delay now table))
      → P (send_one d m table)
  unfolding send_one
  one P m table with_adapter without = elim (Bool-cases (d.has_adapter m.channel)) [
    | inl h ↦ rw h (
        with_adapter (result_of (d.send m (unsubscribe_link d m m.channel)))
          (seconds (retry_delay (m.attempts + 1))) (d.ended_at m))
    | inr h ↦ rw h (without unconfigured (seconds 60) (d.ended_at m))
  ]

  pub sent_next :
      (m : OutboundMessage) (ms table : List OutboundMessage)
      → Sendable table (m ∷ ms)
      → Sendable (send_one d m table) ms
  sent_next m ms table h = record {
    distinct_claimed = h.distinct_claimed.1;
    distinct =
        one Distinct m table
          (λ r delay now. record-Distinct r d.max_attempts delay now m.id table h.distinct)
          (λ r delay now. record-Distinct r 5 delay now m.id table h.distinct);
    ready =
        All-zip ms
          (λ c ready other.
            one (All (IsSendable c.id)) m table
              (λ r delay now.
                record-IsSendable r d.max_attempts delay now m.id c.id table other ready)
              (λ r delay now. record-IsSendable r 5 delay now m.id c.id table other ready))
          h.ready.1 h.distinct_claimed.0;
  }

  send_all-push :
      (ms table : List OutboundMessage)
      → Sendable table ms
      → keep is_push (send_all d ms table) ≡ keep is_push table
  unfolding send_all
  send_all-push [] table h = refl
  send_all-push (m ∷ ms) table h =
      (send_all-push ms (send_one d m table) (sent_next m ms table h))
      ∙ (one (λ t. keep is_push t ≡ keep is_push table) m table
          (λ r delay now. record-push r d.max_attempts delay now m.id table h.ready.0)
          (λ r delay now. record-push r 5 delay now m.id table h.ready.0))

  send_all-Distinct :
      (ms table : List OutboundMessage) → Sendable table ms → Distinct (send_all d ms table)
  unfolding send_all
  send_all-Distinct [] table h = h.distinct
  send_all-Distinct (m ∷ ms) table h =
      send_all-Distinct ms (send_one d m table) (sent_next m ms table h)

  pub claim-Sendable :
      (now : ℕ) (table : List OutboundMessage)
      → Distinct table
      → Sendable
          (claim_due d.batch_size d.lease now table).1
          (claim_due d.batch_size d.lease now table).0
  claim-Sendable now table h =
      let c = claim-Distinct d.lease now d.batch_size table h in
      record { distinct_claimed = c.0; distinct = c.1; ready = c.2 }

  -- Several ticks, at their times.
  abbrev pub ticks : List ℕ → List OutboundMessage → List OutboundMessage
  ticks [] table = table
  ticks (now ∷ later) table = ticks later (tick d now table).1

  pub tick-Distinct :
      (now : ℕ) (table : List OutboundMessage) → Distinct table → Distinct (tick d now table).1
  unfolding tick
  tick-Distinct now table h =
      send_all-Distinct (claim_due d.batch_size d.lease now table).0
        (claim_due d.batch_size d.lease now table).1 (claim-Sendable now table h)

  tick-push :
      (now : ℕ) (table : List OutboundMessage)
      → Distinct table
      → keep is_push (tick d now table).1 ≡ keep is_push table
  unfolding tick
  tick-push now table h =
      (send_all-push (claim_due d.batch_size d.lease now table).0
        (claim_due d.batch_size d.lease now table).1 (claim-Sendable now table h))
      ∙ (claim-push d.lease now d.batch_size table)

  -- Whatever the adapters, the batch size and the times are, no number of ticks changes a row for a
  -- device: the push rows of a table with distinct ids stay as they were queued.
  pub push_rows_wait :
      (times : List ℕ) (table : List OutboundMessage)
      → Distinct table
      → keep is_push (ticks times table) ≡ keep is_push table
  push_rows_wait [] table h = refl
  push_rows_wait (now ∷ later) table h =
      (push_rows_wait later (tick d now table).1 (tick-Distinct now table h))
      ∙ (tick-push now table h)

  pub send_all-IsBounded :
      d.max_attempts ≡ 5
      → (ms table : List OutboundMessage) → Sendable table ms
      → All (IsBounded 5) table
      → All (IsBounded 5) (send_all d ms table)
  unfolding send_all
  send_all-IsBounded five [] table h b = b
  send_all-IsBounded five (m ∷ ms) table h b =
      send_all-IsBounded five ms (send_one d m table) (sent_next m ms table h) (
        one (All (IsBounded 5)) m table
          (λ r delay now. rw five (record-IsBounded r 5 delay now m.id table h.ready.0 b))
          (λ r delay now. record-IsBounded r 5 delay now m.id table h.ready.0 b))
