-- ===== src/Delivery/Queue/Records.antt =====
-- What the write of a send's outcome keeps of the table of the queue.
use personal_portfolio_analy.Prelude.{
  ℕ, ◌+◌, ◌<◌, ◌≡◌, ◌≢◌, refl, sym, ◌∙◌, ap, true, false, List, [], ◌∷◌, arith, All, inl, inr,
  Bool-cases, if◌then◌else◌, keep, ◌==◌, ◌&&◌, leb,
}
use personal_portfolio_analy.Store.{OutboundMessage}
use personal_portfolio_analy.Delivery.Channels.{in_channels}
use personal_portfolio_analy.Delivery.Queue.{
  is_queued, on_a_channel, record_send_result, sent_row, SendResult,
}
use personal_portfolio_analy.Delivery.Queue.Tables.{Distinct, IsSendable, IsBounded, is_push}

module _ (r : SendResult) (max_attempts delay now : ℕ) where
  pub sent-id : (m : OutboundMessage) → (sent_row r max_attempts delay now m).id ≡ m.id
  unfolding sent_row
  sent-id m = ground arith

  sent-channel : (m : OutboundMessage) → (sent_row r max_attempts delay now m).channel ≡ m.channel
  unfolding sent_row
  sent-channel m = ground arith

  sent-is_push : (m : OutboundMessage) → is_push (sent_row r max_attempts delay now m) ≡ is_push m
  unfolding sent_row
  sent-is_push m = ground arith

  pub sent-attempts :
      (m : OutboundMessage) → (sent_row r max_attempts delay now m).attempts ≡ m.attempts + 1
  unfolding sent_row
  sent-attempts m = ground arith

  sent-queued :
      (m : OutboundMessage)
      → let m' = sent_row r max_attempts delay now m in
        (is_queued m'.status && leb max_attempts (m.attempts + 1)) ≡ false
  unfolding sent_row
  sent-queued m = ground arith

  record-ids :
      (P : ℕ → Type 0) (id : ℕ) (table : List OutboundMessage)
      → All (λ m. P m.id) table
      → All (λ m. P m.id) (record_send_result id r max_attempts delay now table)
  unfolding record_send_result
  record-ids P id [] h = tt
  record-ids P id (m ∷ ms) h = elim (Bool-cases (m.id == id)) [
    | inl same ↦ let e = sent-id m in rw same (rw e h.0, h.1)
    | inr differ ↦ rw differ (h.0, record-ids P id ms h.1)
  ]

  pub record-Distinct :
      (id : ℕ) (table : List OutboundMessage)
      → Distinct table
      → Distinct (record_send_result id r max_attempts delay now table)
  unfolding record_send_result
  record-Distinct id [] h = tt
  record-Distinct id (m ∷ ms) h = elim (Bool-cases (m.id == id)) [
    | inl same ↦ let e = sent-id m in rw same (rw e h.0, h.1)
    | inr differ ↦ rw differ (record-ids (λ k. k ≢ m.id) id ms h.0, record-Distinct id ms h.1)
  ]

  -- The rows under another id are as they were.
  pub record-IsSendable :
      (id k : ℕ) (table : List OutboundMessage)
      → k ≢ id
      → All (IsSendable k) table
      → All (IsSendable k) (record_send_result id r max_attempts delay now table)
  unfolding record_send_result
  record-IsSendable id k [] differ h = tt
  record-IsSendable id k (m ∷ ms) differ h = elim (Bool-cases (m.id == id)) [
    | inl same ↦
        let e = sent-id m in
        let apart : (m.id ≢ k) = ground arith in rw same ((λ q. absurd (apart (sym e ∙ q))), h.1)
    | inr later ↦ rw later (h.0, record-IsSendable id k ms differ h.1)
  ]

  pub record-IsBounded :
      (id : ℕ) (table : List OutboundMessage)
      → All (IsSendable id) table
      → All (IsBounded max_attempts) table
      → All (IsBounded max_attempts) (record_send_result id r max_attempts delay now table)
  unfolding record_send_result
  record-IsBounded id [] ready h = tt
  record-IsBounded id (m ∷ ms) ready h = elim (Bool-cases (m.id == id)) [
    | inl same ↦
        let e = sent-attempts m in
        let waits = (ready.0 (ground arith)).0 in
        let b : (m.attempts < max_attempts) = (let h0 = h.0.below in ground arith) in
        rw same (record { within = rw e (omega arith); below = rw e (sent-queued m) }, h.1)
    | inr later ↦ rw later (h.0, record-IsBounded id ms ready.1 h.1)
  ]

  on_a_channel-is_push : (m : OutboundMessage) → on_a_channel m.channel ≡ true → is_push m ≡ false
  unfolding in_channels
  on_a_channel-is_push m h = ground arith

  pub record-push :
      (id : ℕ) (table : List OutboundMessage)
      → All (IsSendable id) table
      → keep is_push (record_send_result id r max_attempts delay now table) ≡ keep is_push table
  unfolding record_send_result
  record-push id [] ready = refl
  record-push id (m ∷ ms) ready = elim (Bool-cases (m.id == id)) [
    | inl same ↦
        let other = on_a_channel-is_push m (ready.0 (ground arith)).1 in
        let sent_other : (is_push (sent_row r max_attempts delay now m) ≡ false) =
          sent-is_push m ∙ other in
        rw (same, other, sent_other) refl
    | inr later ↦ rw later (ap (λ t. if is_push m then m ∷ t else t) (record-push id ms ready.1))
  ]
