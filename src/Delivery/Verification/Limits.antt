-- ===== src/Delivery/Verification/Limits.antt =====
-- How many codes are sent.
use personal_portfolio_analy.Prelude.{
  ℕ, ◌+◌, ◌-◌, ◌≤◌, ◌≡◌, refl, Bool, Option, some, List, [], ◌∷◌, ◌++◌, map, arith, inl, inr,
  Bool-cases, Option-cases, max,
}
use personal_portfolio_analy.Store.{Store, Text, Channel, VerificationCode, hours, days}
use personal_portfolio_analy.Delivery.Channels.{
  validate_destination, upsert_notification_channel, find_row,
}
use personal_portfolio_analy.Delivery.Dispatcher.{Sending}
use personal_portfolio_analy.Delivery.Verification.{
  is_live, consume_live, new_code, create_verification_code, count_since, sent_to, sent_by,
  six_digits, code_ttl_seconds, send_code, issue_code, Issuer,
}

-- A test that does not look at whether a code was consumed.
abbrev Blind : (VerificationCode → Bool) → Type 0
Blind p = (k : VerificationCode) (at : Option ℕ) → p (record k { consumed_at = at }) ≡ p k

module _ (since : ℕ) (p : VerificationCode → Bool) (blind : Blind p) where
  consume-created :
      (uid : ℕ) (c : Channel) (now : ℕ) (k : VerificationCode)
      → ((consume_live uid c now k).created_at ≡ k.created_at)
        × (p (consume_live uid c now k) ≡ p k)
  unfolding consume_live
  consume-created uid c now k = elim (Bool-cases (is_live uid c now k)) [
    | inl live ↦ rw live (refl, blind k (some now))
    | inr dead ↦ rw dead (refl, refl)
  ]

  count-consumed :
      (uid : ℕ) (c : Channel) (now : ℕ) (ks : List VerificationCode) (new : VerificationCode)
      → count_since since p (map (consume_live uid c now) ks ++ new ∷ [])
        ≤ count_since since p ks + 1
  unfolding count_since consume_live
  count-consumed uid c now [] new = ground arith
  count-consumed uid c now (k ∷ ks) new =
      let same = consume-created uid c now k in
      let ih = count-consumed uid c now ks new in rw (same.0, same.1) (ground arith)

upsert-codes :
    (uid : ℕ) (c : Channel) (destination : Text) (consent : Bool) (now : ℕ) (s : Store)
    → (upsert_notification_channel uid c destination consent now s).codes ≡ s.codes
unfolding upsert_notification_channel
upsert-codes uid c destination consent now s = elim (Option-cases (find_row uid c s.channels)) [
  | inl nothing ↦ rw (upsert_notification_channel, nothing) refl
  | inr (r, found) ↦ rw (upsert_notification_channel, found) refl
]

module _ (e : Issuer) (uid : ℕ) (c : Channel) (destination : Text) (consent : Bool) (drawn now : ℕ)
    (s : Store) where
  send_code-count :
      (send : Text → Text → Sending) (since : ℕ) (p : VerificationCode → Bool)
      → Blind p
      → count_since since p (send_code e send uid c destination consent drawn now s).1.codes
        ≤ count_since since p s.codes + 1
  unfolding send_code create_verification_code
  send_code-count send since p blind =
      let same = upsert-codes uid c destination consent now s in
      rw same (
        count-consumed since p blind uid c now s.codes (
          new_code (upsert_notification_channel uid c destination consent now s).next_id uid c
            destination (e.hash (six_digits drawn)) code_ttl_seconds now))

  -- However a request for a code ends, it leaves at most three codes of the last hour for its
  -- destination and at most ten codes of the last day for its user, or as many as there were.
  pub issue_code_limits :
      (count_since
          (now - hours 1)
          (sent_to destination)
          (issue_code e uid c destination consent drawn now s).1.codes
        ≤ max (count_since (now - hours 1) (sent_to destination) s.codes) 3)
      × (count_since
            (now - days 1)
            (sent_by uid)
            (issue_code e uid c destination consent drawn now s).1.codes
          ≤ max (count_since (now - days 1) (sent_by uid) s.codes) 10)
  unfolding issue_code
  issue_code_limits = elim (Option-cases (e.adapters c)) [
    | inl nothing ↦ rw (issue_code, nothing) (omega arith, omega arith)
    | inr (send, available) ↦ elim (Option-cases (validate_destination e.classes c destination)) [
      | inr (problem, wrong) ↦ rw (issue_code, available, wrong) (omega arith, omega arith)
      | inl fine ↦
          let to = send_code-count send (now - hours 1) (sent_to destination) (λ k at. refl) in
          let by = send_code-count send (now - days 1) (sent_by uid) (λ k at. refl) in
          rw (issue_code, available, fine) (ground arith, ground arith)
    ]
  ]
