-- ===== src/Delivery/Verification/Codes.antt =====
-- Which code checks out.
use personal_portfolio_analy.Prelude.{
  ℕ, ◌+◌, ◌≤◌, ◌<◌, ◌≡◌, ◌≢◌, refl, sym, ap, ◌∙◌, true, false, none, some, List, [], ◌∷◌, ◌++◌, map,
  arith, inl, inr, Bool-cases, Option-cases, if◌then◌else◌, ltb, leb, ◌==◌,
}
use personal_portfolio_analy.Store.{
  Store, Text, Channel, sms, email, discord, push, other, VerificationCode, seconds,
}
use personal_portfolio_analy.Delivery.Channels.{same_channel, find_row, mark_channel_verified}
use personal_portfolio_analy.Agent.Content.{strip}
use personal_portfolio_analy.Delivery.Verification.{
  is_live, consume_live, new_code, create_verification_code, latest_code, accept_code, reject_code,
  check_live, check_code, done, Issuer,
}

same_channel_refl : (c : Channel) → same_channel c c ≡ true
unfolding same_channel
same_channel_refl sms = refl
same_channel_refl email = refl
same_channel_refl discord = refl
same_channel_refl push = refl
same_channel_refl (other n) = ground arith

module _ (uid : ℕ) (c : Channel) (now later : ℕ) (order : now ≤ later) where
  stale-live : (k : VerificationCode) → is_live uid c later (consume_live uid c now k) ≡ false
  unfolding consume_live is_live
  stale-live k = ground (arith, order)

  latest-stale :
      (ks : List VerificationCode) (new : VerificationCode)
      → latest_code uid c later (map (consume_live uid c now) ks ++ new ∷ [])
        ≡ (if is_live uid c later new then some new else none)
  unfolding latest_code
  latest-stale [] new = refl
  latest-stale (k ∷ ks) new = rw (stale-live k) (latest-stale ks new)

  lifetime :
      (destination : Text) (code_hash ttl id : ℕ)
      → (if is_live uid c later (new_code id uid c destination code_hash ttl now)
          then some (new_code id uid c destination code_hash ttl now)
          else none)
        ≡ (if ltb later (now + seconds ttl)
            then some (new_code id uid c destination code_hash ttl now)
            else none)
  unfolding is_live
  lifetime destination code_hash ttl id = let same = same_channel_refl c in rw same (ground arith)

  -- From the time a code is made, the live code of the user's channel is that code until its
  -- lifetime is over, and none after that: the codes made before never check out again.
  pub newest_code_alone :
      (destination : Text) (code_hash ttl : ℕ) (s : Store)
      → latest_code uid c later
          (create_verification_code uid c destination code_hash ttl now s).1.codes
        ≡ (if ltb later (now + seconds ttl)
            then some (new_code s.next_id uid c destination code_hash ttl now)
            else none)
  unfolding create_verification_code
  newest_code_alone destination code_hash ttl s =
      latest-stale s.codes (new_code s.next_id uid c destination code_hash ttl now)
      ∙ lifetime destination code_hash ttl s.next_id

module _ (e : Issuer) (uid : ℕ) (c : Channel) (code : Text) (now : ℕ) (s : Store) where
  accept-refused :
      (id : ℕ)
      → (accept_code uid c id now s).0 ≢ done
      → ((accept_code uid c id now s).1.channels ≡ s.channels)
        × ((accept_code uid c id now s).1.users ≡ s.users)
  unfolding accept_code mark_channel_verified
  accept-refused id h = elim (Option-cases (find_row uid c s.channels)) [
    | inl nothing ↦ rw (accept_code, mark_channel_verified, nothing) (refl, refl)
    | inr (r, found) ↦ absurd (h (rw (accept_code, mark_channel_verified, found) refl))
  ]

  live-passes :
      (k : VerificationCode)
      → (check_live e uid c code now s k).0 ≡ done
      → (k.attempts < 5) × (k.code_hash ≡ e.hash (strip code))
  unfolding check_live reject_code
  live-passes k h = (ground arith, ground arith)

  live-refused :
      (k : VerificationCode)
      → (check_live e uid c code now s k).0 ≢ done
      → ((check_live e uid c code now s k).1.channels ≡ s.channels)
        × ((check_live e uid c code now s k).1.users ≡ s.users)
  unfolding check_live reject_code
  live-refused k h = elim (Bool-cases (leb 5 k.attempts)) [
    | inl over ↦ rw over (refl, refl)
    | inr under ↦ elim (Bool-cases (k.code_hash == e.hash (strip code))) [
      | inl right ↦
          let same : (check_live e uid c code now s k ≡ accept_code uid c k.id now s) =
            rw (under, right) refl in
          rw (under, right) (accept-refused k.id (λ d. h (ap (λ r. r.0) same ∙ d)))
      | inr wrong ↦ rw (under, wrong) (refl, refl)
    ]
  ]

  check_code-live :
      (k : VerificationCode)
      → latest_code uid c now s.codes ≡ some k
      → check_code e uid c code now s ≡ check_live e uid c code now s k
  unfolding check_code
  check_code-live k found = rw (check_code, found) refl

  -- A check returns only where the user's channel has a live code, with fewer than five wrong
  -- attempts, whose hash is that of the submitted code.
  pub check_code_passes :
      (check_code e uid c code now s).0 ≡ done
      → (k : VerificationCode) × (latest_code uid c now s.codes ≡ some k)
        × (k.attempts < 5)
        × (k.code_hash ≡ e.hash (strip code))
  unfolding check_code
  check_code_passes h = elim (Option-cases (latest_code uid c now s.codes)) [
    | inl nothing ↦ ground (arith, nothing)
    | inr (k, found) ↦
        let r = live-passes k (ap (λ x. x.0) (sym (check_code-live k found)) ∙ h) in
        (k, found, r.0, r.1)
  ]

  -- A check that does not return leaves the channels and the users as they are.
  pub check_code_refused :
      (check_code e uid c code now s).0 ≢ done
      → ((check_code e uid c code now s).1.channels ≡ s.channels)
        × ((check_code e uid c code now s).1.users ≡ s.users)
  unfolding check_code
  check_code_refused h = elim (Option-cases (latest_code uid c now s.codes)) [
    | inl nothing ↦ rw (check_code, nothing) (refl, refl)
    | inr (k, found) ↦
        let same = check_code-live k found in
        rw (check_code, found) (live-refused k (λ d. h (ap (λ r. r.0) same ∙ d)))
  ]
