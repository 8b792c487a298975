-- ===== src/Delivery/Queue/Claim.antt =====
-- A claim takes due rows, at most a batch of them, and leases them.
use personal_portfolio_analy.Prelude.{
  ℕ, zero, suc, ◌+◌, ◌≤◌, ◌≡◌, refl, true, List, [], ◌∷◌, arith, All, length, inl, inr, Bool-cases,
}
use personal_portfolio_analy.Store.{OutboundMessage, queued}
use personal_portfolio_analy.Delivery.Queue.{claim_due, is_due, on_a_channel}

-- A row as it is claimed.
pub record IsClaimed (lease now : ℕ) (m : OutboundMessage) : Type 0 where
  pub status : m.status ≡ queued
  pub reachable : on_a_channel m.channel ≡ true
  pub leased : m.next_attempt_at ≡ now + lease

due-IsClaimed :
    (lease now : ℕ) (m : OutboundMessage)
    → is_due now m ≡ true
    → IsClaimed lease now (record m { next_attempt_at = now + lease })
unfolding is_due
due-IsClaimed lease now m due = record {
  status = ground arith;
  reachable = ground arith;
  leased = refl;
}

-- A claim hands out at most `limit` rows; each is queued, on a channel that users choose, and
-- leased for the whole lease.
pub claim_due-IsClaimed :
    (limit lease now : ℕ) (table : List OutboundMessage)
    → let (claimed, rest) = claim_due limit lease now table in
      All (IsClaimed lease now) claimed × (length claimed ≤ limit) × (length rest ≡ length table)
unfolding claim_due
claim_due-IsClaimed limit lease now [] = (tt, omega arith, refl)
claim_due-IsClaimed zero lease now (m ∷ ms) = (tt, omega arith, refl)
claim_due-IsClaimed (suc limit) lease now (m ∷ ms) = elim (Bool-cases (is_due now m)) [
  | inl due ↦
      let ih = claim_due-IsClaimed limit lease now ms in
      rw due ((due-IsClaimed lease now m due, ih.0), omega (arith, ih.1), omega (arith, ih.2))
  | inr later ↦
      let ih = claim_due-IsClaimed (suc limit) lease now ms in
      rw later (ih.0, ih.1, omega (arith, ih.2))
]
