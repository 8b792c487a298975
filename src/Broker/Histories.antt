-- ===== src/Broker/Histories.antt =====
-- How many histories the broker keeps, over its operations.
use personal_portfolio_analy.Prelude.{
  ℕ, ◌+◌, ◌≤◌, ◌≡◌, Option, none, some, List, [], ◌∷◌, ◌++◌, arith, length, length-append, inl, inr,
  Bool-cases, Option-cases, ◌==◌, is_some,
}
use mathlib.Core.Path.{subst}
use personal_portfolio_analy.Prelude.Dict.{Dict, lookup, pop}
use personal_portfolio_analy.Prelude.Ordered.{length-trim}
use personal_portfolio_analy.Broker.{
  Settings, Broker, evict, discard, append_capped, touch, with_buffer, record_event, publish,
  buffer_of, open_run, close, forget, subscribe, unsubscribe,
}
use personal_portfolio_analy.Broker.Bounds.{evict-trim}

pub data Step (c : Settings) : Broker → Broker → Type 0 where
  subscribed : (key : ℕ) (b : Broker) → Step c b (subscribe key b).1
  unsubscribed : (key q : ℕ) (b : Broker) → Step c b (unsubscribe key q b)
  published : (key e : ℕ) (b b' : Broker) → publish c key e b ≡ some b' → Step c b b'
  opened : (key : ℕ) (b : Broker) → Step c b (open_run c key b)
  closed : (key : ℕ) (b : Broker) → Step c b (close c key b)
  forgotten : (key : ℕ) (b : Broker) → Step c b (forget key b)

pub data Reach (c : Settings) (b : Broker) : Broker → Type 0 where
  here : Reach c b b
  next : {t u : Broker} → Reach c b t → Step c t u → Reach c b u

module _ (key : ℕ) where
  length-pop : (h : Dict (List ℕ)) → length (pop key h) ≤ length h
  length-pop [] = omega arith
  length-pop (e ∷ h) = ground (arith, length-pop h)

  length-pop_found :
      (h : Dict (List ℕ)) (buffer : List ℕ)
      → lookup key h ≡ some buffer
      → length (pop key h) + 1 ≤ length h
  length-pop_found [] buffer found = ground (arith, found)
  length-pop_found (e ∷ h) buffer found = elim (Bool-cases (e.0 == key)) [
    | inl same ↦ let shorter = length-pop h in rw same (omega (arith, shorter))
    | inr differ ↦
        let ih = length-pop_found h buffer (ground (arith, found)) in rw differ (omega (arith, ih))
  ]

abbrev Fits : Settings → Broker → Type 0
Fits c b = length b.history ≤ c.max_histories

module _ (c : Settings) where
  evict-Fits :
      (h : Dict (List ℕ)) (finished : List ℕ)
      → length (evict c.max_histories h finished).0 ≤ c.max_histories
  evict-Fits h finished = rw (evict-trim c.max_histories h finished) (length-trim c.max_histories h)

  with_buffer-Fits : (key : ℕ) (b : Broker) → Fits c b → Fits c (with_buffer c key b)
  unfolding with_buffer
  with_buffer-Fits key b h = elim (Bool-cases (is_some (lookup key b.history))) [
    | inl old ↦ rw (with_buffer, old) h
    | inr new ↦ rw (with_buffer, new) (evict-Fits (b.history ++ (key, []) ∷ []) b.finished)
  ]

  -- What a call that may raise leaves.
  abbrev Kept : Option Broker → Type 0
  Kept none = Unit
  Kept (some b) = Fits c b

  touch-Kept : (key : ℕ) (f : List ℕ → List ℕ) (b : Broker) → Fits c b → Kept (touch key f b)
  unfolding touch
  touch-Kept key f b h = elim (Option-cases (lookup key b.history)) [
    | inl absent ↦ rw (touch, absent) tt
    | inr (buffer, found) ↦
        let shorter = length-pop_found key b.history buffer found in
        let grown = length-append (pop key b.history) ((key, f buffer) ∷ []) in
        rw (touch, found) (omega (arith, shorter, grown, h))
  ]

  record_event-Kept : (key e : ℕ) (b : Broker) → Fits c b → Kept (record_event c key e b)
  unfolding record_event
  record_event-Kept key e b h = elim (Bool-cases (c.replay_size == 0)) [
    | inl off ↦ rw (record_event, off) h
    | inr on ↦
        rw (record_event, on)
          (touch-Kept key (append_capped c.replay_size e) (with_buffer c key b)
            (with_buffer-Fits key b h))
  ]

  publish-Kept : (key e : ℕ) (b : Broker) → Fits c b → Kept (publish c key e b)
  unfolding publish
  publish-Kept key e b h = elim (Option-cases (record_event c key e b)) [
    | inl absent ↦ rw (publish, absent) tt
    | inr (b₁, recorded) ↦
        rw (publish, recorded) (subst Kept recorded (record_event-Kept key e b h))
  ]

  Step-Fits : {b b' : Broker} → Step c b b' → Fits c b → Fits c b'
  unfolding subscribe unsubscribe open_run close forget
  Step-Fits (subscribed key b) h = h
  Step-Fits (unsubscribed key q b) h = elim (Option-cases (lookup key b.subs)) [
    | inl absent ↦ rw (unsubscribe, absent) h
    | inr (qs, found) ↦ rw (unsubscribe, found) h
  ]
  Step-Fits (published key e b b' done) h = subst Kept done (publish-Kept key e b h)
  Step-Fits (opened key b) h = elim (Bool-cases (c.replay_size == 0)) [
    | inl off ↦ rw (open_run, off) h
    | inr on ↦
        rw (open_run, on)
          (evict-Fits (pop key b.history ++ (key, buffer_of key b) ∷ []) (discard key b.finished))
  ]
  Step-Fits (closed key b) h = h
  Step-Fits (forgotten key b) h = omega (arith, length-pop key b.history)

-- Whatever jobs are subscribed to, published for, opened, closed and forgotten, the broker never
-- keeps more histories than its setting allows, if it starts with no more.
pub histories_bounded :
    (c : Settings) {b b' : Broker}
    → Reach c b b'
    → length b.history ≤ c.max_histories
    → length b'.history ≤ c.max_histories
histories_bounded c here h = h
histories_bounded c (next r st) h = Step-Fits c st (histories_bounded c r h)
