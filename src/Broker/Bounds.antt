-- ===== src/Broker/Bounds.antt =====
-- What the broker keeps of a job's events, and how much.
use personal_portfolio_analy.Prelude.{
  ℕ, suc, ◌<◌, ◌≡◌, refl, false, some, List, [], ◌∷◌, ◌++◌, arith, inl, inr, Option-cases, ◌==◌,
}
use personal_portfolio_analy.Prelude.Dict.{Dict, lookup, pop}
use personal_portfolio_analy.Prelude.Ordered.{trim, lookup-pop, lookup-append, lookup-trim}
use personal_portfolio_analy.Broker.{
  Settings, Broker, evict, discard, append_capped, touch, with_buffer, record_event, publish,
  buffer_of, event, put_all, subscribers,
}

pub evict-trim :
    (n : ℕ) (history : Dict (List ℕ)) (finished : List ℕ)
    → (evict n history finished).0 ≡ trim n history
evict-trim n [] finished = refl
evict-trim n (e ∷ history) finished =
    let ih = evict-trim n history (discard e.0 finished) in ground (arith, ih)

with_buffer-found :
    (c : Settings) (m key : ℕ) (b : Broker)
    → c.max_histories ≡ suc m
    → lookup key (with_buffer c key b).history ≡ some (buffer_of key b)
unfolding with_buffer
with_buffer-found c m key b size = elim (Option-cases (lookup key b.history)) [
  | inl new ↦
      let kept = lookup-trim m key [] b.history new in
      let empty : (buffer_of key b ≡ []) = rw (buffer_of, new) refl in
      rw (new, size, empty, evict-trim (suc m) (b.history ++ (key, []) ∷ []) b.finished) kept
  | inr (buffer, old) ↦
      let same : (buffer_of key b ≡ buffer) = rw (buffer_of, old) refl in rw (old, old, same) refl
]

touch-found :
    (key : ℕ) (f : List ℕ → List ℕ) (b : Broker) (buffer : List ℕ)
    → lookup key b.history ≡ some buffer
    → (b' : Broker) × (touch key f b ≡ some b') × (lookup key b'.history ≡ some (f buffer))
unfolding touch
touch-found key f b buffer found = (
  record b { history = pop key b.history ++ (key, f buffer) ∷ [] },
  rw (touch, found) refl,
  lookup-append key (f buffer) (pop key b.history) (lookup-pop key b.history),
)

-- Where events are kept, for one job or more, an event that is published is the last of its job's
-- buffer, behind what the buffer held, but for the oldest event of a full one; nothing is raised.
pub publish_records :
    (c : Settings) (m key e : ℕ) (b : Broker)
    → 0 < c.replay_size
    → c.max_histories ≡ suc m
    → (b' : Broker) × (publish c key e b ≡ some b')
      × (lookup key b'.history ≡ some (append_capped c.replay_size e (buffer_of key b)))
unfolding publish record_event
publish_records c m key e b keeps size =
    let on : (c.replay_size == 0 ≡ false) = ground arith in
    let (b', done, held) =
      touch-found key (append_capped c.replay_size e) (with_buffer c key b) (buffer_of key b)
        (with_buffer-found c m key b size) in
    (
      record b' { queues = put_all (event e) (subscribers key b') b'.queues },
      rw (publish, record_event, on, done) refl,
      held,
    )
