-- ===== src/Broker.antt =====
-- `ProgressBroker` of app/streaming.py: the subscribers of a job, and the events kept for those who
-- come late. A queue is known by its number; an event is a number. A raised KeyError is `none`.
pub mod Bounds
pub mod Histories
use personal_portfolio_analy.Prelude.{
  ℕ, zero, suc, ◌+◌, Bool, true, false, not, Option, none, some, List, [], ◌∷◌, ◌++◌, length, keep,
  any, leb, ltb, ◌==◌, is_some, if◌then◌else◌,
}
use personal_portfolio_analy.Prelude.Dict.{Dict, lookup, insert, pop}

pub data Item : Type 0 where
  event : ℕ → Item
  sentinel : Item

pub record Settings : Type 0 where
  pub replay_size : ℕ
  pub max_histories : ℕ

pub record Broker : Type 0 where
  pub next_queue : ℕ
  pub subs : Dict (List ℕ)
  pub queues : Dict (List Item)
  pub history : Dict (List ℕ)
  pub finished : List ℕ

abbrev pub queue_size : ℕ
queue_size = 256

abbrev pub subscribers : ℕ → Broker → List ℕ
subscribers key b = elim (lookup key b.subs) [ none ↦ [] | some qs ↦ qs ]

unfoldable pub subscribe : ℕ → Broker → ℕ × Broker
subscribe key b = (
  b.next_queue,
  record b {
    next_queue = suc b.next_queue;
    subs = insert key (subscribers key b ++ b.next_queue ∷ []) b.subs;
    queues = insert b.next_queue [] b.queues;
  },
)

-- `queues.remove(q)`, where a missing queue is passed over.
abbrev pub remove : ℕ → List ℕ → List ℕ
remove q [] = []
remove q (p ∷ ps) = if p == q then ps else p ∷ remove q ps

abbrev pub store_subs : ℕ → List ℕ → Dict (List ℕ) → Dict (List ℕ)
store_subs key [] subs = pop key subs
store_subs key (q ∷ qs) subs = insert key (q ∷ qs) subs

unfoldable pub unsubscribe : ℕ → ℕ → Broker → Broker
unsubscribe key q b = elim (lookup key b.subs) [
  | none ↦ b
  | some qs ↦ record b { subs = store_subs key (remove q qs) b.subs }
]

-- `put_nowait`, where a full queue drops the item.
abbrev pub put_nowait : Item → ℕ → Dict (List Item) → Dict (List Item)
put_nowait item q queues = elim (lookup q queues) [
  | none ↦ queues
  | some items ↦
      if ltb (length items) queue_size then insert q (items ++ item ∷ []) queues else queues
]

abbrev pub put_all : Item → List ℕ → Dict (List Item) → Dict (List Item)
put_all item [] queues = queues
put_all item (q ∷ qs) queues = put_all item qs (put_nowait item q queues)

-- `deque(maxlen=size).append`
abbrev tail : List ℕ → List ℕ
tail [] = []
tail (x ∷ xs) = xs

abbrev pub append_capped : ℕ → ℕ → List ℕ → List ℕ
append_capped size e buffer =
    if ltb (length buffer) size then buffer ++ e ∷ [] else tail buffer ++ e ∷ []

abbrev pub discard : ℕ → List ℕ → List ℕ
discard key = keep (λ k. not (k == key))

-- `while len(history) > max: evict the oldest`
abbrev pub evict : ℕ → Dict (List ℕ) → List ℕ → Dict (List ℕ) × List ℕ
evict max [] finished = ([], finished)
evict max (e ∷ history) finished =
    let rest = evict max history (discard e.0 finished) in
    if leb (length (e ∷ history)) max then (e ∷ history, finished) else rest

-- `move_to_end(key)`, with the buffer as it is written; KeyError where the key was evicted.
unfoldable pub touch : ℕ → (List ℕ → List ℕ) → Broker → Option Broker
touch key f b = elim (lookup key b.history) [
  | none ↦ none
  | some buffer ↦ some (record b { history = pop key b.history ++ (key, f buffer) ∷ [] })
]

-- A buffer for the key, if it has none, and the evictions of `_record`.
unfoldable pub with_buffer : Settings → ℕ → Broker → Broker
with_buffer c key b =
    if is_some (lookup key b.history)
    then b
    else let kept = evict c.max_histories (b.history ++ (key, []) ∷ []) b.finished in
      record b { history = kept.0; finished = kept.1 }

unfoldable pub record_event : Settings → ℕ → ℕ → Broker → Option Broker
unfolding touch with_buffer
record_event c key e b =
    if c.replay_size == 0
    then some b
    else touch key (append_capped c.replay_size e) (with_buffer c key b)

unfoldable pub publish : Settings → ℕ → ℕ → Broker → Option Broker
unfolding record_event
publish c key e b = elim (record_event c key e b) [
  | none ↦ none
  | some b' ↦ some (record b' { queues = put_all (event e) (subscribers key b') b'.queues })
]

abbrev pub buffer_of : ℕ → Broker → List ℕ
buffer_of key b = elim (lookup key b.history) [ none ↦ [] | some buffer ↦ buffer ]

-- `open`
unfoldable pub open_run : Settings → ℕ → Broker → Broker
open_run c key b =
    if c.replay_size == 0
    then b
    else let kept =
        evict c.max_histories (pop key b.history ++ (key, buffer_of key b) ∷ [])
          (discard key b.finished) in
      record b { history = kept.0; finished = kept.1 }

unfoldable pub close : Settings → ℕ → Broker → Broker
close c key b = record b {
  finished = if c.replay_size == 0 then b.finished else key ∷ discard key b.finished;
  subs = pop key b.subs;
  queues = put_all sentinel (subscribers key b) b.queues;
}

unfoldable pub forget : ℕ → Broker → Broker
forget key b = record b { history = pop key b.history; finished = discard key b.finished }
