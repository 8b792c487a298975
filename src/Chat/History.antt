-- ===== src/Chat/History.antt =====
-- The earlier turns that a prompt of the chat repeats (app/main.py).
use personal_portfolio_analy.Prelude.{
  ℕ, zero, suc, ◌*◌, ◌≤◌, ◌≡◌, some, List, [], ◌∷◌, ◌++◌, arith, All, length, length-append,
  length-take-le, take, inl, inr, Bool-cases, Option-cases, leb,
}
use personal_portfolio_analy.Store.{Text}
use personal_portfolio_analy.Chat.{
  Run, Settings, Role, from_user, from_assistant, chat_history_msg_chars, said, pair_of, pairs_of,
  oldest_first, chat_history_messages, is_error,
}

-- Questions and answers in turn, each no longer than a message may be.
abbrev pub IsPaired : List (Role × Text) → Type 0
IsPaired [] = Unit
IsPaired ((from_user, question) ∷ (from_assistant, answer) ∷ ms) =
    (length question ≤ chat_history_msg_chars)
    × (length answer ≤ chat_history_msg_chars)
    × IsPaired ms
IsPaired _ = ⊥

abbrev IsShort : Text × Text → Type 0
IsShort p = (length p.0 ≤ chat_history_msg_chars) × (length p.1 ≤ chat_history_msg_chars)

pair_of-IsShort : (r : Run) (p : Text × Text) → pair_of r ≡ some p → IsShort p
pair_of-IsShort r p h = elim (Bool-cases (is_error r.status)) [
  | inl failed ↦ ground (arith, rw failed at h)
  | inr ended ↦ elim (Option-cases (said r.user_message)) [
    | inl silent ↦ ground (arith, rw (ended, silent) at h)
    | inr (question, asked) ↦ elim (Option-cases (said r.final_answer)) [
      | inl silent ↦ ground (arith, rw (ended, asked, silent) at h)
      | inr (answer, answered) ↦
          let got = rw (ended, asked, answered) at h in
          let whole : (p ≡ (take 1200 question, take 1200 answer)) = ground (arith, got) in
          rw whole (length-take-le 1200 question, length-take-le 1200 answer)
    ]
  ]
]

pairs_of-IsShort : (turns : ℕ) (runs : List Run) → All IsShort (pairs_of turns runs)
pairs_of-IsShort turns [] = tt
pairs_of-IsShort zero (r ∷ rs) = tt
pairs_of-IsShort (suc turns) (r ∷ rs) = elim (Option-cases (pair_of r)) [
  | inl skipped ↦ rw (All, pairs_of, skipped) (pairs_of-IsShort (suc turns) rs)
  | inr (p, made) ↦ rw (All, pairs_of, made) (pair_of-IsShort r p made, pairs_of-IsShort turns rs)
]

length-pairs_of : (turns : ℕ) (runs : List Run) → length (pairs_of turns runs) ≤ turns
length-pairs_of turns [] = omega arith
length-pairs_of zero (r ∷ rs) = omega arith
length-pairs_of (suc turns) (r ∷ rs) = elim (Option-cases (pair_of r)) [
  | inl skipped ↦ rw (length, pairs_of, skipped) (length-pairs_of (suc turns) rs)
  | inr (p, made) ↦
      let more = length-pairs_of turns rs in rw (length, pairs_of, made) (omega (arith, more))
]

append-IsPaired : (ms ns : List (Role × Text)) → IsPaired ms → IsPaired ns → IsPaired (ms ++ ns)
append-IsPaired [] ns h k = k
append-IsPaired ((from_user, q) ∷ (from_assistant, a) ∷ ms) ns h k =
    (h.0, h.1, append-IsPaired ms ns h.2 k)
append-IsPaired ((from_user, q) ∷ (from_user, a) ∷ ms) ns h k = absurd h
append-IsPaired ((from_user, q) ∷ []) ns h k = absurd h
append-IsPaired ((from_assistant, q) ∷ ms) ns h k = absurd h

oldest_first-IsPaired : (ps : List (Text × Text)) → All IsShort ps → IsPaired (oldest_first ps)
oldest_first-IsPaired [] h = tt
oldest_first-IsPaired ((question, answer) ∷ ps) h =
    append-IsPaired (oldest_first ps) ((from_user, question) ∷ (from_assistant, answer) ∷ [])
      (oldest_first-IsPaired ps h.1) (h.0.0, h.0.1, tt)

length-oldest_first : (ps : List (Text × Text)) → length (oldest_first ps) ≡ length ps * 2
length-oldest_first [] = omega arith
length-oldest_first ((question, answer) ∷ ps) =
    let ih = length-oldest_first ps in
    let split =
      length-append (oldest_first ps) ((from_user, question) ∷ (from_assistant, answer) ∷ []) in
    omega (arith, ih, split)

-- The repeated turns are a question and an answer in turn, a question first, each of at most 1200
-- characters, and at most as many pairs as the setting allows, whatever the runs are.
pub chat_history_messages-IsPaired :
    (c : Settings) (runs : List Run)
    → IsPaired (chat_history_messages c runs)
      × (length (chat_history_messages c runs) ≤ c.chat_history_turns * 2)
unfolding chat_history_messages
chat_history_messages-IsPaired c runs = elim (Bool-cases (leb c.chat_history_turns 0)) [
  | inl off ↦ rw off (tt, omega arith)
  | inr on ↦
      let kept = take (c.chat_history_turns * 2) runs in
      let pairs = pairs_of c.chat_history_turns kept in
      let few = length-pairs_of c.chat_history_turns kept in
      let size = length-oldest_first pairs in
      rw on (
        oldest_first-IsPaired pairs (pairs_of-IsShort c.chat_history_turns kept),
        omega (arith, few, size),
      )
]
