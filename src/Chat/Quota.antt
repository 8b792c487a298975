-- ===== src/Chat/Quota.antt =====
-- The quota on questions of app/main.py, over any sequence of questions and answers.
use personal_portfolio_analy.Prelude.{
  ℕ, ◌+◌, ◌-◌, ◌≤◌, ◌<◌, ◌≡◌, ◌≢◌, refl, ap, true, false, Option, some, List, [], ◌∷◌, ◌++◌, arith,
  All, keep, length, leb, ltb, inl, inr, Bool-cases, ◌⊎◌, ◌==◌, ◌&&◌, not,
}
use personal_portfolio_analy.Store.{User, Plan, Text, owner}
use personal_portfolio_analy.Plans.{effective_plan}
use personal_portfolio_analy.Chat.{
  Run, Status, running, is_error, Settings, Verdict, allowed, cost_reached, quota_reached,
  chat_window, chat_limit, monthly_cost, monthly_cost_cap, is_counted, earliest, chat_usage_since,
  enforce_usage_limits, row_of, create_run, ask, finalize_run,
}

module _ (user_id : ℕ) where
  -- How many questions of the user count since a time.
  abbrev pub used : ℕ → List Run → ℕ
  used since runs = length (keep (is_counted user_id since) runs)

  used-later : (a b : ℕ) (runs : List Run) → a ≤ b → used b runs ≤ used a runs
  used-later a b [] h = omega arith
  used-later a b (r ∷ rs) h =
      let ih = used-later a b rs h in
      elim (Bool-cases (r.user_id == user_id && r.is_chat && not (is_error r.status))) [
        | inl mine ↦ elim (Bool-cases (leb b r.created_at)) [
          | inl late ↦
              let early : (leb a r.created_at ≡ true) = ground (arith, h, late) in
              ground (arith, ih, mine, late, early)
          | inr old ↦ ground (arith, ih, mine, old)
        ]
        | inr other ↦ ground (arith, ih, other)
      ]

  used-append :
      (since : ℕ) (runs : List Run) (r : Run) → used since (runs ++ r ∷ []) ≤ used since runs + 1
  used-append since [] r = ground arith
  used-append since (q ∷ qs) r = let ih = used-append since qs r in ground (arith, ih)

  used-append_other :
      (since : ℕ) (runs : List Run) (r : Run)
      → r.user_id ≢ user_id
      → used since (runs ++ r ∷ []) ≡ used since runs
  used-append_other since [] r other = ground arith
  used-append_other since (q ∷ qs) r other =
      let ih = used-append_other since qs r other in ground (arith, ih)

  used-finalize_run :
      (since id : ℕ) (status : Status) (answer : Option Text) (cost : ℕ) (runs : List Run)
      → All (λ r. r.id ≡ id → r.status ≡ running) runs
      → used since (finalize_run id status answer cost runs) ≤ used since runs
  unfolding finalize_run
  used-finalize_run since id status answer cost [] h = omega arith
  used-finalize_run since id status answer cost (r ∷ rs) h =
      let ih = used-finalize_run since id status answer cost rs h.1 in
      elim (Bool-cases (r.id == id)) [
        | inl hit ↦
            let live : (r.status ≡ running) = h.0 (ground (arith, hit)) in
            let counts : (is_error r.status ≡ false) = rw live refl in
            rw hit (ground (arith, counts))
        | inr other ↦ rw other (ground (arith, ih))
      ]

-- A moment of the clock, and the rows at it.
abbrev pub Moment : Type 0
Moment = ℕ × List Run

-- A question of the user on the plan, or of another one, at a later moment, or the end of a run.
pub data Step (c : Settings) (user_id : ℕ) (plan : Plan) : Moment → Moment → Type 0 where
  asked :
      (asker id : ℕ) (user : Option User) (question : Text) (month now clock : ℕ) (runs : List Run)
      → clock ≤ now
      → (asker ≡ user_id → effective_plan user now ≡ plan)
      → Step c user_id plan (clock, runs) (now, (ask c id asker user question month now runs).1)
  finalized :
      (id cost clock : ℕ) (status : Status) (answer : Option Text) (runs : List Run)
      → All (λ r. r.id ≡ id → r.status ≡ running) runs
      → Step c user_id plan (clock, runs) (clock, finalize_run id status answer cost runs)

pub data Reach (c : Settings) (user_id : ℕ) (plan : Plan) (m : Moment) : Moment → Type 0 where
  here : Reach c user_id plan m m
  next :
      {n k : Moment} → Reach c user_id plan m n → Step c user_id plan n k → Reach c user_id plan m k

module _ (c : Settings) (user_id : ℕ) (plan : Plan) where
  -- At the moment, and at any later one, the window holds no more questions than the plan allows.
  abbrev pub IsWithin : Moment → Type 0
  IsWithin m = (t : ℕ) → m.0 ≤ t → used user_id (t - chat_window plan) m.1 ≤ chat_limit plan c

  allowed-below :
      (user : Option User) (month now : ℕ) (runs : List Run)
      → user_id ≢ owner
      → effective_plan user now ≡ plan
      → enforce_usage_limits c user_id user month now runs ≡ allowed
      → used user_id (now - chat_window plan) runs < chat_limit plan c
  unfolding enforce_usage_limits chat_usage_since
  allowed-below user month now runs mortal on h =
      let not_owner : (user_id == owner ≡ false) = ground arith in
      elim (Bool-cases (leb (monthly_cost_cap plan c) (monthly_cost user_id month runs))) [
        | inl dear ↦ ground (arith, rw (enforce_usage_limits, not_owner, on, dear) at h)
        | inr cheap ↦
            elim (Bool-cases
              (ltb (used user_id (now - chat_window plan) runs) (chat_limit plan c))) [
                | inl below ↦ ground (arith, below)
                | inr full ↦
                    ground (arith, rw (enforce_usage_limits, not_owner, on, cheap, full) at h)
              ]
      ]

  Verdict-cases :
      (v : Verdict) → (v ≡ allowed) ⊎ ((v ≡ cost_reached) ⊎ ((t : ℕ) × (v ≡ quota_reached t)))
  Verdict-cases allowed = inl refl
  Verdict-cases cost_reached = inr (inl refl)
  Verdict-cases (quota_reached t) = inr (inr (t, refl))

  -- A question that is refused leaves the rows; one that is not adds its own.
  ask-rows :
      (asker id : ℕ) (user : Option User) (question : Text) (month now : ℕ) (runs : List Run)
      → ((ask c id asker user question month now runs).1 ≡ runs)
        ⊎ ((enforce_usage_limits c asker user month now runs ≡ allowed)
            × ((ask c id asker user question month now runs).1
                ≡ create_run id asker question now runs))
  unfolding ask
  ask-rows asker id user question month now runs =
      elim (Verdict-cases (enforce_usage_limits c asker user month now runs)) [
        | inl free ↦ inr (free, rw (ask, free) refl)
        | inr (inl dear) ↦ inl (rw (ask, dear) refl)
        | inr (inr (t, full)) ↦ inl (rw (ask, full) refl)
      ]

  ask-IsWithin :
      (asker id : ℕ) (user : Option User) (question : Text) (month now clock : ℕ) (runs : List Run)
      → user_id ≢ owner
      → clock ≤ now
      → (asker ≡ user_id → effective_plan user now ≡ plan)
      → IsWithin (clock, runs)
      → IsWithin (now, (ask c id asker user question month now runs).1)
  ask-IsWithin asker id user question month now clock runs mortal later on within t by =
      elim (ask-rows asker id user question month now runs) [
        | inl same ↦ rw same (within t (omega (arith, later, by)))
        | inr (free, grown) ↦ rw grown (elim (Bool-cases (asker == user_id)) [
          | inl mine ↦
              let its : (asker ≡ user_id) = ground (arith, mine) in
              let below = allowed-below user month now runs mortal (on its) (rw its at free) in
              let fewer =
                used-later user_id (now - chat_window plan) (t - chat_window plan) runs
                  (omega (arith, by)) in
              let more =
                used-append user_id (t - chat_window plan) runs (row_of id asker question now) in
              omega (arith, below, fewer, more)
          | inr other ↦
              let same =
                used-append_other user_id (t - chat_window plan) runs (row_of id asker question now)
                  (ground (arith, other)) in
              let before = within t (omega (arith, later, by)) in omega (arith, same, before)
        ])
      ]

  Step-IsWithin :
      {m n : Moment} → user_id ≢ owner → Step c user_id plan m n → IsWithin m → IsWithin n
  Step-IsWithin mortal (asked asker id user question month now clock runs later on) within =
      ask-IsWithin asker id user question month now clock runs mortal later on within
  Step-IsWithin mortal (finalized id cost clock status answer runs live) within = λ t by.
      let fewer =
        used-finalize_run user_id (t - chat_window plan) id status answer cost runs live in
      let before = within t by in omega (arith, fewer, before)

-- While a user who is not the owner stays on one plan, no window of the plan's length that ends now
-- or later ever holds more counted questions than the plan allows, over any sequence of questions,
-- the user's and others', and of ends of running runs, if it does not at the start.
pub quota_holds :
    (c : Settings) (user_id : ℕ) (plan : Plan) {m n : Moment}
    → user_id ≢ owner
    → Reach c user_id plan m n
    → IsWithin c user_id plan m
    → IsWithin c user_id plan n
quota_holds c user_id plan mortal here within = within
quota_holds c user_id plan mortal (next r st) within =
    Step-IsWithin c user_id plan mortal st (quota_holds c user_id plan mortal r within)

refused-until :
    (c : Settings) (user_id : ℕ) (user : Option User) (plan : Plan) (month now until oldest n : ℕ)
    (runs : List Run)
    → user_id ≢ owner
    → effective_plan user now ≡ plan
    → chat_usage_since user_id (now - chat_window plan) runs ≡ (n, some oldest)
    → enforce_usage_limits c user_id user month now runs ≡ quota_reached until
    → until ≡ oldest + chat_window plan
unfolding enforce_usage_limits chat_usage_since
refused-until c user_id user plan month now until oldest n runs mortal on usage h =
    let size : (used user_id (now - chat_window plan) runs ≡ n) = ap (λ u. u.0) usage in
    let first : (earliest (keep (is_counted user_id (now - chat_window plan)) runs) ≡ some oldest) =
      ap (λ u. u.1) usage in
    let not_owner : (user_id == owner ≡ false) = ground arith in
    elim (Bool-cases (leb (monthly_cost_cap plan c) (monthly_cost user_id month runs))) [
      | inl dear ↦ ground (arith, rw (enforce_usage_limits, not_owner, on, dear) at h)
      | inr cheap ↦ elim (Bool-cases (ltb n (chat_limit plan c))) [
        | inl below ↦
            ground (arith, rw (enforce_usage_limits, not_owner, on, cheap, size, below) at h)
        | inr full ↦
            ground (arith, rw (enforce_usage_limits, not_owner, on, cheap, size, full, first) at h)
      ]
    ]

-- Where a question is refused for the quota until a time, a question a moment after that time is
-- still refused, if the plan is the same then and as many counted questions as it allows are younger
-- than the oldest one of the window: the refusal names when the oldest question leaves the window,
-- also where more questions were asked than the plan allows.
pub unlock_too_early :
    (c : Settings) (user_id : ℕ) (user : Option User) (plan : Plan)
    (month month' now until oldest n : ℕ) (runs : List Run)
    → user_id ≢ owner
    → effective_plan user now ≡ plan
    → effective_plan user (until + 1) ≡ plan
    → chat_usage_since user_id (now - chat_window plan) runs ≡ (n, some oldest)
    → chat_limit plan c ≤ used user_id (oldest + 1) runs
    → enforce_usage_limits c user_id user month now runs ≡ quota_reached until
    → enforce_usage_limits c user_id user month' (until + 1) runs ≢ allowed
unlock_too_early c user_id user plan month month' now until oldest n runs mortal on on' usage many
      refused h =
    let time =
      refused-until c user_id user plan month now until oldest n runs mortal on usage refused in
    let below = allowed-below c user_id plan user month' (until + 1) runs mortal on' h in
    let same : (until + 1 - chat_window plan ≡ oldest + 1) = omega (arith, time) in
    let few = rw same at below in omega (arith, few, many)
