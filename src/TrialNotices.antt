-- ===== src/TrialNotices.antt =====
-- app/trial_notices.py: the notices that a trial's end brings, queued once each.
pub mod Once
use personal_portfolio_analy.Prelude.{
  ℕ, zero, suc, ◌+◌, ◌-◌, ◌/◌, Bool, true, false, Option, none, some, List, [], ◌∷◌, ◌++◌, String,
  max, length, leb, if◌then◌else◌,
}
use personal_portfolio_analy.Prelude.Dict.{Dict}
use personal_portfolio_analy.Store.{Store, User, Text, days}
use personal_portfolio_analy.Plans.{trial_active, trial_decision_grace_days}
use personal_portfolio_analy.Accounts.{list_trial_users}
use personal_portfolio_analy.Delivery.Queue.{Draft, enqueue_outbound, has_outbound_of_kind}

abbrev pub ending_soon_days : ℕ
ending_soon_days = 2

abbrev pub final_nudge_days : ℕ
final_nudge_days = 3

pub data NoticeKind : Type 0 where
  ending : ℕ → NoticeKind
  ended : NoticeKind
  final : NoticeKind

-- The `kind` of the notice's message.
abbrev pub kind_of : NoticeKind → String
kind_of (ending _) = "trial_ending"
kind_of ended = "trial_ended"
kind_of final = "trial_final"

-- The texts of a notice: the page that it links to is the deployment's.
pub record Wording : Type 0 where
  pub subject : NoticeKind → Text
  pub body : NoticeKind → Text
  pub sms : NoticeKind → Text
  pub push_title : Text
  pub deep_link : Text

-- `max(1, math.ceil((ends - now) / timedelta(days=1)))`
abbrev pub days_left : ℕ → ℕ → ℕ
days_left ends now = max 1 ((ends - now + (days 1 - 1)) / days 1)

abbrev pub ending_notices : ℕ → List NoticeKind
ending_notices left = if leb left ending_soon_days then ending left ∷ [] else []

abbrev pub lapsed_notices : ℕ → List NoticeKind
lapsed_notices lapsed_for =
    if leb (days trial_decision_grace_days) lapsed_for
    then []
    else if leb (days final_nudge_days) lapsed_for
    then ended ∷ final ∷ []
    else ended ∷ []

-- `_notices_for`, a user with `trial_ends_at`
unfoldable pub notices_for : User → ℕ → ℕ → List NoticeKind
unfolding trial_active
notices_for u ends now =
    if trial_active (some u) now
    then ending_notices (days_left ends now)
    else lapsed_notices (now - ends)

abbrev pub draft_of : Wording → ℕ → NoticeKind → Draft
draft_of w uid n = record {
  body = w.body n;
  user_id = some uid;
  kind = kind_of n;
  subject = some (w.subject n);
  sms_body = some (w.sms n);
  push = true;
  push_title = some w.push_title;
  push_body = some (w.sms n);
  deep_link = some w.deep_link;
}

-- The body of the inner loop of `run_trial_notices`, with whether the database takes the write;
-- an exception is logged and the scan goes on.
unfoldable pub queue_notice :
    Wording → (ℕ → NoticeKind → Bool) → ℕ → ℕ → NoticeKind → ℕ × Store → ℕ × Store
unfolding has_outbound_of_kind enqueue_outbound
queue_notice w works now uid n (queued, s) =
    if has_outbound_of_kind uid (kind_of n) s.outbound
    then (queued, s)
    else if works uid n
    then (suc queued, (enqueue_outbound (draft_of w uid n) now s).1)
    else (queued, s)

unfoldable pub queue_notices :
    Wording → (ℕ → NoticeKind → Bool) → ℕ → ℕ → List NoticeKind → ℕ × Store → ℕ × Store
unfolding queue_notice
queue_notices w works now uid [] r = r
queue_notices w works now uid (n ∷ ns) r =
    queue_notices w works now uid ns (queue_notice w works now uid n r)

abbrev pub due_notices : User → ℕ → List NoticeKind
due_notices u now = elim u.trial_ends_at [ none ↦ [] | some ends ↦ notices_for u ends now ]

unfoldable pub scan : Wording → (ℕ → NoticeKind → Bool) → ℕ → Dict User → ℕ × Store → ℕ × Store
unfolding queue_notices notices_for
scan w works now [] r = r
scan w works now ((uid, u) ∷ users) r =
    scan w works now users (queue_notices w works now uid (due_notices u now) r)

-- `run_trial_notices`: how many users were scanned, how many notices were queued, and the store.
unfoldable pub run_trial_notices : Wording → (ℕ → NoticeKind → Bool) → ℕ → Store → ℕ × ℕ × Store
unfolding scan list_trial_users
run_trial_notices w works now s =
    let users = list_trial_users s in
    let (queued, s') = scan w works now users (0, s) in (length users, queued, s')
