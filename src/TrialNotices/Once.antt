-- ===== src/TrialNotices/Once.antt =====
-- A second run of the notices queues nothing.
use personal_portfolio_analy.Prelude.{
  eq_self, ℕ, ◌≡◌, refl, ◌∙◌, Bool, true, List, [], ◌∷◌, ◌++◌, arith, All, All-map, any, length,
  inl, inr, Bool-cases, str_eq_refl,
}
use personal_portfolio_analy.Prelude.Dict.{Dict}
use personal_portfolio_analy.Store.{Store, User, OutboundMessage}
use personal_portfolio_analy.Accounts.{list_trial_users}
use personal_portfolio_analy.Delivery.Queue.{
  Draft, Route, skip, deliver, route, routed, enqueue_outbound, has_outbound_of_kind,
}
use personal_portfolio_analy.TrialNotices.{
  NoticeKind, kind_of, Wording, draft_of, queue_notice, queue_notices, due_notices, scan,
  run_trial_notices,
}

any-append :
    (p : OutboundMessage → Bool) (xs ys : List OutboundMessage)
    → any p xs ≡ true
    → any p (xs ++ ys) ≡ true
any-append p [] ys h = ground (arith, h)
any-append p (x ∷ xs) ys h = ground (arith, any-append p xs ys)

any-there :
    (p : OutboundMessage → Bool) (xs ys : List OutboundMessage) (y : OutboundMessage)
    → p y ≡ true
    → any p (xs ++ y ∷ ys) ≡ true
any-there p [] ys y h = rw h refl
any-there p (x ∷ xs) ys y h = let ih = any-there p xs ys y h in ground (arith, ih)

routed-kind :
    (id uid : ℕ) (d : Draft) (now : ℕ) (r : Route)
    → ((routed id uid d now r).user_id ≡ uid) × ((routed id uid d now r).kind ≡ d.kind)
unfolding routed
routed-kind id uid d now (skip e) = (refl, refl)
routed-kind id uid d now (deliver c t) = (refl, refl)

-- A database that takes every write.
abbrev pub always : ℕ → NoticeKind → Bool
always uid n = true

module _ (w : Wording) (now : ℕ) where
  abbrev Has : Store → ℕ → NoticeKind → Type 0
  Has s uid n = has_outbound_of_kind uid (kind_of n) s.outbound ≡ true

  enqueue-Has :
      (uid : ℕ) (n : NoticeKind) (s : Store)
      → Has (enqueue_outbound (draft_of w uid n) now s).1 uid n
  unfolding enqueue_outbound has_outbound_of_kind
  enqueue-Has uid n s =
      let k = routed-kind s.next_id uid (draft_of w uid n) now (route uid now s) in
      any-there _ s.outbound _ (routed s.next_id uid (draft_of w uid n) now (route uid now s))
        (rw (k.0, k.1, eq_self uid, str_eq_refl (kind_of n)) refl)

  notice-keeps :
      (uid : ℕ) (n : NoticeKind) (queued : ℕ) (s : Store) (other : ℕ) (m : NoticeKind)
      → Has s other m
      → Has (queue_notice w always now uid n (queued, s)).1 other m
  unfolding queue_notice enqueue_outbound has_outbound_of_kind
  notice-keeps uid n queued s other m h =
      elim (Bool-cases (has_outbound_of_kind uid (kind_of n) s.outbound)) [
        | inl there ↦ rw (queue_notice, there) h
        | inr absent ↦ rw (queue_notice, absent) (any-append _ s.outbound _ h)
      ]

  notice-Has :
      (uid : ℕ) (n : NoticeKind) (queued : ℕ) (s : Store)
      → Has (queue_notice w always now uid n (queued, s)).1 uid n
  unfolding queue_notice
  notice-Has uid n queued s = elim (Bool-cases (has_outbound_of_kind uid (kind_of n) s.outbound)) [
    | inl there ↦ rw (queue_notice, there) there
    | inr absent ↦ rw (queue_notice, absent) (enqueue-Has uid n s)
  ]

  notices-keep :
      (uid : ℕ) (ns : List NoticeKind) (r : ℕ × Store) (other : ℕ) (m : NoticeKind)
      → Has r.1 other m
      → Has (queue_notices w always now uid ns r).1 other m
  unfolding queue_notices
  notices-keep uid [] r other m h = h
  notices-keep uid (n ∷ ns) r other m h =
      notices-keep uid ns (queue_notice w always now uid n r) other m
        (notice-keeps uid n r.0 r.1 other m h)

  notices-Have :
      (uid : ℕ) (ns : List NoticeKind) (r : ℕ × Store)
      → All (Has (queue_notices w always now uid ns r).1 uid) ns
  unfolding queue_notices
  notices-Have uid [] r = tt
  notices-Have uid (n ∷ ns) r =
      let r' = queue_notice w always now uid n r in
      (notices-keep uid ns r' uid n (notice-Has uid n r.0 r.1), notices-Have uid ns r')

  scan-keeps :
      (users : Dict User) (r : ℕ × Store) (other : ℕ) (m : NoticeKind)
      → Has r.1 other m
      → Has (scan w always now users r).1 other m
  unfolding scan
  scan-keeps [] r other m h = h
  scan-keeps ((uid, u) ∷ users) r other m h =
      scan-keeps users (queue_notices w always now uid (due_notices u now) r) other m
        (notices-keep uid (due_notices u now) r other m h)

  abbrev Noticed : Store → ℕ × User → Type 0
  Noticed s e = All (Has s e.0) (due_notices e.1 now)

  scan-Has : (users : Dict User) (r : ℕ × Store) → All (Noticed (scan w always now users r).1) users
  unfolding scan
  scan-Has [] r = tt
  scan-Has ((uid, u) ∷ users) r =
      let r' = queue_notices w always now uid (due_notices u now) r in
      (
        All-map (due_notices u now) (λ n h. scan-keeps users r' uid n h)
            (notices-Have uid (due_notices u now) r),
        scan-Has users r',
      )

  notices-idle :
      (uid : ℕ) (ns : List NoticeKind) (queued : ℕ) (s : Store)
      → All (Has s uid) ns
      → queue_notices w always now uid ns (queued, s) ≡ (queued, s)
  unfolding queue_notices queue_notice
  notices-idle uid [] queued s h = refl
  notices-idle uid (n ∷ ns) queued s h = rw h.0 (notices-idle uid ns queued s h.1)

  scan-idle :
      (users : Dict User) (queued : ℕ) (s : Store)
      → All (Noticed s) users
      → scan w always now users (queued, s) ≡ (queued, s)
  unfolding scan
  scan-idle [] queued s h = refl
  scan-idle ((uid, u) ∷ users) queued s h =
      rw (notices-idle uid (due_notices u now) queued s h.0) (scan-idle users queued s h.1)

  notice-users :
      (uid : ℕ) (n : NoticeKind) (queued : ℕ) (s : Store)
      → (queue_notice w always now uid n (queued, s)).1.users ≡ s.users
  unfolding queue_notice enqueue_outbound
  notice-users uid n queued s =
      elim (Bool-cases (has_outbound_of_kind uid (kind_of n) s.outbound)) [
        | inl there ↦ rw (queue_notice, there) refl
        | inr absent ↦ rw (queue_notice, absent) refl
      ]

  notices-users :
      (uid : ℕ) (ns : List NoticeKind) (r : ℕ × Store)
      → (queue_notices w always now uid ns r).1.users ≡ r.1.users
  unfolding queue_notices
  notices-users uid [] r = refl
  notices-users uid (n ∷ ns) r =
      notices-users uid ns (queue_notice w always now uid n r) ∙ notice-users uid n r.0 r.1

  scan-users : (users : Dict User) (r : ℕ × Store) → (scan w always now users r).1.users ≡ r.1.users
  unfolding scan
  scan-users [] r = refl
  scan-users ((uid, u) ∷ users) r =
      let r' = queue_notices w always now uid (due_notices u now) r in
      scan-users users r' ∙ notices-users uid (due_notices u now) r

  trial_users-same : (s s' : Store) → s'.users ≡ s.users → list_trial_users s' ≡ list_trial_users s
  unfolding list_trial_users
  trial_users-same s s' same = rw same refl

  run-Noticed :
      (users : Dict User) (s : Store)
      → list_trial_users s ≡ users
      → All (Noticed s) users
      → run_trial_notices w always now s ≡ (length users, 0, s)
  unfolding run_trial_notices
  run-Noticed users s found noticed = rw (found, scan-idle users 0 s noticed) refl

  -- Where the database takes every write, a second run at the same time scans the users of the
  -- first, queues no notice and leaves the store as it is.
  pub second_run_idle :
      (s : Store)
      → let (scanned, queued, s₁) = run_trial_notices w always now s in
        run_trial_notices w always now s₁ ≡ (scanned, 0, s₁)
  unfolding run_trial_notices
  second_run_idle s =
      let users = list_trial_users s in
      run-Noticed users (scan w always now users (0, s)).1
        (trial_users-same s (scan w always now users (0, s)).1 (scan-users users (0, s)))
        (scan-Has users (0, s))
