-- ===== src/Snapshot.antt =====
-- `SnapshotStore` of app/perf/snapshot.py: the dashboard's sections, kept for each user, served when
-- stale and rebuilt in the background. A section is known by its number in `SECTION_NAMES`, its
-- data is a number. Between two steps of a task other tasks run: a rebuild reads what its builder
-- gives at one step and stores it at a later one.
pub mod Flights
pub mod Freshness
use personal_portfolio_analy.Prelude.{
  ℕ, zero, suc, ◌+◌, ◌-◌, ◌*◌, Bool, true, false, ◌&&◌, ◌||◌, Option, none, some, List, [], ◌∷◌,
  ◌++◌, map, length, keep, any, not, leb, ltb, ◌==◌, if◌then◌else◌,
}
use personal_portfolio_analy.Prelude.Dict.{Dict, lookup, insert, pop}
use personal_portfolio_analy.Store.{seconds}

-- The place of a name in `SECTION_NAMES`.
abbrev pub portfolio : ℕ
portfolio = 1

abbrev pub status : ℕ
status = 5

abbrev pub notifications : ℕ
notifications = 6

-- `market_hours_now`, at a weekday from Monday, 0, an hour and a minute of New York.
unfoldable pub market_hours : ℕ → ℕ → ℕ → Bool
market_hours weekday hour minute =
    if leb 5 weekday then false else leb 570 (hour * 60 + minute) && leb (hour * 60 + minute) 960

-- `section_ttl`, while the market is open or closed
unfoldable pub section_ttl : Bool → ℕ → ℕ
section_ttl is_open name =
    if name == portfolio
    then if is_open then seconds 60 else seconds 600
    else if name == status || name == notifications
    then seconds 900
    else seconds 300

-- `_Section`
pub record Section : Type 0 where
  pub data_of : ℕ
  pub built_at : ℕ

pub record Snapshots : Type 0 where
  pub snaps : Dict (Dict Section)
  pub last_seen : Dict ℕ
  pub max_users : ℕ

unfoldable pub touch : ℕ → ℕ → Snapshots → Snapshots
touch user now s = record s { last_seen = insert user now s.last_seen }

unfoldable pub active_users : ℕ → ℕ → Snapshots → List ℕ
active_users within now s = map (λ e. e.0) (keep (λ e. leb (now - within) e.1) s.last_seen)

abbrev pub is_stale : Bool → ℕ → ℕ × Section → Bool
is_stale is_open now e = ltb (e.1.built_at + section_ttl is_open e.0) now

abbrev pub snap_of : ℕ → Snapshots → Dict Section
snap_of user s = elim (lookup user s.snaps) [ none ↦ [] | some snap ↦ snap ]

-- `get`: the sections there are, and the names of the stale ones.
unfoldable pub get : Bool → ℕ → ℕ → Snapshots → (Dict ℕ × List ℕ) × Snapshots
unfolding section_ttl
get is_open user now s = elim (lookup user s.snaps) [
  | none ↦ (([], []), s)
  | some snap ↦ (
    (map (λ e. (e.0, e.1.data_of)) snap, map (λ e. e.0) (keep (is_stale is_open now) snap)),
    record s { snaps = pop user s.snaps ++ (user, snap) ∷ [] },
  )
]

-- `while len(snaps) > max: evict the oldest`
abbrev pub evict : ℕ → Dict (Dict Section) → Dict ℕ → Dict (Dict Section) × Dict ℕ
evict max [] seen = ([], seen)
evict max (e ∷ snaps) seen =
    let rest = evict max snaps (pop e.0 seen) in
    if leb (length (e ∷ snaps)) max then (e ∷ snaps, seen) else rest

unfoldable pub put : ℕ → ℕ → ℕ → ℕ → Snapshots → Snapshots
put user name d now s =
    let snap = insert name (record { data_of = d; built_at = now }) (snap_of user s) in
    let kept = evict s.max_users (pop user s.snaps ++ (user, snap) ∷ []) s.last_seen in
    record s { snaps = kept.0; last_seen = kept.1 }

abbrev pub drop_names : List ℕ → Dict Section → Dict Section
drop_names [] snap = snap
drop_names (n ∷ ns) snap = drop_names ns (pop n snap)

unfoldable pub invalidate : ℕ → List ℕ → Snapshots → Snapshots
invalidate user names s = elim (lookup user s.snaps) [
  | none ↦ s
  | some snap ↦ elim names [
    | [] ↦ record s { snaps = pop user s.snaps }
    | n ∷ ns ↦ record s { snaps = insert user (drop_names (n ∷ ns) snap) s.snaps }
  ]
]

unfoldable pub clear : Snapshots → Snapshots
clear s = record s { snaps = [] }

-- How far a rebuild is: its builder has not read, has read a value, or has raised.
pub data Progress : Type 0 where
  waiting : Progress
  fetched : ℕ → Progress
  failed : Progress

-- A task of `_inflight`, under its key.
pub record Flight : Type 0 where
  pub user : ℕ
  pub name : ℕ
  pub progress : Progress

-- The process: the snapshots, the rebuilds in flight, and what the builders read from.
pub record World : Type 0 where
  pub cache : Snapshots
  pub inflight : List Flight
  pub source : ℕ → ℕ → ℕ

abbrev pub is_for : ℕ → ℕ → Flight → Bool
is_for user name f = f.user == user && f.name == name

-- `refresh`: a rebuild for each name that has none in flight.
unfoldable pub refresh : ℕ → List ℕ → List Flight → List Flight
refresh user [] flights = flights
refresh user (n ∷ ns) flights = refresh user ns (
    if any (is_for user n) flights
    then flights
    else flights ++ record { user = user; name = n; progress = waiting } ∷ [])

abbrev pub set_progress : ℕ → ℕ → Progress → List Flight → List Flight
set_progress user name p = map (λ f. if is_for user name f then record f { progress = p } else f)

abbrev pub land : ℕ → ℕ → List Flight → List Flight
land user name = keep (λ f. not (is_for user name f))

abbrev pub progress_of : ℕ → ℕ → List Flight → Option Progress
progress_of user name [] = none
progress_of user name (f ∷ fs) =
    if is_for user name f then some f.progress else progress_of user name fs

-- `_rebuild` from its builder's end on, with the done callback.
unfoldable pub finish : ℕ → ℕ → ℕ → World → World
unfolding put
finish user name now w = elim (progress_of user name w.inflight) [
  | none ↦ w
  | some waiting ↦ w
  | some failed ↦ record w { inflight = land user name w.inflight }
  | some (fetched d) ↦ record w {
    cache = put user name d now w.cache;
    inflight = land user name w.inflight;
  }
]

abbrev pub written : ℕ → ℕ → ℕ → (ℕ → ℕ → ℕ) → ℕ → ℕ → ℕ
written user name v source u n = if u == user && n == name then v else source u n

-- A step of the process: of a request, of a rebuild, or a write of the data behind a section.
pub data Step : World → World → Type 0 where
  served :
      (is_open : Bool) (user now : ℕ) (w : World)
      → Step w (record w { cache = (get is_open user now w.cache).1 })
  stored :
      (user name d now : ℕ) (w : World) → Step w (record w { cache = put user name d now w.cache })
  dropped :
      (user : ℕ) (names : List ℕ) (w : World)
      → Step w (record w { cache = invalidate user names w.cache })
  cleared : (w : World) → Step w (record w { cache = clear w.cache })
  refreshed :
      (user : ℕ) (names : List ℕ) (w : World)
      → Step w (record w { inflight = refresh user names w.inflight })
  builder_read :
      (user name : ℕ) (w : World)
      → Step w
          (record w { inflight = set_progress user name (fetched (w.source user name)) w.inflight })
  builder_raised :
      (user name : ℕ) (w : World)
      → Step w (record w { inflight = set_progress user name failed w.inflight })
  finished : (user name now : ℕ) (w : World) → Step w (finish user name now w)
  changed :
      (user name v : ℕ) (w : World) → Step w (record w { source = written user name v w.source })

pub data Reach (w : World) : World → Type 0 where
  here : Reach w w
  next : {u v : World} → Reach w u → Step u v → Reach w v
