-- ===== src/Snapshot/Freshness.antt =====
-- What the snapshots of app/perf/snapshot.py answer for a section, and how old it is.
use personal_portfolio_analy.Prelude.{
  ℕ, suc, ◌+◌, ◌<◌, ◌≡◌, refl, true, some, List, [], ◌∷◌, ◌++◌, arith, map, keep, any, inl, inr,
  Bool, Bool-cases, ◌==◌,
}
use personal_portfolio_analy.Prelude.Dict.{Dict, lookup, insert, pop, lookup-insert_self}
use personal_portfolio_analy.Prelude.Ordered.{trim, lookup-pop, lookup-trim}
use personal_portfolio_analy.Snapshot.{
  Section, Snapshots, World, Flight, Progress, fetched, section_ttl, is_stale, snap_of, get, evict,
  put, invalidate, written,
}

evict-trim :
    (n : ℕ) (snaps : Dict (Dict Section)) (seen : Dict ℕ) → (evict n snaps seen).0 ≡ trim n snaps
evict-trim n [] seen = refl
evict-trim n (e ∷ snaps) seen = let ih = evict-trim n snaps (pop e.0 seen) in ground (arith, ih)

put-found :
    (m user name d now : ℕ) (s : Snapshots)
    → s.max_users ≡ suc m
    → lookup user (put user name d now s).snaps
      ≡ some (insert name (record { data_of = d; built_at = now }) (snap_of user s))
unfolding put
put-found m user name d now s size =
    let snap = insert name (record { data_of = d; built_at = now }) (snap_of user s) in
    rw (size, evict-trim (suc m) (pop user s.snaps ++ (user, snap) ∷ []) s.last_seen)
      (lookup-trim m user snap (pop user s.snaps) (lookup-pop user s.snaps))

lookup-data :
    (name : ℕ) (c : Section) (snap : Dict Section)
    → lookup name snap ≡ some c
    → lookup name (map (λ e. (e.0, e.1.data_of)) snap) ≡ some c.data_of
lookup-data name c [] found = ground (arith, found)
lookup-data name c (e ∷ snap) found = elim (Bool-cases (e.0 == name)) [
  | inl same ↦ ground (arith, found)
  | inr differ ↦ rw differ (lookup-data name c snap (ground (arith, found)))
]

get-found :
    (is_open : Bool) (user now : ℕ) (s : Snapshots) (snap : Dict Section)
    → lookup user s.snaps ≡ some snap
    → (get is_open user now s).0
      ≡ (map (λ e. (e.0, e.1.data_of)) snap, map (λ e. e.0) (keep (is_stale is_open now) snap))
unfolding get
get-found is_open user now s snap found = rw (get, found) refl

abbrev pub asked : ℕ → List ℕ → Bool
asked name = any (λ n. n == name)

stale-asked :
    (is_open : Bool) (name now : ℕ) (c : Section) (snap : Dict Section)
    → lookup name snap ≡ some c
    → c.built_at + section_ttl is_open name < now
    → asked name (map (λ e. e.0) (keep (is_stale is_open now) snap)) ≡ true
unfolding section_ttl
stale-asked is_open name now c [] found old = ground (arith, found)
stale-asked is_open name now c (e ∷ snap) found old = elim (Bool-cases (e.0 == name)) [
  | inl same ↦
      let key : (e.0 ≡ name) = ground (arith, same) in
      let value : (e.1.built_at ≡ c.built_at) = ground (arith, found, same) in
      let stale : (is_stale is_open now e ≡ true) = rw (key, value) (ground (arith, old)) in
      rw (stale, same) refl
  | inr differ ↦
      let ih = stale-asked is_open name now c snap (ground (arith, found)) old in
      elim (Bool-cases (is_stale is_open now e)) [
        | inl stale ↦ rw (stale, differ) ih
        | inr fresh ↦ rw fresh ih
      ]
]

-- A section that was put is served with its data at any later time, where the store keeps a user
-- or more; once it is older than its TTL, its name is among those to refresh.
pub put_is_served :
    (m user name d now later : ℕ) (is_open : Bool) (s : Snapshots)
    → s.max_users ≡ suc m
    → let (sections, stale) = (get is_open user later (put user name d now s)).0 in
      (lookup name sections ≡ some d)
      × (now + section_ttl is_open name < later → asked name stale ≡ true)
put_is_served m user name d now later is_open s size =
    let section : Section = record { data_of = d; built_at = now } in
    let snap = insert name section (snap_of user s) in
    let there = lookup-insert_self name section (snap_of user s) in
    let got =
      get-found is_open user later (put user name d now s) snap
        (put-found m user name d now s size) in
    rw got (lookup-data name section snap there, stale-asked is_open name later section snap there)

-- The worlds of a rebuild that reads a section's value before it is changed.
module _ (user name new now : ℕ) (c : Snapshots) (source : ℕ → ℕ → ℕ) where
  abbrev flight_in : Progress → Flight
  flight_in p = record { user = user; name = name; progress = p }

  abbrev idle_world : World
  idle_world = record { cache = c; inflight = []; source = source }

  abbrev late_world : World
  late_world = record {
    cache = invalidate user (name ∷ []) c;
    inflight = flight_in (fetched (source user name)) ∷ [];
    source = written user name new source;
  }

  abbrev lost_world : World
  lost_world = record {
    cache = put user name (source user name) now (invalidate user (name ∷ []) c);
    inflight = [];
    source = written user name new source;
  }
