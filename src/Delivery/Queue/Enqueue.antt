-- ===== src/Delivery/Queue/Enqueue.antt =====
-- Where a queued message may go.
use personal_portfolio_analy.Prelude.{
  ℕ, suc, ◌≡◌, ◌≢◌, refl, sym, ◌∙◌, Bool, true, false, Option, some, List, [], ◌∷◌, ◌++◌, arith,
  ◌⊎◌, inl, inr, Bool-cases, ◌==◌, All, length, ◌≤◌, length-take-le, append_assoc,
}
use personal_portfolio_analy.Prelude.Dict.{lookup}
use personal_portfolio_analy.Store.{
  Store, User, Text, Channel, sms, email, push, NotificationChannel, PushDevice, OutboundMessage,
  owner, pro,
}
use personal_portfolio_analy.Plans.{effective_plan}
use personal_portfolio_analy.Delivery.Channels.{find_row, is_usable}
use personal_portfolio_analy.Delivery.Queue.{
  Draft, Route, skip, deliver, route, route_row, email_fallback, preferred_of, enqueue_outbound,
  fan_out, takes_push, routed, pushes, is_sms, or_text, or_owner,
}

-- What a route to a destination rests on.
pub record IsPermitted (uid now : ℕ) (s : Store) (c : Channel) (t : Text) : Type 0 where
  pub row : NotificationChannel
  pub registered : find_row uid c s.channels ≡ some row
  pub usable : is_usable row ≡ true
  pub to_it : row.destination ≡ t
  pub chosen :
      (preferred_of (lookup uid s.users) ≡ some c)
      ⊎ ((preferred_of (lookup uid s.users) ≡ some sms) × (c ≡ email))
  pub sms_is_pro : (c ≢ sms) ⊎ ((uid ≡ owner) ⊎ (effective_plan (lookup uid s.users) now ≡ pro))

-- A row that was found gives its own destination, or that of the email row.
direct :
    (uid : ℕ) (user : Option User) (p : Channel) (row : NotificationChannel) (now : ℕ)
    (rows : List NotificationChannel) (c : Channel) (t : Text)
    → route_row uid user p row now rows ≡ deliver c t
    → ((p ≡ c)
        × (is_usable row ≡ true)
        × (row.destination ≡ t)
        × ((is_sms c ≡ false) ⊎ ((uid == owner) ≡ true) ⊎ (effective_plan user now ≡ pro)))
      ⊎ ((p ≡ sms) × (email_fallback uid rows ≡ deliver c t))
unfolding route_row
direct uid user sms row now rows c t e = ground arith
direct uid user p row now rows c t e = ground arith

fallback :
    (uid : ℕ) (rows : List NotificationChannel) (c : Channel) (t : Text)
    → email_fallback uid rows ≡ deliver c t
    → (r : NotificationChannel) × (find_row uid email rows ≡ some r)
      × (c ≡ email)
      × (is_usable r ≡ true)
      × (r.destination ≡ t)
unfolding email_fallback
fallback uid rows c t e = ground arith

row-found :
    (uid now : ℕ) (s : Store) (p : Channel) (row : NotificationChannel)
    → preferred_of (lookup uid s.users) ≡ some p
    → find_row uid p s.channels ≡ some row
    → route uid now s ≡ route_row uid (lookup uid s.users) p row now s.channels
unfolding route
row-found uid now s p row e f = rw (e, f, route)

route-row :
    (uid now : ℕ) (s : Store) (c : Channel) (t : Text)
    → route uid now s ≡ deliver c t
    → (p : Channel) × (row : NotificationChannel) × (preferred_of (lookup uid s.users) ≡ some p)
      × (find_row uid p s.channels ≡ some row)
unfolding route
route-row uid now s c t e = ground arith

-- A message is routed to a destination only if the user has registered it, verified it and not
-- opted out of it, and only on the preferred channel, or by email where SMS is preferred; by SMS
-- only for the owner and for users on Pro at that moment.
pub route-IsPermitted :
    (uid now : ℕ) (s : Store) (c : Channel) (t : Text)
    → route uid now s ≡ deliver c t
    → IsPermitted uid now s c t
route-IsPermitted uid now s c t e =
    let (p, row, preferred, found) = route-row uid now s c t e in
    let user = lookup uid s.users in
    let there = sym (row-found uid now s p row preferred found) ∙ e in
    elim (direct uid user p row now s.channels c t there) [
      | inl (same, usable, to_it, sms_ok) ↦ record {
        row = row;
        registered = rw (← same) found;
        usable = usable;
        to_it = to_it;
        chosen = inl (rw (← same) preferred);
        sms_is_pro = ground arith;
      }
      | inr (is_it, falls) ↦
          let (r, email_found, is_email, usable, to_it) = fallback uid s.channels c t falls in
          record {
            row = r;
            registered = rw is_email email_found;
            usable = usable;
            to_it = to_it;
            chosen = inr (rw (← is_it) preferred, is_email);
            sms_is_pro = inl (ground arith);
          }
    ]

-- A pointer for a device: of the user and of the message's kind, and at most 150 characters long.
abbrev pub IsPush : Draft → ℕ → OutboundMessage → Type 0
IsPush d uid m =
    (m.channel ≡ some push) × (m.user_id ≡ uid) × (m.kind ≡ d.kind) × (length m.body ≤ 150)

fan_out-IsPush :
    (id uid : ℕ) (d : Draft) (now : ℕ) (devices : List PushDevice)
    → All (IsPush d uid) (fan_out id uid d now devices).0
unfolding fan_out
fan_out-IsPush id uid d now [] = tt
fan_out-IsPush id uid d now (device ∷ devices) = elim (Bool-cases (takes_push uid d.kind device)) [
  | inl takes ↦ rw takes (
    (refl, refl, refl, length-take-le 150 (or_text d.push_body (or_text d.sms_body d.body))),
    fan_out-IsPush (suc id) uid d now devices,
  )
  | inr passes ↦ rw passes (fan_out-IsPush id uid d now devices)
]

pushes-IsPush :
    (wanted : Bool) (id uid : ℕ) (d : Draft) (now : ℕ) (devices : List PushDevice)
    → All (IsPush d uid) (pushes wanted id uid d now devices).0
pushes-IsPush true id uid d now devices = fan_out-IsPush id uid d now devices
pushes-IsPush false id uid d now devices = tt

-- The row for the preferred channel does not depend on whether devices are asked for.
routed-quiet :
    (id uid : ℕ) (d : Draft) (now : ℕ) (r : Route)
    → routed id uid (record d { push = false }) now r ≡ routed id uid d now r
unfolding routed
routed-quiet id uid d now (skip e) = refl
routed-quiet id uid d now (deliver sms t) = refl
routed-quiet id uid d now (deliver _ t) = refl

-- The fan-out to devices only adds: with `push` the queue is what it would be without, the row for
-- the preferred channel included, and behind it rows that are pointers for devices.
pub enqueue_additive :
    (d : Draft) (now : ℕ) (s : Store)
    → let quiet : Draft = record d { push = false } in
      (rows : List OutboundMessage) × ((enqueue_outbound d now s).1.outbound
        ≡ (enqueue_outbound quiet now s).1.outbound ++ rows)
      × All (IsPush d (or_owner d.user_id)) rows
      × ((enqueue_outbound d now s).0 ≡ (enqueue_outbound quiet now s).0)
unfolding enqueue_outbound
enqueue_additive d now s =
    let uid = or_owner d.user_id in
    let row = routed s.next_id uid d now (route uid now s) in
    let rows = (pushes d.push (suc s.next_id) uid d now s.devices).0 in
    (
      rows,
      rw (routed-quiet s.next_id uid d now (route uid now s), append_assoc) refl,
      pushes-IsPush d.push (suc s.next_id) uid d now s.devices,
      refl,
    )
