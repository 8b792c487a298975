-- ===== src/Delivery/Devices/Owners.antt =====
-- A device belongs to one user at a time.
use personal_portfolio_analy.Prelude.{
  ℕ, ◌+◌, ◌≤◌, ◌≡◌, refl, sym, ◌∙◌, true, false, Option, none, some, List, [], ◌∷◌, ◌++◌, arith,
  All, any, keep, length, map, inl, inr, Bool-cases, String,
}
use personal_portfolio_analy.Store.{Text, PushDevice}
use personal_portfolio_analy.Delivery.Channels.{same_text}
use personal_portfolio_analy.Delivery.Channels.OptOut.{same_text_eq}
use personal_portfolio_analy.Delivery.Devices.{
  has_token, update_device, registered, new_device, upsert_push_device, is_active_of,
  disable_push_device, set_kinds, set_push_device_kinds,
}

-- How many rows hold a token.
abbrev pub held : Text → List PushDevice → ℕ
held token ds = length (keep (has_token token) ds)

-- No token stands in two rows.
abbrev pub IsSole : List PushDevice → Type 0
IsSole ds = (token : Text) → held token ds ≤ 1

module _ (token : Text) where
  none-held : (ds : List PushDevice) → any (has_token token) ds ≡ false → held token ds ≡ 0
  none-held [] h = omega arith
  none-held (d ∷ ds) h = elim (Bool-cases (has_token token d)) [
    | inl mine ↦ ground (arith, rw mine at h)
    | inr other ↦ rw other (none-held ds (rw other at h))
  ]

  held-append :
      (ds : List PushDevice) (d : PushDevice)
      → held token (ds ++ d ∷ []) ≡ held token ds + held token (d ∷ [])
  held-append [] d = omega arith
  held-append (e ∷ ds) d =
      let ih = held-append ds d in
      elim (Bool-cases (has_token token e)) [
        | inl mine ↦ rw mine (omega (arith, ih))
        | inr other ↦ rw other ih
      ]

  held-update_device :
      (t : Text) (f : PushDevice → PushDevice) (ds : List PushDevice)
      → ((d : PushDevice) → has_token token (f d) ≡ has_token token d)
      → held token (update_device t f ds) ≡ held token ds
  held-update_device t f [] same = refl
  held-update_device t f (d ∷ ds) same =
      let ih = held-update_device t f ds same in
      elim (Bool-cases (has_token t d)) [
        | inl hit ↦ elim (Bool-cases (has_token token d)) [
          | inl mine ↦ rw (hit, same d, mine) refl
          | inr other ↦ rw (hit, same d, other) refl
        ]
        | inr miss ↦ elim (Bool-cases (has_token token d)) [
          | inl mine ↦ rw (miss, mine) (omega (arith, ih))
          | inr other ↦ rw (miss, other) ih
        ]
      ]

  held-map :
      (f : PushDevice → PushDevice) (ds : List PushDevice)
      → ((d : PushDevice) → has_token token (f d) ≡ has_token token d)
      → held token (map f ds) ≡ held token ds
  held-map f [] same = refl
  held-map f (d ∷ ds) same =
      let ih = held-map f ds same in
      elim (Bool-cases (has_token token d)) [
        | inl mine ↦ rw (same d, mine) (omega (arith, ih))
        | inr other ↦ rw (same d, other) ih
      ]

  has_token-registered :
      (user_id : ℕ) (kinds : Option (List String)) (d : PushDevice)
      → has_token token (registered user_id kinds d) ≡ has_token token d
  has_token-registered user_id none d = refl
  has_token-registered user_id (some kinds) d = refl

  has_token-set_kinds :
      (user_id : ℕ) (kinds : List String) (d : PushDevice)
      → has_token token (set_kinds user_id kinds d) ≡ has_token token d
  has_token-set_kinds user_id kinds d = elim (Bool-cases (is_active_of user_id d)) [
    | inl active ↦ rw active refl
    | inr idle ↦ rw idle refl
  ]

upsert-IsSole :
    (user_id : ℕ) (t : Text) (kinds : Option (List String)) (ds : List PushDevice)
    → IsSole ds
    → IsSole (upsert_push_device user_id t kinds ds)
unfolding upsert_push_device
upsert-IsSole user_id t kinds ds sole token = elim (Bool-cases (any (has_token t) ds)) [
  | inl known ↦
      let same =
        held-update_device token t (registered user_id kinds) ds
          (has_token-registered token user_id kinds) in
      let before = sole token in rw (upsert_push_device, known) (omega (arith, same, before))
  | inr new ↦
      let split = held-append token ds (new_device user_id t kinds) in
      let before = sole token in
      rw (upsert_push_device, new)
        (elim (Bool-cases (same_text t token)) [
          | inl mine ↦
              let e = same_text_eq t token mine in
              let empty = none-held token ds (rw (← e) new) in
              let added = rw mine at split in omega (arith, added, empty)
          | inr other ↦ let added = rw other at split in omega (arith, added, before)
        ])
]

-- The operations on devices.
pub data Step : List PushDevice → List PushDevice → Type 0 where
  upserted :
      (user_id : ℕ) (token : Text) (kinds : Option (List String)) (ds : List PushDevice)
      → Step ds (upsert_push_device user_id token kinds ds)
  disabled :
      (token : Text) (now : ℕ) (ds : List PushDevice) → Step ds (disable_push_device token now ds).1
  set :
      (user_id : ℕ) (kinds : List String) (ds : List PushDevice)
      → Step ds (set_push_device_kinds user_id kinds ds).1

pub data Reach (ds : List PushDevice) : List PushDevice → Type 0 where
  here : Reach ds ds
  next : {es fs : List PushDevice} → Reach ds es → Step es fs → Reach ds fs

Step-IsSole : {ds es : List PushDevice} → Step ds es → IsSole ds → IsSole es
unfolding disable_push_device set_push_device_kinds
Step-IsSole (upserted user_id token kinds ds) sole = upsert-IsSole user_id token kinds ds sole
Step-IsSole (disabled t now ds) sole = λ token.
    let same =
      held-update_device token t (λ d. record d { disabled_at = some now }) ds (λ d. refl) in
    let before = sole token in omega (arith, same, before)
Step-IsSole (set user_id kinds ds) sole = λ token.
    let same =
      held-map token (set_kinds user_id kinds) ds (has_token-set_kinds token user_id kinds) in
    let before = sole token in omega (arith, same, before)

Reach-IsSole : {ds es : List PushDevice} → Reach ds es → IsSole ds → IsSole es
Reach-IsSole here sole = sole
Reach-IsSole (next r st) sole = Step-IsSole st (Reach-IsSole r sole)

module _ (token : Text) (user_id : ℕ) where
  -- A row with the token is the user's.
  abbrev pub IsOwned : PushDevice → Type 0
  IsOwned d = has_token token d ≡ true → d.user_id ≡ user_id

  none-IsOwned : (ds : List PushDevice) → held token ds ≤ 0 → All IsOwned ds
  none-IsOwned [] h = tt
  none-IsOwned (d ∷ ds) h = elim (Bool-cases (has_token token d)) [
    | inl mine ↦ let some_held = rw mine at h in ground (arith, some_held)
    | inr other ↦ ((λ mine. ground (arith, sym other ∙ mine)), none-IsOwned ds (rw other at h))
  ]

  registered-user_id :
      (kinds : Option (List String)) (d : PushDevice)
      → (registered user_id kinds d).user_id ≡ user_id
  registered-user_id none d = refl
  registered-user_id (some kinds) d = refl

  updated-IsOwned :
      (kinds : Option (List String)) (ds : List PushDevice)
      → held token ds ≤ 1
      → All IsOwned (update_device token (registered user_id kinds) ds)
  updated-IsOwned kinds [] h = tt
  updated-IsOwned kinds (d ∷ ds) h = elim (Bool-cases (has_token token d)) [
    | inl mine ↦
        let one = rw mine at h in
        rw mine ((λ _. registered-user_id kinds d), none-IsOwned ds (omega (arith, one)))
    | inr other ↦
        rw other
          ((λ mine. ground (arith, sym other ∙ mine)), updated-IsOwned kinds ds (rw other at h))
  ]

  appended-IsOwned :
      (kinds : Option (List String)) (ds : List PushDevice)
      → any (has_token token) ds ≡ false
      → All IsOwned (ds ++ new_device user_id token kinds ∷ [])
  appended-IsOwned kinds [] h = ((λ _. refl), tt)
  appended-IsOwned kinds (d ∷ ds) h = elim (Bool-cases (has_token token d)) [
    | inl mine ↦ ground (arith, rw mine at h)
    | inr other ↦
        ((λ mine. ground (arith, sym other ∙ mine)), appended-IsOwned kinds ds (rw other at h))
  ]

-- Whatever registrations, sign-outs and choices of kinds went before, from no devices on, once a
-- user registers a token every row with that token is that user's.
pub device_moves :
    (token : Text) (user_id : ℕ) (kinds : Option (List String)) (ds : List PushDevice)
    → Reach [] ds
    → All (IsOwned token user_id) (upsert_push_device user_id token kinds ds)
unfolding upsert_push_device
device_moves token user_id kinds ds r =
    let sole = Reach-IsSole r (λ t. omega arith) token in
    elim (Bool-cases (any (has_token token) ds)) [
      | inl known ↦ rw (upsert_push_device, known) (updated-IsOwned token user_id kinds ds sole)
      | inr new ↦ rw (upsert_push_device, new) (appended-IsOwned token user_id kinds ds new)
    ]
