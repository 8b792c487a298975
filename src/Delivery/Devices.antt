-- ===== src/Delivery/Devices.antt =====
-- The rows of `push_devices` (app/db/repo.py): phones that take notifications. The platform and the
-- time last seen are not read by any modelled part.
pub mod Owners
use personal_portfolio_analy.Prelude.{
  ℕ, suc, Bool, true, false, not, ◌&&◌, Option, none, some, List, [], ◌∷◌, ◌++◌, any, keep, length,
  map, is_some, ◌==◌, str_eq, String, if◌then◌else◌,
}
use personal_portfolio_analy.Store.{Store, Text, PushDevice}
use personal_portfolio_analy.Delivery.Channels.{same_text}

abbrev pub default_kinds : List String
default_kinds = "digest" ∷ "alert" ∷ "deep_dive" ∷ []

-- `kinds or [...]`
abbrev kinds_or_default : Option (List String) → List String
kinds_or_default none = default_kinds
kinds_or_default (some []) = default_kinds
kinds_or_default (some (k ∷ ks)) = k ∷ ks

abbrev pub has_token : Text → PushDevice → Bool
has_token token d = same_text d.expo_token token

abbrev pub with_kinds : Option (List String) → PushDevice → PushDevice
with_kinds none d = d
with_kinds (some kinds) d = record d { kinds = kinds }

-- A write of the row of a token, if it is there.
abbrev pub update_device : Text → (PushDevice → PushDevice) → List PushDevice → List PushDevice
update_device token f [] = []
update_device token f (d ∷ ds) =
    let rest = update_device token f ds in if has_token token d then f d ∷ ds else d ∷ rest

abbrev pub registered : ℕ → Option (List String) → PushDevice → PushDevice
registered user_id kinds d = with_kinds kinds (record d { user_id = user_id; disabled_at = none })

abbrev pub new_device : ℕ → Text → Option (List String) → PushDevice
new_device user_id token kinds = record {
  user_id = user_id;
  expo_token = token;
  kinds = kinds_or_default kinds;
  disabled_at = none;
}

-- `Repo.upsert_push_device`
unfoldable pub upsert_push_device :
    ℕ → Text → Option (List String) → List PushDevice → List PushDevice
unfolding same_text
upsert_push_device user_id token kinds ds =
    if any (has_token token) ds
    then update_device token (registered user_id kinds) ds
    else ds ++ new_device user_id token kinds ∷ []

abbrev pub is_active_of : ℕ → PushDevice → Bool
is_active_of user_id d = d.user_id == user_id && not (is_some d.disabled_at)

abbrev takes : Option String → PushDevice → Bool
takes none d = true
takes (some kind) d = any (λ k. str_eq k kind) d.kinds

-- `Repo.list_push_devices`
unfoldable pub list_push_devices : ℕ → Option String → List PushDevice → List PushDevice
list_push_devices user_id kind ds = keep (takes kind) (keep (is_active_of user_id) ds)

-- `Repo.disable_push_device`
unfoldable pub disable_push_device : Text → ℕ → List PushDevice → Bool × List PushDevice
unfolding same_text
disable_push_device token now ds =
    (any (has_token token) ds, update_device token (λ d. record d { disabled_at = some now }) ds)

abbrev pub set_kinds : ℕ → List String → PushDevice → PushDevice
set_kinds user_id kinds d = if is_active_of user_id d then record d { kinds = kinds } else d

-- `Repo.set_push_device_kinds`
unfoldable pub set_push_device_kinds : ℕ → List String → List PushDevice → ℕ × List PushDevice
set_push_device_kinds user_id kinds ds =
    (length (keep (is_active_of user_id) ds), map (set_kinds user_id kinds) ds)
