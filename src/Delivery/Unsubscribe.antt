-- ===== src/Delivery/Unsubscribe.antt =====
-- app/delivery/unsubscribe.py and `_handle_unsubscribe` of app/main.py: the signed links that opt a
-- channel out. The HMAC in hexadecimal digits, the text of a UUID and its reading are Python's.
pub mod Tokens
pub mod Links
use personal_portfolio_analy.Prelude.{
  ℕ, Bool, true, false, leb, not, ◌&&◌, ◌||◌, Option, none, some, List, [], ◌∷◌, ◌++◌, ◌==◌,
  if◌then◌else◌,
}
use personal_portfolio_analy.Store.{Store, Text, Channel}
use personal_portfolio_analy.Delivery.Channels.{same_text, find_row, set_opt_out}

pub record Library : Type 0 where
  pub hmac_sha256 : Text → Text → Text
  pub str_uuid : ℕ → Text
  pub uuid_of : Text → Option ℕ
  -- the value of a channel column that a text stands for
  pub channel_of : Text → Channel

pub record Settings : Type 0 where
  pub unsubscribe_secret : Text
  pub api_token : Text
  pub public_base_url : Text

abbrev pub is_empty : Text → Bool
is_empty [] = true
is_empty (_ ∷ _) = false

-- `unsubscribe_secret`
abbrev pub secret_of : Settings → Text
secret_of c = if is_empty c.unsubscribe_secret then c.api_token else c.unsubscribe_secret

abbrev pub colon : ℕ
colon = 58

-- `f"{user_id}:{channel}"`
abbrev pub payload : Text → Text → Text
payload user channel = user ++ colon ∷ channel

unfoldable pub sign_token : Library → Text → ℕ → Text → Text
sign_token lib secret user_id channel =
    let signed = payload (lib.str_uuid user_id) channel in
    payload signed (lib.hmac_sha256 secret signed)

abbrev extend : ℕ → List Text → List Text
extend c [] = (c ∷ []) ∷ []
extend c (part ∷ parts) = (c ∷ part) ∷ parts

-- `token.split(":")`
abbrev pub split : ℕ → Text → List Text
split sep [] = [] ∷ []
split sep (c ∷ t) = let rest = split sep t in if c == sep then [] ∷ rest else extend c rest

-- The three parts of a token, if there are three.
abbrev pub three : List Text → Option (Text × Text × Text)
three (user ∷ channel ∷ provided ∷ []) = some (user, channel, provided)
three _ = none

-- How the verification ends; `compare_digest` raises where a text is not ASCII.
pub data Checked : Type 0 where
  accepted : ℕ → Text → Checked
  rejected : Checked
  raised : Checked

abbrev pub is_ascii : Text → Bool
is_ascii [] = true
is_ascii (c ∷ t) = leb c 127 && is_ascii t

abbrev pub read_user : Option ℕ → Text → Checked
read_user none channel = rejected
read_user (some user_id) channel = accepted user_id channel

unfoldable pub verify_token : Library → Text → Text → Checked
unfolding same_text
verify_token lib secret token =
    if is_empty secret || is_empty token then rejected else elim (three (split colon token)) [
      | none ↦ rejected
      | some (user, channel, provided) ↦
          if not (is_ascii provided)
          then raised
          else if not (same_text (lib.hmac_sha256 secret (payload user channel)) provided)
          then rejected
          else read_user (lib.uuid_of user) channel
    ]

-- `rstrip("/")`
abbrev slash : ℕ
slash = 47

abbrev pub rstrip : Text → Text
rstrip [] = []
rstrip (c ∷ t) = let rest = rstrip t in if c == slash && is_empty rest then [] else c ∷ rest

-- "/unsubscribe?token="
abbrev pub query : Text
query =
    47 ∷ 117 ∷ 110 ∷ 115 ∷ 117 ∷ 98 ∷ 115 ∷ 99 ∷ 114 ∷ 105 ∷ 98 ∷ 101 ∷ 63 ∷ 116 ∷ 111 ∷ 107 ∷ 101
    ∷ 110 ∷ 61 ∷ []

-- `unsubscribe_url`, where `quote` is urllib's
unfoldable pub unsubscribe_url : Library → (Text → Text) → Settings → ℕ → Text → Option Text
unfolding sign_token
unsubscribe_url lib quote c user_id channel =
    if is_empty (secret_of c) || is_empty (rstrip c.public_base_url)
    then none
    else some
        (rstrip c.public_base_url ++ query ++ quote (sign_token lib (secret_of c) user_id channel))

-- The row of a user and a channel, and every row of the channel with its destination.
abbrev pub opted_out : ℕ → Channel → ℕ → Store → Store
opted_out user_id channel now s = elim (find_row user_id channel s.channels) [
  | none ↦ s
  | some row ↦ record s { channels = (set_opt_out channel row.destination true now s.channels).0 }
]

pub data Answer : Type 0 where
  unsubscribed invalid_link server_error : Answer

-- `_handle_unsubscribe`
unfoldable pub handle_unsubscribe : Library → Settings → Text → ℕ → Store → Answer × Store
unfolding verify_token find_row set_opt_out
handle_unsubscribe lib c token now s = elim (verify_token lib (secret_of c) token) [
  | rejected ↦ (invalid_link, s)
  | raised ↦ (server_error, s)
  | accepted user_id channel ↦ (unsubscribed, opted_out user_id (lib.channel_of channel) now s)
]
