-- ===== src/Delivery/Channels.antt =====
-- The channels of app/delivery/channels.py and the rows of `notification_channels`
-- (app/db/repo.py).
pub mod OptOut
use personal_portfolio_analy.Prelude.{
  ℕ, suc, Bool, true, false, ◌&&◌, ◌||◌, not, Option, none, some, List, [], ◌∷◌, ◌++◌, length, leb,
  ◌==◌, is_some, if◌then◌else◌,
}
use personal_portfolio_analy.Prelude.Dict.{lookup, insert}
use personal_portfolio_analy.Store.{
  Store, Text, Channel, sms, email, discord, push, other, NotificationChannel,
}

unfoldable pub same_channel : Channel → Channel → Bool
same_channel sms sms = true
same_channel email email = true
same_channel discord discord = true
same_channel push push = true
same_channel (other m) (other n) = m == n
same_channel _ _ = false

-- `CHANNELS`, which leaves push out.
unfoldable pub in_channels : Channel → Bool
in_channels sms = true
in_channels email = true
in_channels discord = true
in_channels push = false
in_channels (other _) = false

unfoldable pub same_text : Text → Text → Bool
same_text [] [] = true
same_text (c ∷ s) (d ∷ t) = c == d && same_text s t
same_text _ _ = false

-- `$` matches at the end, and before a line break at the end.
unfoldable pub chomp : Text → Text
chomp [] = []
chomp (c ∷ []) = if c == 10 then [] else c ∷ []
chomp (c ∷ d ∷ t) = c ∷ chomp (d ∷ t)

unfoldable pub every : (ℕ → Bool) → Text → Bool
every p [] = true
every p (c ∷ t) = p c && every p t

-- `_E164_RE`, where `is_digit` is the class \d, the decimal digits of Unicode.
unfoldable pub is_e164 : (ℕ → Bool) → Text → Bool
unfolding every
is_e164 is_digit (plus ∷ d ∷ t) =
    plus == b'+'
    && leb b'1' d
    && leb d b'9'
    && every is_digit t
    && leb 7 (length t)
    && leb (length t) 14
is_e164 is_digit _ = false

-- The text before the first "@" and the text behind it.
unfoldable pub split_at_sign : Text → Option (Text × Text)
split_at_sign [] = none
split_at_sign (c ∷ t) =
    let rest : Option (Text × Text) = elim (split_at_sign t) [
      | none ↦ none
      | some (l, d) ↦ some (c ∷ l, d)
    ] in
    if c == b'@' then some ([], t) else rest

-- A dot with something behind it.
unfoldable pub dot_before_last : Text → Bool
dot_before_last [] = false
dot_before_last (c ∷ []) = false
dot_before_last (c ∷ d ∷ t) = c == b'.' || dot_before_last (d ∷ t)

-- The class [^@\s], where `is_space` is the class \s.
abbrev pub is_plain : (ℕ → Bool) → ℕ → Bool
is_plain is_space c = not (c == b'@' || is_space c)

unfoldable pub is_domain : (ℕ → Bool) → Text → Bool
unfolding every dot_before_last
is_domain is_space [] = false
is_domain is_space (c ∷ t) = every (is_plain is_space) (c ∷ t) && dot_before_last t

abbrev is_empty : Text → Bool
is_empty [] = true
is_empty (_ ∷ _) = false

-- `_EMAIL_RE`
unfoldable pub is_email : (ℕ → Bool) → Text → Bool
unfolding split_at_sign is_domain every
is_email is_space t = elim (split_at_sign t) [
  | none ↦ false
  | some (l, d) ↦ not (is_empty l) && every (is_plain is_space) l && is_domain is_space d
]

unfoldable pub starts_with : Text → Text → Bool
starts_with [] t = true
starts_with (c ∷ p) [] = false
starts_with (c ∷ p) (d ∷ t) = c == d && starts_with p t

-- "https://discord.com/api/webhooks/"
abbrev pub discord_webhook_prefix : Text
discord_webhook_prefix =
    104 ∷ 116 ∷ 116 ∷ 112 ∷ 115 ∷ 58 ∷ 47 ∷ 47 ∷ 100 ∷ 105 ∷ 115 ∷ 99 ∷ 111 ∷ 114 ∷ 100 ∷ 46 ∷ 99
    ∷ 111 ∷ 109 ∷ 47 ∷ 97 ∷ 112 ∷ 105 ∷ 47 ∷ 119 ∷ 101 ∷ 98 ∷ 104 ∷ 111 ∷ 111 ∷ 107 ∷ 115 ∷ 47 ∷ []

pub data Problem : Type 0 where
  not_e164 not_an_email not_a_discord_webhook unknown_channel : Problem

abbrev problem_unless : Bool → Problem → Option Problem
problem_unless true p = none
problem_unless false p = some p

-- The two classes of the regular expressions.
pub record CharClasses : Type 0 where
  pub is_digit : ℕ → Bool
  pub is_space : ℕ → Bool

unfoldable pub validate_destination : CharClasses → Channel → Text → Option Problem
unfolding is_e164 is_email chomp starts_with
validate_destination c sms t = problem_unless (is_e164 c.is_digit (chomp t)) not_e164
validate_destination c email t = problem_unless (is_email c.is_space (chomp t)) not_an_email
validate_destination c discord t =
    problem_unless (starts_with discord_webhook_prefix t) not_a_discord_webhook
validate_destination c push t = some unknown_channel
validate_destination c (other _) t = some unknown_channel

abbrev is_row : ℕ → Channel → NotificationChannel → Bool
is_row uid c r = r.user_id == uid && same_channel r.channel c

-- `Repo.get_notification_channel`
unfoldable pub find_row : ℕ → Channel → List NotificationChannel → Option NotificationChannel
unfolding same_channel
find_row uid c [] = none
find_row uid c (r ∷ rs) = if is_row uid c r then some r else find_row uid c rs

-- A write of the row of a user and a channel, if it is there.
unfoldable pub update_row :
    ℕ
    → Channel
    → (NotificationChannel → NotificationChannel)
    → List NotificationChannel
    → List NotificationChannel
unfolding same_channel
update_row uid c f [] = []
update_row uid c f (r ∷ rs) = if is_row uid c r then f r ∷ rs else r ∷ update_row uid c f rs

-- The row is verified and not opted out.
abbrev pub is_usable : NotificationChannel → Bool
is_usable r = is_some r.verified_at && not (is_some r.opted_out_at)

abbrev with_consent : Bool → ℕ → NotificationChannel → NotificationChannel
with_consent consent now r = if consent then record r { consent_at = some now } else r

abbrev register_again : Text → Bool → ℕ → NotificationChannel → NotificationChannel
register_again destination consent now r = with_consent consent now (
    if same_text r.destination destination
    then r
    else record r { destination = destination; verified_at = none; opted_out_at = none })

-- `Repo.upsert_notification_channel`
unfoldable pub upsert_notification_channel : ℕ → Channel → Text → Bool → ℕ → Store → Store
unfolding find_row update_row same_text
upsert_notification_channel uid c destination consent now s = elim (find_row uid c s.channels) [
  | some _ ↦ record s {
    channels = update_row uid c (register_again destination consent now) s.channels;
  }
  | none ↦ record s {
    channels =
        s.channels
        ++ with_consent consent now (record {
          user_id = uid;
          channel = c;
          destination = destination;
          verified_at = none;
          opted_out_at = none;
          consent_at = none;
        })
          ∷ [];
  }
]

-- `Repo.mark_channel_verified`
unfoldable pub mark_channel_verified : ℕ → Channel → ℕ → Store → Bool × Store
unfolding find_row update_row
mark_channel_verified uid c now s = elim (find_row uid c s.channels) [
  | none ↦ (false, s)
  | some _ ↦ (
    true,
    record s {
      channels =
          update_row uid c (λ r. record r { verified_at = some now; opted_out_at = none })
            s.channels;
    },
  )
]

abbrev usable_row : ℕ → Channel → List NotificationChannel → Bool
usable_row uid c rs = elim (find_row uid c rs) [ none ↦ false | some r ↦ is_usable r ]

abbrev allowed : ℕ → Option Channel → List NotificationChannel → Bool
allowed uid none rs = true
allowed uid (some c) rs = usable_row uid c rs

-- `Repo.set_preferred_channel`
unfoldable pub set_preferred_channel : ℕ → Option Channel → Store → Bool × Store
unfolding find_row
set_preferred_channel uid c s = elim (lookup uid s.users) [
  | none ↦ (false, s)
  | some u ↦
      if allowed uid c s.channels
      then (true, record s { users = insert uid (record u { preferred_channel = c }) s.users })
      else (false, s)
]

-- `Repo.set_opt_out_by_destination`: the rows, and how many were written.
unfoldable pub set_opt_out :
    Channel → Text → Bool → ℕ → List NotificationChannel → List NotificationChannel × ℕ
unfolding same_channel same_text
set_opt_out c destination out now [] = ([], 0)
set_opt_out c destination out now (r ∷ rs) =
    let (rest, n) = set_opt_out c destination out now rs in
    if same_channel r.channel c && same_text r.destination destination
    then (record r { opted_out_at = if out then some now else none } ∷ rest, suc n)
    else (r ∷ rest, n)
