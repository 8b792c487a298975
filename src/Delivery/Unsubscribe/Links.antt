-- ===== src/Delivery/Unsubscribe/Links.antt =====
-- What a link of app/delivery/unsubscribe.py does.
use personal_portfolio_analy.Prelude.{ℕ, ◌≡◌, refl, true, false, some, ◌⊎◌, inl, inr}
use personal_portfolio_analy.Store.{Store, Text, NotificationChannel}
use personal_portfolio_analy.Delivery.Channels.{find_row}
use personal_portfolio_analy.Delivery.Channels.OptOut.{
  same_text_refl, set_opt_out-map, find_row-mark,
}
use personal_portfolio_analy.Delivery.Unsubscribe.{
  Library, Settings, is_empty, secret_of, payload, sign_token, verify_token, handle_unsubscribe,
  opted_out, is_ascii, Checked, accepted, rejected, raised, unsubscribed,
}
use personal_portfolio_analy.Delivery.Unsubscribe.Tokens.{
  Bare, IsSigned, verify_token-sign_token, accepted-IsSigned,
}

Checked-cases :
    (o : Checked)
    → ((o ≡ rejected) ⊎ (o ≡ raised))
      ⊎ ((user_id : ℕ) × (channel : Text) × (o ≡ accepted user_id channel))
Checked-cases rejected = inl (inl refl)
Checked-cases raised = inl (inr refl)
Checked-cases (accepted user_id channel) = inr (user_id, channel, refl)

module _ (lib : Library) (c : Settings) (now : ℕ) (s : Store) where
  accepted-opts-out :
      (token : Text) (user_id : ℕ) (channel : Text) (row : NotificationChannel)
      → verify_token lib (secret_of c) token ≡ accepted user_id channel
      → find_row user_id (lib.channel_of channel) s.channels ≡ some row
      → let (answer, s') = handle_unsubscribe lib c token now s in
        (answer ≡ unsubscribed)
        × (find_row user_id (lib.channel_of channel) s'.channels
            ≡ some (record row { opted_out_at = some now }))
  unfolding handle_unsubscribe
  accepted-opts-out token user_id channel row good found =
      let chan = lib.channel_of channel in
      let written = set_opt_out-map chan row.destination true now s.channels in
      let held =
        find_row-mark chan row.destination user_id true now s.channels row found
          (same_text_refl row.destination) in
      rw (handle_unsubscribe, good, opted_out, found, written) (refl, held)

  -- The link that is minted for a user and a channel, once it is followed, leaves the user's
  -- registration of that channel opted out from then on, if it is there; the texts have no colon,
  -- the signature is ASCII, and the id is read back.
  pub minted_link_opts_out :
      (user_id : ℕ) (channel : Text) (row : NotificationChannel)
      → is_empty (secret_of c) ≡ false
      → Bare (lib.str_uuid user_id)
      → Bare channel
      → Bare (lib.hmac_sha256 (secret_of c) (payload (lib.str_uuid user_id) channel))
      → is_ascii (lib.hmac_sha256 (secret_of c) (payload (lib.str_uuid user_id) channel)) ≡ true
      → lib.uuid_of (lib.str_uuid user_id) ≡ some user_id
      → find_row user_id (lib.channel_of channel) s.channels ≡ some row
      → let (answer, s') =
          handle_unsubscribe lib c (sign_token lib (secret_of c) user_id channel) now s in
        (answer ≡ unsubscribed)
        × (find_row user_id (lib.channel_of channel) s'.channels
            ≡ some (record row { opted_out_at = some now }))
  minted_link_opts_out user_id channel row keyed u ch m plain reads found =
      accepted-opts-out (sign_token lib (secret_of c) user_id channel) user_id channel row
        (verify_token-sign_token lib (secret_of c) user_id channel keyed u ch m plain reads) found

  -- A link changes the tables only if its token is a user's id and a channel under their signature.
  pub unsigned_changes_nothing :
      (token : Text)
      → ((user_id : ℕ) (channel : Text) → ¬ IsSigned lib (secret_of c) token user_id channel)
      → (handle_unsubscribe lib c token now s).1 ≡ s
  unfolding handle_unsubscribe
  unsigned_changes_nothing token unsigned =
      elim (Checked-cases (verify_token lib (secret_of c) token)) [
        | inl (inl refused) ↦ rw (handle_unsubscribe, refused) refl
        | inl (inr foreign) ↦ rw (handle_unsubscribe, foreign) refl
        | inr (user_id, channel, good) ↦ absurd (
            unsigned user_id channel
              (accepted-IsSigned lib (secret_of c) token user_id channel good))
      ]
