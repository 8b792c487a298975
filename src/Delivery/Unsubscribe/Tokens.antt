-- ===== src/Delivery/Unsubscribe/Tokens.antt =====
-- The tokens of app/delivery/unsubscribe.py: those that are signed are accepted, and no others.
use personal_portfolio_analy.Prelude.{
  true, ℕ, ◌≡◌, ◌≢◌, refl, sym, ◌∙◌, ap, false, some, List, [], ◌∷◌, ◌++◌, arith, All, inl, inr,
  Bool-cases, Option-cases, ◌==◌, append_assoc, ◌||◌,
}
use personal_portfolio_analy.Store.{Text}
use personal_portfolio_analy.Delivery.Channels.{same_text}
use personal_portfolio_analy.Delivery.Channels.OptOut.{same_text_refl, same_text_eq}
use personal_portfolio_analy.Delivery.Unsubscribe.{
  Library, is_empty, colon, payload, sign_token, split, three, is_ascii, accepted, verify_token,
}

-- A text without a colon.
abbrev pub Bare : Text → Type 0
Bare = All (λ c. c ≢ colon)

split-Bare : (t : Text) → Bare t → split colon t ≡ t ∷ []
split-Bare [] h = refl
split-Bare (c ∷ t) h =
    let plain : (c == colon ≡ false) = let ne = h.0 in ground arith in
    rw (plain, split-Bare t h.1) refl

split-part : (s t : Text) → Bare s → split colon (s ++ colon ∷ t) ≡ s ∷ split colon t
split-part [] t h = refl
split-part (c ∷ s) t h =
    let plain : (c == colon ≡ false) = let ne = h.0 in ground arith in
    rw (plain, split-part s t h.1) refl

abbrev join : ℕ → List Text → Text
join sep [] = []
join sep (p ∷ []) = p
join sep (p ∷ q ∷ ps) = p ++ sep ∷ join sep (q ∷ ps)

split-some : (t : Text) → (p : Text) × (ps : List Text) × (split colon t ≡ p ∷ ps)
split-some [] = ([], [], refl)
split-some (c ∷ t) = elim (Bool-cases (c == colon)) [
  | inl same ↦ ([], split colon t, rw same refl)
  | inr differ ↦ let (p, ps, e) = split-some t in (c ∷ p, ps, rw (differ, e) refl)
]

join-extend :
    (c : ℕ) (p : Text) (ps : List Text) → join colon ((c ∷ p) ∷ ps) ≡ c ∷ join colon (p ∷ ps)
join-extend c p [] = refl
join-extend c p (q ∷ ps) = refl

join-split : (t : Text) → join colon (split colon t) ≡ t
join-split [] = refl
join-split (c ∷ t) =
    let (p, ps, e) = split-some t in
    let ih : (join colon (p ∷ ps) ≡ t) = rw e at (join-split t) in
    elim (Bool-cases (c == colon)) [
      | inl same ↦ let head : (c ≡ colon) = ground (arith, same) in rw (same, e, ih, head) refl
      | inr differ ↦ rw (differ, e) (join-extend c p ps ∙ ap (λ r. c ∷ r) ih)
    ]

nonempty-payload : (s t : Text) → is_empty (payload s t) ≡ false
nonempty-payload [] t = refl
nonempty-payload (c ∷ s) t = refl

module _ (lib : Library) (secret : Text) where
  abbrev mac : Text → Text
  mac = lib.hmac_sha256 secret

  split-signed :
      (user channel sig : Text)
      → Bare user
      → Bare channel
      → Bare sig
      → split colon (payload (payload user channel) sig) ≡ user ∷ channel ∷ sig ∷ []
  split-signed user channel sig u c s = rw (append_assoc user (colon ∷ channel) (colon ∷ sig)) (
      rw (split-part user (channel ++ colon ∷ sig) u, split-part channel sig c, split-Bare sig s)
        refl)

  three-eq :
      (parts : List Text) (user channel sig : Text)
      → three parts ≡ some (user, channel, sig)
      → parts ≡ user ∷ channel ∷ sig ∷ []
  three-eq [] user channel sig h = ground (arith, h)
  three-eq (a ∷ []) user channel sig h = ground (arith, h)
  three-eq (a ∷ b ∷ []) user channel sig h = ground (arith, h)
  three-eq (a ∷ b ∷ c ∷ []) user channel sig h = ground (arith, h)
  three-eq (a ∷ b ∷ c ∷ d ∷ ps) user channel sig h = ground (arith, h)

  -- What a token that is accepted is: a user's id and a channel, under the signature of the two.
  abbrev pub IsSigned : Text → ℕ → Text → Type 0
  IsSigned token user_id channel =
      (user : Text) × (lib.uuid_of user ≡ some user_id)
      × (token ≡ payload (payload user channel) (mac (payload user channel)))

  -- A token that is signed with a secret is accepted under that secret, for its user and its channel,
  -- if the texts of the id, the channel and the signature have no colon, the signature is ASCII, and
  -- the id is read back.
  pub verify_token-sign_token :
      (user_id : ℕ) (channel : Text)
      → is_empty secret ≡ false
      → Bare (lib.str_uuid user_id)
      → Bare channel
      → Bare (mac (payload (lib.str_uuid user_id) channel))
      → is_ascii (mac (payload (lib.str_uuid user_id) channel)) ≡ true
      → lib.uuid_of (lib.str_uuid user_id) ≡ some user_id
      → verify_token lib secret (sign_token lib secret user_id channel) ≡ accepted user_id channel
  unfolding verify_token sign_token
  verify_token-sign_token user_id channel keyed u c m plain reads =
      let signed = payload (lib.str_uuid user_id) channel in
      rw
        (
          verify_token,
          keyed,
          nonempty-payload signed (mac signed),
          split-signed (lib.str_uuid user_id) channel (mac signed) u c m,
          plain,
          same_text_refl (mac signed),
          reads,
        )
        refl

  -- A token is accepted only for a user's id and a channel that it holds, under their signature.
  pub accepted-IsSigned :
      (token : Text) (user_id : ℕ) (channel : Text)
      → verify_token lib secret token ≡ accepted user_id channel
      → IsSigned token user_id channel
  unfolding verify_token
  accepted-IsSigned token user_id channel h =
      elim (Bool-cases (is_empty secret || is_empty token)) [
        | inl blank ↦ ground (arith, rw (verify_token, blank) at h)
        | inr filled ↦ elim (Option-cases (three (split colon token))) [
          | inl short ↦ ground (arith, rw (verify_token, filled, short) at h)
          | inr ((user, chan, provided), parts) ↦ elim (Bool-cases (is_ascii provided)) [
            | inr foreign ↦ ground (arith, rw (verify_token, filled, parts, foreign) at h)
            | inl plain ↦ elim (Bool-cases (same_text (mac (payload user chan)) provided)) [
              | inr forged ↦ ground (arith, rw (verify_token, filled, parts, plain, forged) at h)
              | inl genuine ↦ elim (Option-cases (lib.uuid_of user)) [
                | inl unread ↦
                    ground (arith, rw (verify_token, filled, parts, plain, genuine, unread) at h)
                | inr (uid, read) ↦
                    let got = rw (verify_token, filled, parts, plain, genuine, read) at h in
                    let same : (uid ≡ user_id) × (chan ≡ channel) =
                      (ground (arith, got), ground (arith, got)) in
                    let whole = three-eq (split colon token) user chan provided parts in
                    let mine = same_text_eq (mac (payload user chan)) provided genuine in
                    let joined = sym (join-split token) ∙ ap (join colon) whole in
                    let signed =
                      joined ∙ sym (append_assoc user (colon ∷ chan) (colon ∷ provided)) in
                    (user, read ∙ ap some same.0, (rw (← same.1, mine) signed))
              ]
            ]
          ]
        ]
      ]
