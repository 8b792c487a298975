-- ===== src/Delivery/TwilioInbound/Replies.antt =====
-- What the replies STOP and START of app/delivery/twilio_inbound.py leave.
use personal_portfolio_analy.Prelude.{
  ℕ, ◌≡◌, refl, sym, ◌∙◌, ap, true, false, some, List, [], ◌∷◌, arith, All, map, inl, inr,
  Bool-cases,
}
use personal_portfolio_analy.Store.{Store, Text, sms, NotificationChannel}
use personal_portfolio_analy.Delivery.Channels.{same_text}
use personal_portfolio_analy.Delivery.Channels.OptOut.{
  same_text_eq, is_at, mark, set_opt_out-map, mark-mark,
}
use personal_portfolio_analy.Delivery.TwilioInbound.{
  Library, stop_words, start_words, one_of, empty_twiml, set_sms_opt_out, handle_inbound_sms,
}

-- A word that holds of every word of a list holds of a text among them.
one_of-All :
    (P : Text → Type 0) (words : List Text) (t : Text) → All P words → one_of words t ≡ true → P t
one_of-All P [] t h found = ground (arith, found)
one_of-All P (w ∷ ws) t h found = elim (Bool-cases (same_text w t)) [
  | inl same ↦ let e = same_text_eq w t same in rw (← e) (h.0)
  | inr differ ↦ one_of-All P ws t h.1 (rw differ at found)
]

start_no_stop : (t : Text) → one_of start_words t ≡ true → one_of stop_words t ≡ false
unfolding same_text
start_no_stop t h =
    one_of-All (λ w. one_of stop_words w ≡ false) start_words t (refl, (refl, (refl, tt))) h

module _ (lib : Library) (from : Text) where
  -- A message that is one of the words, in capitals and without the blanks around it.
  abbrev pub Says : List Text → Text → Type 0
  Says words body = one_of words (lib.upper (lib.strip body)) ≡ true

  stop-set :
      (body : Text) (now : ℕ) (s : Store)
      → Says stop_words body
      → handle_inbound_sms lib from body now s ≡ (empty_twiml, set_sms_opt_out from true now s)
  unfolding handle_inbound_sms
  stop-set body now s stop = rw (handle_inbound_sms, stop) refl

  start-set :
      (body : Text) (now : ℕ) (s : Store)
      → Says start_words body
      → handle_inbound_sms lib from body now s ≡ (empty_twiml, set_sms_opt_out from false now s)
  unfolding handle_inbound_sms
  start-set body now s start =
      rw (handle_inbound_sms, start_no_stop (lib.upper (lib.strip body)) start, start) refl

  -- Opted out from a time on, where the row is one of the number's.
  abbrev pub IsOut : ℕ → NotificationChannel → Type 0
  IsOut now r = is_at sms from r ≡ true → r.opted_out_at ≡ some now

  All-mark :
      (now : ℕ) (rs : List NotificationChannel) → All (IsOut now) (map (mark sms from true now) rs)
  All-mark now [] = tt
  All-mark now (r ∷ rs) = elim (Bool-cases (is_at sms from r)) [
    | inl here ↦ rw here ((λ _. refl), All-mark now rs)
    | inr there ↦ rw there ((λ here. ground (arith, sym there ∙ here)), All-mark now rs)
  ]

  -- After STOP every text-message registration of the number, of whichever user, is opted out.
  pub stop_opts-IsOut :
      (body : Text) (now : ℕ) (s : Store)
      → Says stop_words body
      → All (IsOut now) (handle_inbound_sms lib from body now s).1.channels
  stop_opts-IsOut body now s stop =
      rw (stop-set body now s stop, set_opt_out-map sms from true now s.channels)
        (All-mark now s.channels)

  -- START after STOP leaves the tables that START alone leaves.
  pub start_undoes_stop :
      (stop_body start_body : Text) (now later : ℕ) (s : Store)
      → Says stop_words stop_body
      → Says start_words start_body
      → (handle_inbound_sms lib from start_body later
          (handle_inbound_sms lib from stop_body now s).1)
        ≡ handle_inbound_sms lib from start_body later s
  start_undoes_stop stop_body start_body now later s stop start =
      let first = set_opt_out-map sms from true now s.channels in
      let second = set_opt_out-map sms from false later (map (mark sms from true now) s.channels) in
      let alone = set_opt_out-map sms from false later s.channels in
      let undone = mark-mark sms from true false now later s.channels in
      rw
        (
          stop-set stop_body now s stop,
          start-set start_body later (set_sms_opt_out from true now s) start,
          start-set start_body later s start,
          first,
        )
        (ap (λ rs. (empty_twiml, record s { channels = rs })) (second ∙ undone ∙ sym alone))
