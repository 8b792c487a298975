-- ===== src/Delivery/TwilioInbound/Signature.antt =====
-- The signature of app/delivery/twilio_inbound.py is over the parameters in the order of their keys.
use personal_portfolio_analy.Prelude.{
  ℕ, ◌≡◌, ◌≢◌, refl, sym, ◌∙◌, ap, true, false, [], ◌∷◌, ◌++◌, arith, inl, inr, Bool-cases, ltb,
  ◌==◌, ◌<◌, eq_self,
}
use personal_portfolio_analy.Store.{Text}
use personal_portfolio_analy.Delivery.TwilioInbound.{
  Library, text_lt, Params, insort, sorted_items, concat_items, compute_signature,
}

text_lt_head : (c d : ℕ) (s t : Text) → c < d → text_lt (c ∷ s) (d ∷ t) ≡ true
text_lt_head c d s t h =
    let differ : (c == d ≡ false) = ground (arith, h) in
    let less : (ltb c d ≡ true) = ground (arith, h) in rw (differ, less) refl

text_lt_not_head : (c d : ℕ) (s t : Text) → d < c → text_lt (c ∷ s) (d ∷ t) ≡ false
text_lt_not_head c d s t h =
    let differ : (c == d ≡ false) = ground (arith, h) in
    let less : (ltb c d ≡ false) = ground (arith, h) in rw (differ, less) refl

text_lt_tail : (c : ℕ) (s t : Text) → text_lt (c ∷ s) (c ∷ t) ≡ text_lt s t
text_lt_tail c s t = rw (eq_self c) refl

trichotomy : (s t : Text) → text_lt s t ≡ false → text_lt t s ≡ false → s ≡ t
trichotomy [] [] h k = refl
trichotomy [] (d ∷ t) h k = ground (arith, h)
trichotomy (c ∷ s) [] h k = ground (arith, k)
trichotomy (c ∷ s) (d ∷ t) h k = elim (Bool-cases (c == d)) [
  | inl same ↦
      let head : (c ≡ d) = ground (arith, same) in
      let tail =
        trichotomy s t (rw same at h)
          (sym (text_lt_tail c t s) ∙ ap (λ e. text_lt (e ∷ t) (c ∷ s)) head ∙ k) in
      cc
  | inr differ ↦ ground (arith, rw differ at h, k)
]

-- What is not below one text is not below a smaller one.
not_below : (y p q : Text) → text_lt y q ≡ false → text_lt y p ≡ true → text_lt q p ≡ true
not_below y [] q h k = ground (arith, k)
not_below y (c ∷ p) [] h k = refl
not_below [] (c ∷ p) (d ∷ q) h k = ground (arith, h)
not_below (e ∷ y) (c ∷ p) (d ∷ q) h k = let ih = not_below y p q in ground (arith, ih, h, k)

asymmetric : (s t : Text) → text_lt s t ≡ true → text_lt t s ≡ false
asymmetric [] [] h = refl
asymmetric [] (d ∷ t) h = refl
asymmetric (c ∷ s) [] h = ground (arith, h)
asymmetric (c ∷ s) (d ∷ t) h = let ih = asymmetric s t in ground (arith, ih, h)

-- Two entries with different keys find their places in either order.
insort-insort :
    (p q : Text × Text) (ps : Params)
    → text_lt p.0 q.0 ≡ true
    → insort p (insort q ps) ≡ insort q (insort p ps)
insort-insort p q [] less = rw (less, asymmetric p.0 q.0 less) refl
insort-insort p q (r ∷ ps) less =
    let more = asymmetric p.0 q.0 less in
    elim (Bool-cases (text_lt r.0 p.0)) [
      | inl below_p ↦ elim (Bool-cases (text_lt r.0 q.0)) [
        | inl below_q ↦
            rw (below_p, below_q, below_p) (ap (λ rest. r ∷ rest) (insort-insort p q ps less))
        | inr not_q ↦ ground (arith, not_below r.0 p.0 q.0 not_q below_p, more)
      ]
      | inr not_p ↦ elim (Bool-cases (text_lt r.0 q.0)) [
        | inl below_q ↦ rw (below_q, not_p, less, below_q) refl
        | inr not_q ↦ rw (not_q, not_p, more, less, not_q) refl
      ]
    ]

-- The same entries with distinct keys, in whatever order.
pub data Reordered : Params → Params → Type 0 where
  same : (ps : Params) → Reordered ps ps
  kept : (p : Text × Text) {ps qs : Params} → Reordered ps qs → Reordered (p ∷ ps) (p ∷ qs)
  swapped : (p q : Text × Text) (ps : Params) → p.0 ≢ q.0 → Reordered (p ∷ q ∷ ps) (q ∷ p ∷ ps)
  chained : {ps qs rs : Params} → Reordered ps qs → Reordered qs rs → Reordered ps rs

sorted-Reordered : {ps qs : Params} → Reordered ps qs → sorted_items ps ≡ sorted_items qs
unfolding sorted_items
sorted-Reordered (same ps) = refl
sorted-Reordered (kept p r) = ap (insort p) (sorted-Reordered r)
sorted-Reordered (swapped p q ps differ) = elim (Bool-cases (text_lt p.0 q.0)) [
  | inl less ↦ insort-insort p q (sorted_items ps) less
  | inr not_less ↦ elim (Bool-cases (text_lt q.0 p.0)) [
    | inl more ↦ sym (insort-insort q p (sorted_items ps) more)
    | inr neither ↦ absurd (differ (trichotomy p.0 q.0 not_less neither))
  ]
]
sorted-Reordered (chained r r') = sorted-Reordered r ∙ sorted-Reordered r'

-- The order in which the parameters of a request stand does not change its signature.
pub signature_ignores_order :
    (lib : Library) (auth_token url : Text) {ps qs : Params}
    → Reordered ps qs
    → compute_signature lib auth_token url ps ≡ compute_signature lib auth_token url qs
unfolding compute_signature
signature_ignores_order lib auth_token url r =
    ap (λ items. lib.hmac_sha1 auth_token (url ++ concat_items items)) (sorted-Reordered r)
