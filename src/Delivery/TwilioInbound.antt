-- ===== src/Delivery/TwilioInbound.antt =====
-- app/delivery/twilio_inbound.py and `twilio_sms_webhook` of app/main.py: the replies to text
-- messages. The HMAC in base 64 and the two string methods are Python's; the form of a request is a
-- list of its pairs, as `parse_qsl` gives it.
pub mod Signature
pub mod Replies
use personal_portfolio_analy.Prelude.{
  ℕ, Bool, true, false, not, ◌&&◌, ◌||◌, Option, none, some, List, [], ◌∷◌, ◌++◌, ltb, ◌==◌, any,
  if◌then◌else◌,
}
use personal_portfolio_analy.Store.{Store, Text, sms}
use personal_portfolio_analy.Delivery.Channels.{same_text, set_opt_out}
use personal_portfolio_analy.Delivery.Unsubscribe.{is_ascii, is_empty}

pub record Library : Type 0 where
  pub hmac_sha1 : Text → Text → Text
  pub strip : Text → Text
  pub upper : Text → Text

-- "STOP", "STOPALL", "UNSUBSCRIBE", "CANCEL", "END", "QUIT"
abbrev pub stop_words : List Text
stop_words =
    (83 ∷ 84 ∷ 79 ∷ 80 ∷ [])
    ∷ (83 ∷ 84 ∷ 79 ∷ 80 ∷ 65 ∷ 76 ∷ 76 ∷ [])
    ∷ (85 ∷ 78 ∷ 83 ∷ 85 ∷ 66 ∷ 83 ∷ 67 ∷ 82 ∷ 73 ∷ 66 ∷ 69 ∷ [])
    ∷ (67 ∷ 65 ∷ 78 ∷ 67 ∷ 69 ∷ 76 ∷ [])
    ∷ (69 ∷ 78 ∷ 68 ∷ [])
    ∷ (81 ∷ 85 ∷ 73 ∷ 84 ∷ [])
    ∷ []

-- "START", "UNSTOP", "YES"
abbrev pub start_words : List Text
start_words =
    (83 ∷ 84 ∷ 65 ∷ 82 ∷ 84 ∷ []) ∷ (85 ∷ 78 ∷ 83 ∷ 84 ∷ 79 ∷ 80 ∷ []) ∷ (89 ∷ 69 ∷ 83 ∷ []) ∷ []

-- "HELP", "INFO"
abbrev pub help_words : List Text
help_words = (72 ∷ 69 ∷ 76 ∷ 80 ∷ []) ∷ (73 ∷ 78 ∷ 70 ∷ 79 ∷ []) ∷ []

-- The answers `EMPTY_TWIML` and `HELP_TWIML`.
pub data Twiml : Type 0 where
  empty_twiml help_twiml : Twiml

-- The order of Python's strings: the code points one by one.
abbrev pub text_lt : Text → Text → Bool
text_lt _ [] = false
text_lt [] (_ ∷ _) = true
text_lt (c ∷ s) (d ∷ t) = if c == d then text_lt s t else ltb c d

abbrev pub Params : Type 0
Params = List (Text × Text)

abbrev set_param : Text → Text → Params → Params
set_param k v [] = (k, v) ∷ []
set_param k v ((j, w) ∷ ps) = if same_text j k then (j, v) ∷ ps else (j, w) ∷ set_param k v ps

-- `dict(pairs)`, onto the entries there are
abbrev pub dict_onto : Params → Params → Params
dict_onto d [] = d
dict_onto d ((k, v) ∷ pairs) = dict_onto (set_param k v d) pairs

-- `sorted(params.items())`: the keys are distinct, and so decide.
abbrev pub insort : Text × Text → Params → Params
insort p [] = p ∷ []
insort p (q ∷ ps) = let rest = insort p ps in if text_lt q.0 p.0 then q ∷ rest else p ∷ q ∷ ps

unfoldable pub sorted_items : Params → Params
sorted_items [] = []
sorted_items (p ∷ ps) = insort p (sorted_items ps)

abbrev pub concat_items : Params → Text
concat_items [] = []
concat_items ((k, v) ∷ ps) = k ++ v ++ concat_items ps

unfoldable pub compute_signature : Library → Text → Text → Params → Text
unfolding sorted_items
compute_signature lib auth_token url params =
    lib.hmac_sha1 auth_token (url ++ concat_items (sorted_items params))

-- `signature_valid`; `compare_digest` raises, none, where a text is not ASCII.
unfoldable pub signature_valid : Library → Text → Text → Params → Text → Option Bool
unfolding compute_signature same_text
signature_valid lib auth_token url params provided =
    if is_empty auth_token || is_empty provided
    then some false
    else if not (is_ascii provided)
    then none
    else some (same_text (compute_signature lib auth_token url params) provided)

abbrev pub one_of : List Text → Text → Bool
one_of words t = any (λ w. same_text w t) words

abbrev pub set_sms_opt_out : Text → Bool → ℕ → Store → Store
set_sms_opt_out from out now s = record s { channels = (set_opt_out sms from out now s.channels).0 }

unfoldable pub handle_inbound_sms : Library → Text → Text → ℕ → Store → Twiml × Store
unfolding same_text set_opt_out
handle_inbound_sms lib from body now s =
    let keyword = lib.upper (lib.strip body) in
    if one_of stop_words keyword
    then (empty_twiml, set_sms_opt_out from true now s)
    else if one_of start_words keyword
    then (empty_twiml, set_sms_opt_out from false now s)
    else if one_of help_words keyword
    then (help_twiml, s)
    else (empty_twiml, s)

-- `params.get(key, "")`
abbrev pub param : Text → Params → Text
param k [] = []
param k ((j, v) ∷ ps) = if same_text j k then v else param k ps

-- "From" and "Body"
abbrev from_key : Text
from_key = 70 ∷ 114 ∷ 111 ∷ 109 ∷ []

abbrev body_key : Text
body_key = 66 ∷ 111 ∷ 100 ∷ 121 ∷ []

pub data Response : Type 0 where
  twiml : Twiml → Response
  forbidden server_error : Response

-- `twilio_sms_webhook`, at its URL
unfoldable pub twilio_sms_webhook :
    Library → Text → Text → Params → Text → ℕ → Store → Response × Store
unfolding signature_valid handle_inbound_sms
twilio_sms_webhook lib auth_token url pairs signature now s =
    let params = dict_onto [] pairs in
    elim (signature_valid lib auth_token url params signature) [
      | none ↦ (server_error, s)
      | some false ↦ (forbidden, s)
      | some true ↦
          let (answer, s') =
            handle_inbound_sms lib (param from_key params) (param body_key params) now s in
          (twiml answer, s')
    ]
