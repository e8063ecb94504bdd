-- ===== src/Wizard/Conversation.antt =====
-- bridge/wizard/facade.py: the texts of the conversation.
use tg_bale_bridge.Prelude.{
  leb, if◌then◌else◌, Text, strip, ℕ, ◌+◌, ◌-◌, ◌*◌, true, false, ◌&&◌, Option, none, some, [], ◌∷◌,
}
use tg_bale_bridge.Prelude.Int.{ℤ, pos}
use tg_bale_bridge.RunCfg.{Value, set_tg_api, set_tg_self, set_bale_self, set_bale_bot}
use tg_bale_bridge.Transfer.Exec.{other_error}
use tg_bale_bridge.Wizard.{
  Step, Answers, menu_text, not_a_number, ask_api_hash, ask_phone, connecting, phone_failed,
  ask_code, ask_password, code_failed, tg_connected, password_failed, tg_connected_by_password,
  sending_to_bale, bale_phone_failed, ask_bale_code, bale_code_failed, bale_connected, token_failed,
  bot_stored, Outside, W, raise, ◌>>=◌, ◌>>◌, or_else, modify, gets, say, conv_of, set_conv,
  to_step, answer,
}
use tg_bale_bridge.Wizard.Login.{
  LoginResult, login_ok, login_needs_password, login_failed, store, request_code, sign_in, password,
  bale_request_code, bale_validate, check_token,
}
use tg_bale_bridge.Wizard.Pairing.{
  Forwarded, is_forwarded, extract_token, begin, tg_resolve, bale_resolve,
}

-- The decimal digits that a keyboard of the users types: ASCII, Arabic and Persian ones.
abbrev pub digit_value : ℕ → Option ℕ
digit_value c =
    if leb 48 c && leb c 57
    then some (c - 48)
    else if leb 1632 c && leb c 1641
    then some (c - 1632)
    else if leb 1776 c && leb c 1785
    then some (c - 1776)
    else none

abbrev add_digit : ℕ → Option ℕ → Option ℕ
add_digit n none = none
add_digit n (some d) = some (n * 10 + d)

abbrev number_onto : Option ℕ → Text → Option ℕ
number_onto none cs = none
number_onto (some n) [] = some n
number_onto (some n) (c ∷ cs) = number_onto (add_digit n (digit_value c)) cs

-- `int(text)` if `text.isdigit()`.
pub api_id_of : Text → Option ℕ
api_id_of [] = none
api_id_of (c ∷ cs) = number_onto (some 0) (c ∷ cs)

module _ (dumps : Value → Text) (loads : Text → Option Value) (env : Outside) where
  unfoldable pub open_menu : ℤ → W (Unit {0})
  open_menu c = do to_step c Step.menu; say c menu_text

  abbrev pub with_answers : ℤ → (Answers → Answers) → W (Unit {0})
  with_answers c f = do v ← gets (conv_of c); answer c (f v.answers)

  unfoldable pub text_in_menu : ℤ → Text → Forwarded → W (Unit {0})
  unfolding open_menu
  text_in_menu c text f =
      if is_forwarded f
      then (do begin dumps loads env c; tg_resolve dumps loads env c text f)
      else open_menu c

  unfoldable pub api_id_given : ℤ → Option ℕ → W (Unit {0})
  api_id_given c none = say c not_a_number
  api_id_given c (some n) = do
    with_answers c (λ a. record a { api_id = some n })
    to_step c Step.tg_api_hash
    say c ask_api_hash

  -- `data["api_id"]` raises a `KeyError` if it is not there.
  abbrev pub store_api : ℤ → Text → Option ℕ → W (Unit {0})
  store_api c text none = raise other_error
  store_api c text (some n) = do
    store dumps loads env (set_tg_api dumps loads (pos n) text)
    to_step c Step.tg_phone
    say c ask_phone

  unfoldable pub api_hash_given : ℤ → Text → W (Unit {0})
  api_hash_given c text = do
    with_answers c (λ a. record a { api_hash = text })
    v ← gets (conv_of c)
    store_api c text v.answers.api_id

  unfoldable pub phone_given : ℤ → Text → W (Unit {0})
  phone_given c text = do
    say c connecting
    v ← gets (conv_of c)
    sent ← or_else false (request_code dumps loads env c text v.answers.api_id v.answers.api_hash)
    (if sent
        then (do
          with_answers c (λ a. record a { phone = text })
          to_step c Step.tg_code
          say c ask_code)
        else (do to_step c Step.tg_phone; say c phone_failed))

  unfoldable pub keep_tg_self : ℤ → W (Unit {0})
  keep_tg_self c = do
    v ← gets (conv_of c)
    store dumps loads env (set_tg_self dumps loads v.answers.phone)
    to_step c Step.menu

  abbrev pub code_answered : ℤ → LoginResult → W (Unit {0})
  code_answered c login_needs_password = do to_step c Step.tg_password; say c ask_password
  code_answered c login_failed = say c code_failed
  code_answered c login_ok = do
    keep_tg_self c
    with_answers c (λ a. record a { tg_done = true })
    say c tg_connected

  unfoldable pub code_given : ℤ → Text → W (Unit {0})
  unfolding keep_tg_self
  code_given c text = do r ← sign_in dumps loads env c text; code_answered c r

  abbrev pub password_answered : ℤ → LoginResult → W (Unit {0})
  password_answered c login_ok = do keep_tg_self c; say c tg_connected_by_password
  password_answered c login_needs_password = say c password_failed
  password_answered c login_failed = say c password_failed

  unfoldable pub password_given : ℤ → Text → W (Unit {0})
  unfolding keep_tg_self
  password_given c text = do r ← password dumps loads env c text; password_answered c r

  unfoldable pub bale_phone_given : ℤ → Text → W (Unit {0})
  bale_phone_given c text = do
    say c sending_to_bale
    sent ← bale_request_code dumps loads env text
    (if sent
        then (do
          with_answers c (λ a. record a { bale_phone = text })
          to_step c Step.bale_code
          say c ask_bale_code)
        else say c bale_phone_failed)

  unfoldable pub bale_code_given : ℤ → Text → W (Unit {0})
  bale_code_given c text = do
    valid ← bale_validate dumps loads env text
    v ← gets (conv_of c)
    (if valid
        then (do
          store dumps loads env (set_bale_self dumps loads v.answers.bale_phone)
          to_step c Step.menu
          say c bale_connected)
        else say c bale_code_failed)

  abbrev pub token_checked : ℤ → Text → Option Text → W (Unit {0})
  token_checked c token none = say c token_failed
  token_checked c token (some name) = do
    store dumps loads env (set_bale_bot dumps loads token name)
    to_step c Step.menu
    say c bot_stored

  unfoldable pub token_given : ℤ → Text → W (Unit {0})
  token_given c text = do
    me ← check_token dumps loads env (extract_token text)
    token_checked c (extract_token text) me

  unfoldable pub text_at : Step → ℤ → Text → Forwarded → W (Unit {0})
  text_at Step.fresh c text f = text_in_menu c text f
  text_at Step.menu c text f = text_in_menu c text f
  text_at Step.tg_api_id c text f = api_id_given c (api_id_of text)
  text_at Step.tg_api_hash c text f = api_hash_given c text
  text_at Step.tg_phone c text f = phone_given c text
  text_at Step.tg_code c text f = code_given c text
  text_at Step.tg_password c text f = password_given c text
  text_at Step.bale_phone c text f = bale_phone_given c text
  text_at Step.bale_code c text f = bale_code_given c text
  text_at Step.bbot_token c text f = token_given c text
  text_at Step.pair_tg c text f = tg_resolve dumps loads env c text f
  text_at Step.pair_bale c text f = bale_resolve dumps loads env c text
  text_at Step.pair_dir c text f = open_menu c

  unfoldable pub handle_text : ℤ → Text → Forwarded → W (Unit {0})
  unfolding text_at
  handle_text c text f = do
    modify (λ w. set_conv c (conv_of c w) w)
    v ← gets (conv_of c)
    text_at v.step c (strip text) f
