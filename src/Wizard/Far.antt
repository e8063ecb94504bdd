-- ===== src/Wizard/Far.antt =====
-- bridge/wizard: what the messages of one chat leave alone.
use tg_bale_bridge.Prelude.{Text, ℕ, ◌≡◌, Bool, true, false, Option, none, some}
use tg_bale_bridge.Prelude.Int.{ℤ}
use tg_bale_bridge.RunCfg.{Value, set_tg_api, set_bale_self, set_bale_bot}
use tg_bale_bridge.Wizard.{
  Step, ChatInfo, Answers, Conv, Outside, Wiz, modify, conv_of, set_conv, to_step, answer,
}
use tg_bale_bridge.Wizard.Keeps.{Keeps, IsQuiet, keep_rules}
use tg_bale_bridge.Wizard.Apart.{
  IsApart, request_code-Keeps, bale_request_code-Keeps, bale_validate-Keeps, check_token-Keeps,
  ready_client-Keeps, api_for_setup-Keeps,
}
use tg_bale_bridge.Wizard.Login.{
  store, request_code, bale_request_code, bale_validate, check_token, ready_client, api_for_setup,
}
use tg_bale_bridge.Wizard.Pairing.{
  Forwarded, forward_chat_info, begin, keep_tg, found_tg, look_up_tg, tg_resolve_with, tg_resolve,
  keep_bale, found_bale, look_up_bale, bale_resolve,
}
use tg_bale_bridge.Wizard.Conversation.{
  api_id_of, open_menu, with_answers, text_in_menu, api_id_given, store_api, api_hash_given,
  phone_given, code_given, password_given, bale_phone_given, bale_code_given, token_checked,
  token_given, text_at, handle_text,
}

-- A part of the state that is no part of the conversation of one chat, nor of the settings that its
-- messages store.
pub record IsFar {X : Type 0} (dumps : Value → Text) (loads : Text → Option Value) (c : ℤ)
    (f : Wiz → X) : Type 0 where
  pub apart : IsApart f
  pub conv_apart : (w : Wiz) (v : Conv) → f (set_conv c v w) ≡ f w
  pub api_apart :
      (w : Wiz) (i : ℤ) (h : Text) → f (record w { db = set_tg_api dumps loads i h w.db }) ≡ f w
  pub bale_self_apart :
      (w : Wiz) (p : Text) → f (record w { db = set_bale_self dumps loads p w.db }) ≡ f w
  pub bot_apart :
      (w : Wiz) (t n : Text) → f (record w { db = set_bale_bot dumps loads t n w.db }) ≡ f w

module _ {X : Type 0} (dumps : Value → Text) (loads : Text → Option Value) (env : Outside) (c : ℤ)
    (f : Wiz → X) (far : IsFar dumps loads c f) where
  part-IsApart : IsApart f
  part-IsApart = far.apart

  pub far-IsQuiet : IsQuiet f
  far-IsQuiet = far.apart.quiet

  pub Keeps-to_step : (s : Step) → Keeps f (to_step c s)
  Keeps-to_step s = record { kept = λ w. far.conv_apart w _ }

  Keeps-answer : (a : Answers) → Keeps f (answer c a)
  Keeps-answer a = record { kept = λ w. far.conv_apart w _ }

  pub Keeps-set_conv : (v : Conv) → Keeps f (modify (set_conv c v))
  Keeps-set_conv v = record { kept = λ w. far.conv_apart w v }

  pub Keeps-with_answers : (g : Answers → Answers) → Keeps f (with_answers dumps loads env c g)
  Keeps-with_answers g = search (keep_rules, Keeps-answer)

  pub Keeps-api : (i : ℤ) (h : Text) → Keeps f (store dumps loads env (set_tg_api dumps loads i h))
  Keeps-api i h = record { kept = λ w. far.api_apart w i h }

  pub Keeps-bale_self : (p : Text) → Keeps f (store dumps loads env (set_bale_self dumps loads p))
  Keeps-bale_self p = record { kept = λ w. far.bale_self_apart w p }

  pub Keeps-bot : (t n : Text) → Keeps f (store dumps loads env (set_bale_bot dumps loads t n))
  Keeps-bot t n = record { kept = λ w. far.bot_apart w t n }

  pub ruleset far_rules = (
    keep_rules, far-IsQuiet, Keeps-to_step, Keeps-set_conv, Keeps-with_answers, Keeps-api,
    Keeps-bale_self, Keeps-bot,
  )

  pub begin-far : Keeps f (begin dumps loads env c)
  unfolding begin
  begin-far = search far_rules

  keep_tg-far : (i : ChatInfo) → Keeps f (keep_tg dumps loads env c i)
  keep_tg-far i = search far_rules

  found_tg-far : (o : Option ChatInfo) → Keeps f (found_tg dumps loads env c o)
  found_tg-far none = search far_rules
  found_tg-far (some i) = keep_tg-far i

  look_up_tg-far : (t : Text) (b : Bool) → Keeps f (look_up_tg dumps loads env c t b)
  look_up_tg-far t false = search far_rules
  look_up_tg-far t true = search (far_rules, found_tg-far)

  ready_client-far : Keeps f (ready_client dumps loads env)
  ready_client-far = ready_client-Keeps f part-IsApart dumps loads env

  tg_resolve_with-far :
      (t : Text) (o : Option ChatInfo) → Keeps f (tg_resolve_with dumps loads env c t o)
  tg_resolve_with-far t none = search (keep_rules, ready_client-far, look_up_tg-far)
  tg_resolve_with-far t (some i) = keep_tg-far i

  tg_resolve-far : (t : Text) (o : Forwarded) → Keeps f (tg_resolve dumps loads env c t o)
  unfolding tg_resolve
  tg_resolve-far t o = tg_resolve_with-far t (forward_chat_info o)

  keep_bale-far : (i : ChatInfo) → Keeps f (keep_bale dumps loads env c i)
  keep_bale-far i = search far_rules

  found_bale-far : (o : Option ChatInfo) → Keeps f (found_bale dumps loads env c o)
  found_bale-far none = search far_rules
  found_bale-far (some i) = keep_bale-far i

  look_up_bale-far : (t : Text) (b : Bool) → Keeps f (look_up_bale dumps loads env c t b)
  look_up_bale-far t false = search far_rules
  look_up_bale-far t true = search (far_rules, found_bale-far)

  api-far : Keeps f (api_for_setup dumps loads env)
  api-far = api_for_setup-Keeps f part-IsApart dumps loads env

  bale_resolve-far : (t : Text) → Keeps f (bale_resolve dumps loads env c t)
  unfolding bale_resolve
  bale_resolve-far t = search (keep_rules, api-far, look_up_bale-far)

  pub open_menu-far : Keeps f (open_menu dumps loads env c)
  unfolding open_menu
  open_menu-far = search far_rules

  text_in_menu-far : (t : Text) (o : Forwarded) → Keeps f (text_in_menu dumps loads env c t o)
  unfolding text_in_menu
  text_in_menu-far t o = search (far_rules, begin-far, tg_resolve-far, open_menu-far)

  api_id_given-far : (o : Option ℕ) → Keeps f (api_id_given dumps loads env c o)
  unfolding api_id_given
  api_id_given-far none = search far_rules
  api_id_given-far (some n) = search far_rules

  store_api-far : (t : Text) (o : Option ℕ) → Keeps f (store_api dumps loads env c t o)
  store_api-far t none = search far_rules
  store_api-far t (some n) = search far_rules

  api_hash_given-far : (t : Text) → Keeps f (api_hash_given dumps loads env c t)
  unfolding api_hash_given
  api_hash_given-far t = search (far_rules, store_api-far)

  request_code-far :
      (p : Text) (i : Option ℕ) (h : Text) → Keeps f (request_code dumps loads env c p i h)
  request_code-far = request_code-Keeps f part-IsApart dumps loads env c

  phone_given-far : (t : Text) → Keeps f (phone_given dumps loads env c t)
  unfolding phone_given
  phone_given-far t = search (far_rules, request_code-far) depth 8

  bale_request_code-far : (p : Text) → Keeps f (bale_request_code dumps loads env p)
  bale_request_code-far = bale_request_code-Keeps f part-IsApart dumps loads env

  bale_phone_given-far : (t : Text) → Keeps f (bale_phone_given dumps loads env c t)
  unfolding bale_phone_given
  bale_phone_given-far t = search (far_rules, bale_request_code-far) depth 8

  bale_validate-far : (p : Text) → Keeps f (bale_validate dumps loads env p)
  bale_validate-far = bale_validate-Keeps f part-IsApart dumps loads env

  bale_code_given-far : (t : Text) → Keeps f (bale_code_given dumps loads env c t)
  unfolding bale_code_given
  bale_code_given-far t = search (far_rules, bale_validate-far) depth 8

  token_checked-far : (t : Text) (o : Option Text) → Keeps f (token_checked dumps loads env c t o)
  token_checked-far t none = search far_rules
  token_checked-far t (some n) = search far_rules

  check_token-far : (t : Text) → Keeps f (check_token dumps loads env t)
  check_token-far = check_token-Keeps f part-IsApart dumps loads env

  token_given-far : (t : Text) → Keeps f (token_given dumps loads env c t)
  unfolding token_given
  token_given-far t = search (keep_rules, check_token-far, token_checked-far)

  -- The two steps that may store the account are left to be shown.
  text_at-far :
      ((t : Text) → Keeps f (code_given dumps loads env c t))
      → ((t : Text) → Keeps f (password_given dumps loads env c t))
      → (s : Step) (t : Text) (o : Forwarded) → Keeps f (text_at dumps loads env s c t o)
  unfolding text_at
  text_at-far kc kp Step.fresh t o = text_in_menu-far t o
  text_at-far kc kp Step.menu t o = text_in_menu-far t o
  text_at-far kc kp Step.tg_api_id t o = api_id_given-far (api_id_of t)
  text_at-far kc kp Step.tg_api_hash t o = api_hash_given-far t
  text_at-far kc kp Step.tg_phone t o = phone_given-far t
  text_at-far kc kp Step.tg_code t o = kc t
  text_at-far kc kp Step.tg_password t o = kp t
  text_at-far kc kp Step.bale_phone t o = bale_phone_given-far t
  text_at-far kc kp Step.bale_code t o = bale_code_given-far t
  text_at-far kc kp Step.bbot_token t o = token_given-far t
  text_at-far kc kp Step.pair_tg t o = tg_resolve-far t o
  text_at-far kc kp Step.pair_bale t o = bale_resolve-far t
  text_at-far kc kp Step.pair_dir t o = open_menu-far

  pub enter-far : Keeps f (modify (λ w. set_conv c (conv_of c w) w))
  enter-far = record { kept = λ w. far.conv_apart w _ }

  pub handle_text-far :
      ((t : Text) → Keeps f (code_given dumps loads env c t))
      → ((t : Text) → Keeps f (password_given dumps loads env c t))
      → (t : Text) (o : Forwarded) → Keeps f (handle_text dumps loads env c t o)
  unfolding handle_text
  handle_text-far kc kp t o = search (keep_rules, enter-far, text_at-far kc kp)
