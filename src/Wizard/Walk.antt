-- ===== src/Wizard/Walk.antt =====
-- bridge/wizard/facade.py: the steps of a conversation under its messages.
use tg_bale_bridge.Prelude.{Text, strip, ℕ, ◌≡◌, refl, sym, ap, Option, none, some}
use tg_bale_bridge.Prelude.Int.{ℤ}
use tg_bale_bridge.RunCfg.{Value}
use tg_bale_bridge.Wizard.{Step, Outside, Wiz, conv_of, set_conv, conv_at-put_conv_same}
use tg_bale_bridge.Wizard.Keeps.{Keeps}
use tg_bale_bridge.Wizard.Apart.{
  request_code-Keeps, sign_in-Keeps, password-Keeps, bale_request_code-Keeps, bale_validate-Keeps,
  check_token-Keeps,
}
use tg_bale_bridge.Wizard.Edges.{step_at, step_at-IsApart, Moves, Moves-if, Moves-before}
use tg_bale_bridge.Wizard.Diagram.{
  step_rules, open_menu-Moves, tg_resolve-Moves, bale_resolve-Moves, api_id_given-Moves,
  api_hash_given-Moves,
}
use tg_bale_bridge.Wizard.Edges.{
  ◌⟶◌, stay, fresh_menu, fresh_pair, fresh_paired, menu_pair, menu_paired, phone_code,
  code_password, code_menu, password_menu, bale_phone_code, bale_code_menu, token_menu, tg_bale,
  dir_menu,
}
use tg_bale_bridge.Wizard.Login.{
  LoginResult, login_ok, login_needs_password, login_failed, request_code, bale_request_code,
  bale_validate,
}
use tg_bale_bridge.Wizard.Pairing.{Forwarded, is_forwarded, extract_token, begin}
use tg_bale_bridge.Wizard.Conversation.{
  api_id_of, text_in_menu, phone_given, keep_tg_self, code_answered, code_given, password_answered,
  password_given, bale_phone_given, bale_code_given, token_checked, token_given, text_at,
  handle_text,
}

module _ (dumps : Value → Text) (loads : Text → Option Value) (env : Outside) where
  request_code-step :
      (c : ℤ) (p : Text) (i : Option ℕ) (h : Text)
      → Keeps (step_at c) (request_code dumps loads env c p i h)
  request_code-step c = request_code-Keeps (step_at c) (step_at-IsApart c) dumps loads env c

  phone_given-Moves : (c : ℤ) (t : Text) → Moves c Step.tg_phone (phone_given dumps loads env c t)
  unfolding phone_given
  phone_given-Moves c t = search (step_rules, request_code-step, phone_code, stay) depth 8

  keep_tg_self-Moves :
      (c : ℤ) (s : Step) → s ⟶ Step.menu → Moves c s (keep_tg_self dumps loads env c)
  unfolding keep_tg_self
  keep_tg_self-Moves c s e = search (step_rules) depth 8

  code_answered-Moves :
      (c : ℤ) (r : LoginResult) → Moves c Step.tg_code (code_answered dumps loads env c r)
  code_answered-Moves c login_ok = search (step_rules, keep_tg_self-Moves, code_menu) depth 8
  code_answered-Moves c login_needs_password = search (step_rules, code_password) depth 8
  code_answered-Moves c login_failed = search (step_rules) depth 8

  code_given-Moves : (c : ℤ) (t : Text) → Moves c Step.tg_code (code_given dumps loads env c t)
  unfolding code_given
  code_given-Moves c t =
      Moves-before c Step.tg_code _ _
        (sign_in-Keeps (step_at c) (step_at-IsApart c) dumps loads env c t) (code_answered-Moves c)

  password_answered-Moves :
      (c : ℤ) (r : LoginResult) → Moves c Step.tg_password (password_answered dumps loads env c r)
  password_answered-Moves c login_ok =
      search (step_rules, keep_tg_self-Moves, password_menu) depth 8
  password_answered-Moves c login_needs_password = search (step_rules) depth 8
  password_answered-Moves c login_failed = search (step_rules) depth 8

  password_given-Moves :
      (c : ℤ) (t : Text) → Moves c Step.tg_password (password_given dumps loads env c t)
  unfolding password_given
  password_given-Moves c t =
      Moves-before c Step.tg_password _ _
        (password-Keeps (step_at c) (step_at-IsApart c) dumps loads env c t)
        (password_answered-Moves c)

  bale_request_code-step :
      (c : ℤ) (p : Text) → Keeps (step_at c) (bale_request_code dumps loads env p)
  bale_request_code-step c = bale_request_code-Keeps (step_at c) (step_at-IsApart c) dumps loads env

  bale_phone_given-Moves :
      (c : ℤ) (t : Text) → Moves c Step.bale_phone (bale_phone_given dumps loads env c t)
  unfolding bale_phone_given
  bale_phone_given-Moves c t = search (step_rules, bale_request_code-step, bale_phone_code) depth 8

  bale_validate-step : (c : ℤ) (p : Text) → Keeps (step_at c) (bale_validate dumps loads env p)
  bale_validate-step c = bale_validate-Keeps (step_at c) (step_at-IsApart c) dumps loads env

  bale_code_given-Moves :
      (c : ℤ) (t : Text) → Moves c Step.bale_code (bale_code_given dumps loads env c t)
  unfolding bale_code_given
  bale_code_given-Moves c t = search (step_rules, bale_validate-step, bale_code_menu) depth 8

  token_checked-Moves :
      (c : ℤ) (t : Text) (o : Option Text)
      → Moves c Step.bbot_token (token_checked dumps loads env c t o)
  token_checked-Moves c t none = search (step_rules) depth 8
  token_checked-Moves c t (some n) = search (step_rules, token_menu) depth 8

  token_given-Moves : (c : ℤ) (t : Text) → Moves c Step.bbot_token (token_given dumps loads env c t)
  unfolding token_given
  token_given-Moves c t =
      Moves-before c Step.bbot_token _ _
        (check_token-Keeps (step_at c) (step_at-IsApart c) dumps loads env (extract_token t))
        (token_checked-Moves c _)

  begin-step : (c : ℤ) (w : Wiz) → step_at c (begin dumps loads env c w).1 ≡ Step.pair_tg
  unfolding begin step_at
  begin-step c w = ap (λ v. v.step) (conv_at-put_conv_same c _ w.convs)

  -- A forwarded message starts a pair with its channel.
  paired : (s t : Step) → s ⟶ Step.pair_tg → s ⟶ Step.pair_bale → Step.pair_tg ⟶ t → s ⟶ t
  paired s _ a b stay = a
  paired s _ a b tg_bale = b

  text_in_menu-Moves :
      (c : ℤ) (s : Step) (t : Text) (f : Forwarded)
      → s ⟶ Step.menu
      → s ⟶ Step.pair_tg
      → s ⟶ Step.pair_bale
      → Moves c s (text_in_menu dumps loads env c t f)
  unfolding text_in_menu begin
  text_in_menu-Moves c s t f e a b =
      Moves-if c s (is_forwarded f) _ _
        (record {
          moved = λ w p. paired s _ a b (
              (tg_resolve-Moves dumps loads env c Step.pair_tg t f tg_bale).moved _
                (begin-step c w));
        })
        (open_menu-Moves dumps loads env c s e)

  text_at-Moves :
      (c : ℤ) (s : Step) (t : Text) (f : Forwarded) → Moves c s (text_at dumps loads env s c t f)
  unfolding text_at
  text_at-Moves c Step.fresh t f = text_in_menu-Moves c _ t f fresh_menu fresh_pair fresh_paired
  text_at-Moves c Step.menu t f = text_in_menu-Moves c _ t f stay menu_pair menu_paired
  text_at-Moves c Step.tg_api_id t f = api_id_given-Moves dumps loads env c (api_id_of t)
  text_at-Moves c Step.tg_api_hash t f = api_hash_given-Moves dumps loads env c t
  text_at-Moves c Step.tg_phone t f = phone_given-Moves c t
  text_at-Moves c Step.tg_code t f = code_given-Moves c t
  text_at-Moves c Step.tg_password t f = password_given-Moves c t
  text_at-Moves c Step.bale_phone t f = bale_phone_given-Moves c t
  text_at-Moves c Step.bale_code t f = bale_code_given-Moves c t
  text_at-Moves c Step.bbot_token t f = token_given-Moves c t
  text_at-Moves c Step.pair_tg t f = tg_resolve-Moves dumps loads env c _ t f tg_bale
  text_at-Moves c Step.pair_bale t f = bale_resolve-Moves dumps loads env c t
  text_at-Moves c Step.pair_dir t f = open_menu-Moves dumps loads env c _ dir_menu

  entered : (c : ℤ) (w : Wiz) → step_at c (set_conv c (conv_of c w) w) ≡ step_at c w
  unfolding step_at
  entered c w = ap (λ v. v.step) (conv_at-put_conv_same c _ w.convs)

  same_start : (s s' t : Step) → s ≡ s' → s ⟶ t → s' ⟶ t
  same_start s s' t p e = rw (sym p) e

  -- A message moves the conversation of its chat along an edge of the diagram of the
  -- installation, or leaves it at its step, whatever it says and whatever the services answer.
  pub handle_text-Edge :
      (c : ℤ) (t : Text) (f : Forwarded) (w : Wiz)
      → step_at c w ⟶ step_at c (handle_text dumps loads env c t f w).1
  unfolding handle_text step_at
  handle_text-Edge c t f w =
      same_start _ _ _ (entered c w)
        ((text_at-Moves c _ (strip t) f).moved (set_conv c (conv_of c w) w) refl)
