-- ===== src/Wizard/Apart.antt =====
-- bridge/tguser/login.py, bridge/bale/login.py: what the logins leave alone, the conversations and
-- the database among it.
use tg_bale_bridge.Prelude.{Text, ℕ, ◌≡◌, ◌∙◌, Bool, Option, none, some}
use tg_bale_bridge.Prelude.Int.{ℤ}
use tg_bale_bridge.Prelude.Dict.{Dict, pop}
use tg_bale_bridge.RunCfg.{Value}
use tg_bale_bridge.Wizard.{
  get_me, SignIn, signed_in, password_needed, sign_in_refused, Outside, PendingLogin, Wiz, modify,
  ask, chat_key,
}
use tg_bale_bridge.Wizard.Keeps.{Keeps, IsQuiet, Keeps-ask, Keeps-bind, keep_rules}
use tg_bale_bridge.Wizard.Login.{
  LoginResult, new_code, start_waiting, request_with, request_code, finish_login, after_sign_in,
  sign_in_with, sign_in, password_with, password, keep_txn, bale_request_code, validate_with,
  bale_validate, check_token, client_with, ready_client, api_for_setup,
}

-- A part of the state that the logins keep nothing in.
pub record IsApart {X : Type 0} (f : Wiz → X) : Type 0 where
  pub quiet : IsQuiet f
  pub cfg_apart :
      (w : Wiz) (i : ℤ) (h : Text) → f (record w { cfg_api_id = i; cfg_api_hash = h }) ≡ f w
  pub pending_apart : (w : Wiz) (d : Dict PendingLogin) → f (record w { tg_pending = d }) ≡ f w
  pub txn_apart : (w : Wiz) (t : Option Text) → f (record w { bale_txn = t }) ≡ f w

module _ {X : Type 0} (f : Wiz → X) (apart : IsApart f) (dumps : Value → Text)
    (loads : Text → Option Value) (env : Outside) where
  part-IsQuiet : IsQuiet f
  part-IsQuiet = apart.quiet

  new_code-Keeps : (p : Text) (b : Bool) → Keeps f (new_code dumps loads env p b)
  unfolding new_code
  new_code-Keeps p b = search (keep_rules, part-IsQuiet)

  start_waiting-Keeps :
      (c : ℤ) (p : Text) (h : Option (Option Text)) → Keeps f (start_waiting dumps loads env c p h)
  start_waiting-Keeps c p none = search keep_rules
  start_waiting-Keeps c p (some h) = record { kept = λ w. apart.pending_apart w _ }

  cfg-Keeps :
      (i : ℤ) (h : Text) → Keeps f (modify (λ w. record w { cfg_api_id = i; cfg_api_hash = h }))
  cfg-Keeps i h = record { kept = λ w. apart.cfg_apart w i h }

  request_with-Keeps :
      (c : ℤ) (p : Text) (k : ℤ × Text) → Keeps f (request_with dumps loads env c p k)
  request_with-Keeps c p (aid, h) =
      search (keep_rules, part-IsQuiet, start_waiting-Keeps, new_code-Keeps, cfg-Keeps) depth 9

  pub request_code-Keeps :
      (c : ℤ) (p : Text) (i : Option ℕ) (h : Text) → Keeps f (request_code dumps loads env c p i h)
  unfolding request_code
  request_code-Keeps c p i h = search (keep_rules, request_with-Keeps)

  finish_login-Keeps : (c : ℤ) → Keeps f (finish_login dumps loads env c)
  unfolding finish_login
  finish_login-Keeps c =
      Keeps-bind f (ask env.me get_me) _ (Keeps-ask f part-IsQuiet env.me get_me) (λ u. record {
        kept = λ w.
            part-IsQuiet.asked_apart (record w { tg_pending = pop (chat_key c) w.tg_pending }) _
            ∙ apart.pending_apart w _;
      })

  after_sign_in-Keeps :
      (c : ℤ) (n : LoginResult) (s : SignIn) → Keeps f (after_sign_in dumps loads env c n s)
  after_sign_in-Keeps c n signed_in = finish_login-Keeps c
  after_sign_in-Keeps c n password_needed = search keep_rules
  after_sign_in-Keeps c n sign_in_refused = search keep_rules

  sign_in_with-Keeps :
      (c : ℤ) (t : Text) (p : Option PendingLogin) → Keeps f (sign_in_with dumps loads env c t p)
  sign_in_with-Keeps c t none = search keep_rules
  sign_in_with-Keeps c t (some p) = search (keep_rules, part-IsQuiet, after_sign_in-Keeps)

  pub sign_in-Keeps : (c : ℤ) (t : Text) → Keeps f (sign_in dumps loads env c t)
  unfolding sign_in
  sign_in-Keeps c t = search (keep_rules, sign_in_with-Keeps)

  password_with-Keeps :
      (c : ℤ) (t : Text) (p : Option PendingLogin) → Keeps f (password_with dumps loads env c t p)
  password_with-Keeps c t none = search keep_rules
  password_with-Keeps c t (some p) = search (keep_rules, part-IsQuiet, after_sign_in-Keeps)

  pub password-Keeps : (c : ℤ) (t : Text) → Keeps f (password dumps loads env c t)
  unfolding password
  password-Keeps c t = search (keep_rules, password_with-Keeps)

  txn-Keeps : (t : Option Text) → Keeps f (modify (λ w. record w { bale_txn = t }))
  txn-Keeps t = record { kept = λ w. apart.txn_apart w t }

  keep_txn-Keeps : (t : Option Text) → Keeps f (keep_txn dumps loads env t)
  keep_txn-Keeps none = search keep_rules
  keep_txn-Keeps (some t) = search (keep_rules, txn-Keeps)

  pub bale_request_code-Keeps : (p : Text) → Keeps f (bale_request_code dumps loads env p)
  unfolding bale_request_code
  bale_request_code-Keeps p = search (keep_rules, part-IsQuiet, keep_txn-Keeps)

  validate_with-Keeps : (t : Text) (o : Option Text) → Keeps f (validate_with dumps loads env t o)
  validate_with-Keeps t none = search keep_rules
  validate_with-Keeps t (some o) = search (keep_rules, part-IsQuiet, txn-Keeps)

  pub bale_validate-Keeps : (t : Text) → Keeps f (bale_validate dumps loads env t)
  unfolding bale_validate
  bale_validate-Keeps t = search (keep_rules, validate_with-Keeps)

  pub check_token-Keeps : (t : Text) → Keeps f (check_token dumps loads env t)
  unfolding check_token
  check_token-Keeps t = search (keep_rules, part-IsQuiet)

  client_with-Keeps : (k : ℤ × Text) → Keeps f (client_with dumps loads env k)
  client_with-Keeps (aid, h) = search (keep_rules, part-IsQuiet)

  pub ready_client-Keeps : Keeps f (ready_client dumps loads env)
  unfolding ready_client
  ready_client-Keeps = search (keep_rules, client_with-Keeps)

  pub api_for_setup-Keeps : Keeps f (api_for_setup dumps loads env)
  unfolding api_for_setup
  api_for_setup-Keeps = search (keep_rules, part-IsQuiet)
