-- ===== src/Wizard/Safety.antt =====
-- bridge/wizard: messages and buttons as events, and a login that Telegram refuses.
use tg_bale_bridge.Prelude.{Text, codes, ◌≡◌, refl, ap, ◌∙◌, ◌≢◌, Option, none, some, List, [], ◌∷◌}
use tg_bale_bridge.Prelude.Int.{ℤ}
use tg_bale_bridge.Prelude.Dict.{get}
use tg_bale_bridge.RunCfg.{Value, set_tg_self}
use tg_bale_bridge.Transfer.Exec.{Outcome, ok, raised}
use tg_bale_bridge.Wizard.{
  Ask, SignIn, signed_in, password_needed, sign_in_refused, Outside, PendingLogin, Wiz, W, continue,
  chat_key,
}
use tg_bale_bridge.Wizard.Keeps.{Keeps, Keeps-bind, keep_rules}
use tg_bale_bridge.Wizard.Apart.{sign_in-Keeps, password-Keeps}
use tg_bale_bridge.Wizard.Login.{
  LoginResult, login_ok, login_needs_password, login_failed, stored, store, after_sign_in,
  sign_in_with, sign_in, password_with, password,
}
use tg_bale_bridge.Wizard.Pairing.{Forwarded}
use tg_bale_bridge.Wizard.Conversation.{
  keep_tg_self, code_answered, code_given, password_answered, password_given, handle_text,
}
use tg_bale_bridge.Wizard.Actions.{handle_callback}
use tg_bale_bridge.Wizard.Far.{
  IsFar, far-IsQuiet, Keeps-to_step, Keeps-with_answers, handle_text-far,
}

-- What the chats and the buttons send.
pub data Event : Type 0 where
  message : ℤ → Text → Forwarded → Event
  button : ℤ → Text → Event

-- Telegram has let nobody in.
pub record NobodySignsIn (env : Outside) : Type 0 where
  pub refused : (l : List Ask) (a : Ask) → env.sign_in l a ≢ signed_in

module _ (dumps : Value → Text) (loads : Text → Option Value) (env : Outside) where
  -- An exception of a handler is caught by its caller, after what was done before it.
  unfoldable pub event : Event → Wiz → Wiz
  event (message c t f) w = (handle_text dumps loads env c t f w).1
  event (button c payload) w = (handle_callback dumps loads env c payload w).1

  unfoldable pub events : List Event → Wiz → Wiz
  events [] w = w
  events (e ∷ es) w = events es (event e w)

  -- `tg_self`, the account that the bridge reads Telegram with.
  abbrev pub account : Wiz → Value
  account w = stored dumps loads env (codes "tg_self") w

module _ {X : Type 0} (dumps : Value → Text) (loads : Text → Option Value) (env : Outside) (c : ℤ)
    (f : Wiz → X) (far : IsFar dumps loads c f) where
  -- The account is stored after a login: for a part that this does not change.
  module _
      (self_apart : (w : Wiz) (p : Text)
        → f (record w { db = set_tg_self dumps loads p w.db }) ≡ f w) where
    Keeps-self : (p : Text) → Keeps f (store dumps loads env (set_tg_self dumps loads p))
    Keeps-self p = record { kept = λ w. self_apart w p }

    keep_tg_self-far : Keeps f (keep_tg_self dumps loads env c)
    unfolding keep_tg_self
    keep_tg_self-far = search (keep_rules, Keeps-self, Keeps-to_step dumps loads env c f far)

    code_answered-far : (r : LoginResult) → Keeps f (code_answered dumps loads env c r)
    code_answered-far login_ok = search (
      keep_rules,
      far-IsQuiet dumps loads env c f far,
      keep_tg_self-far,
      Keeps-with_answers dumps loads env c f far,
    )
    code_answered-far login_needs_password =
        search
          (keep_rules, far-IsQuiet dumps loads env c f far, Keeps-to_step dumps loads env c f far)
    code_answered-far login_failed = search (keep_rules, far-IsQuiet dumps loads env c f far)

    code_given-far : (t : Text) → Keeps f (code_given dumps loads env c t)
    unfolding code_given
    code_given-far t =
        Keeps-bind f _ _ (sign_in-Keeps f far.apart dumps loads env c t) code_answered-far

    password_answered-far : (r : LoginResult) → Keeps f (password_answered dumps loads env c r)
    password_answered-far login_ok =
        search (keep_rules, far-IsQuiet dumps loads env c f far, keep_tg_self-far)
    password_answered-far login_needs_password =
        search (keep_rules, far-IsQuiet dumps loads env c f far)
    password_answered-far login_failed = search (keep_rules, far-IsQuiet dumps loads env c f far)

    password_given-far : (t : Text) → Keeps f (password_given dumps loads env c t)
    unfolding password_given
    password_given-far t =
        Keeps-bind f _ _ (password-Keeps f far.apart dumps loads env c t) password_answered-far

    pub text-far : (t : Text) (o : Forwarded) → Keeps f (handle_text dumps loads env c t o)
    text-far = handle_text-far dumps loads env c f far code_given-far password_given-far

  -- Nor is it stored if nobody signs in.
  module _ (nobody : NobodySignsIn env) where
    after_sign_in_refused :
        (n : LoginResult) (s : SignIn) (w : Wiz)
        → n ≢ login_ok
        → s ≢ signed_in
        → (after_sign_in dumps loads env c n s w).0 ≢ ok login_ok
    after_sign_in_refused n signed_in w hn hs = absurd (hs refl)
    after_sign_in_refused n password_needed w hn hs = λ p. hn (cc)
    after_sign_in_refused n sign_in_refused w hn hs = λ p. cc

    sign_in_with-refused :
        (t : Text) (p : Option PendingLogin) (w : Wiz)
        → (sign_in_with dumps loads env c t p w).0 ≢ ok login_ok
    sign_in_with-refused t none w = λ p. cc
    sign_in_with-refused t (some p) w =
        after_sign_in_refused login_needs_password _ _ (λ p. cc) (nobody.refused _ _)

    password_with-refused :
        (t : Text) (p : Option PendingLogin) (w : Wiz)
        → (password_with dumps loads env c t p w).0 ≢ ok login_ok
    password_with-refused t none w = λ p. cc
    password_with-refused t (some p) w =
        after_sign_in_refused login_failed _ _ (λ p. cc) (nobody.refused _ _)

    continue-refused :
        {B : Type 0} (k : LoginResult → W B) (r : Outcome LoginResult × Wiz) (x : X)
        → r.0 ≢ ok login_ok
        → ((a : LoginResult) → a ≢ login_ok → Keeps f (k a))
        → f r.1 ≡ x
        → f (continue k r).1 ≡ x
    continue-refused k (ok a, w) x h kk p = (kk a (λ q. h (ap ok q))).kept w ∙ p
    continue-refused k (raised e, w) x h kk p = p

    code_refused-far :
        (r : LoginResult) → r ≢ login_ok → Keeps f (code_answered dumps loads env c r)
    code_refused-far login_ok h = absurd (h refl)
    code_refused-far login_needs_password h =
        search
          (keep_rules, far-IsQuiet dumps loads env c f far, Keeps-to_step dumps loads env c f far)
    code_refused-far login_failed h = search (keep_rules, far-IsQuiet dumps loads env c f far)

    password_refused-far :
        (r : LoginResult) → r ≢ login_ok → Keeps f (password_answered dumps loads env c r)
    password_refused-far login_ok h = absurd (h refl)
    password_refused-far login_needs_password h =
        search (keep_rules, far-IsQuiet dumps loads env c f far)
    password_refused-far login_failed h = search (keep_rules, far-IsQuiet dumps loads env c f far)

    code_given_refused-far : (t : Text) → Keeps f (code_given dumps loads env c t)
    unfolding code_given sign_in
    code_given_refused-far t = record {
      kept = λ w.
          continue-refused _ _ _ (sign_in_with-refused t (get (chat_key c) w.tg_pending) w)
            code_refused-far ((sign_in-Keeps f far.apart dumps loads env c t).kept w);
    }

    password_given_refused-far : (t : Text) → Keeps f (password_given dumps loads env c t)
    unfolding password_given password
    password_given_refused-far t = record {
      kept = λ w.
          continue-refused _ _ _ (password_with-refused t (get (chat_key c) w.tg_pending) w)
            password_refused-far ((password-Keeps f far.apart dumps loads env c t).kept w);
    }

    pub text_refused-far : (t : Text) (o : Forwarded) → Keeps f (handle_text dumps loads env c t o)
    text_refused-far =
        handle_text-far dumps loads env c f far code_given_refused-far password_given_refused-far
