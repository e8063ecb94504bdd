-- ===== src/Wizard/Buttons.antt =====
-- bridge/wizard/facade.py, bridge/wizard/finish.py: what the buttons of one chat leave alone.
use tg_bale_bridge.Prelude.{
  drop, Text, codes, starts_with, ℕ, ◌≡◌, ◌∙◌, Bool, true, not, ◌||◌, Option, none, some,
}
use tg_bale_bridge.Prelude.Int.{ℤ, pos, int_eq}
use tg_bale_bridge.Db.{Mode, PairRow, Table}
use tg_bale_bridge.RunCfg.{Value, set_json}
use tg_bale_bridge.Wizard.{
  Step, ChatInfo, Notice, prompt_tg, prompt_bale, prompt_bbot, access_report, pair_stored, Ask,
  show_dashboard, promote_bot, Outside, Wiz, ◌>>◌, modify, say, to_step,
}
use tg_bale_bridge.Wizard.Keeps.{Keeps, Keeps-pure, Keeps-if, Keeps-bind, keep_rules}
use tg_bale_bridge.Wizard.Login.{store}
use tg_bale_bridge.Wizard.Pairing.{
  incomplete, add_chosen, store_pair, finish_with, finish_pair, finish_install,
}
use tg_bale_bridge.Wizard.Actions.{
  mode_of, Action, to_menu, to_tg, to_bale, to_bbot, to_pair, to_dash, to_promote, to_status,
  to_done, to_dir, to_nothing, action_of, restart_at, handed_on, act, handle_callback,
}
use tg_bale_bridge.Wizard.Far.{IsFar, far_rules, begin-far, open_menu-far, enter-far}
use tg_bale_bridge.Db.Pairs.{add_pair}

-- A part that neither the pairs nor the end of the installation are a part of.
pub record IsFarther {X : Type 0} (dumps : Value → Text) (loads : Text → Option Value) (c : ℤ)
    (f : Wiz → X) : Type 0 where
  pub far : IsFar dumps loads c f
  pub done_apart :
      (w : Wiz) (v : Value)
      → f (record w { db = set_json dumps loads (codes "install_done_at") v w.db }) ≡ f w
  pub pairs_apart :
      (w : Wiz) (d : Table PairRow) → f (record w { db = record w.db { pairs = d } }) ≡ f w
  pub restart_apart : (w : Wiz) (b : Bool) → f (record w { restarting = b }) ≡ f w

module _ {X : Type 0} (dumps : Value → Text) (loads : Text → Option Value) (env : Outside) (c : ℤ)
    (f : Wiz → X) (farther : IsFarther dumps loads c f) where
  part-IsFar : IsFar dumps loads c f
  part-IsFar = farther.far

  incomplete-far : Keeps f (incomplete dumps loads env c)
  unfolding incomplete
  incomplete-far = search (far_rules, part-IsFar)

  Keeps-done :
      (v : Value)
      → Keeps f (store dumps loads env (set_json dumps loads (codes "install_done_at") v))
  Keeps-done v = record { kept = λ w. farther.done_apart w v }

  Keeps-restart : Keeps f (modify (λ w. record w { restarting = true }))
  Keeps-restart = record { kept = λ w. farther.restart_apart w true }

  finish_install-far : Keeps f (finish_install dumps loads env c)
  unfolding finish_install
  finish_install-far = search (far_rules, part-IsFar, Keeps-done, Keeps-restart) depth 9

  stored_pair-far :
      (p : ℕ) → Keeps f (do to_step c Step.menu; say c (pair_stored p); say c access_report)
  stored_pair-far p = search (far_rules, part-IsFar) depth 8

  store_pair-far : (t b : ChatInfo) (m : Mode) → Keeps f (store_pair dumps loads env c t b m)
  unfolding store_pair add_pair
  store_pair-far t b m = record {
    kept = λ w.
        (stored_pair-far w.db.pairs.next).kept
          (record w { db = (add_chosen dumps loads env t b m w).1 })
        ∙ farther.pairs_apart w _;
  }

  finish_with-far :
      (m : Mode) (t b : Option ChatInfo) → Keeps f (finish_with dumps loads env c m t b)
  finish_with-far m (some t) (some b) = store_pair-far t b m
  finish_with-far m (some t) none = incomplete-far
  finish_with-far m none b = incomplete-far

  finish_pair-far : (m : Mode) → Keeps f (finish_pair dumps loads env c m)
  unfolding finish_pair
  finish_pair-far m = search (keep_rules, finish_with-far)

  restart_at-far : (s : Step) (n : Notice) → Keeps f (restart_at dumps loads env c s n)
  unfolding restart_at
  restart_at-far s n = search (far_rules, part-IsFar)

  handed_on-far : (a : Ask) → Keeps f (handed_on dumps loads env a)
  handed_on-far a = record { kept = λ w. farther.far.apart.quiet.asked_apart w _ }

  act-far : (a : Action) → Keeps f (act dumps loads env c a)
  unfolding act
  act-far to_menu = open_menu-far dumps loads env c f part-IsFar
  act-far to_tg = restart_at-far Step.tg_api_id prompt_tg
  act-far to_bale = restart_at-far Step.bale_phone prompt_bale
  act-far to_bbot = restart_at-far Step.bbot_token prompt_bbot
  act-far to_pair = begin-far dumps loads env c f part-IsFar
  act-far to_dash = handed_on-far (show_dashboard c)
  act-far to_promote = handed_on-far (promote_bot c)
  act-far to_status = search (far_rules, part-IsFar)
  act-far to_done = finish_install-far
  act-far (to_dir m) = finish_pair-far (mode_of m)
  act-far to_nothing = search (keep_rules)

  pub button-far : (payload : Text) → Keeps f (handle_callback dumps loads env c payload)
  unfolding handle_callback
  button-far payload =
      Keeps-if f (int_eq c (pos 0) || not (starts_with payload (codes "wiz:"))) _ _
        (Keeps-pure f tt)
        (Keeps-bind f _ _ (enter-far dumps loads env c f part-IsFar)
          (λ u. act-far (action_of (drop 4 payload))))
