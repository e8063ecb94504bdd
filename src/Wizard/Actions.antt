-- ===== src/Wizard/Actions.antt =====
-- bridge/wizard/facade.py: the buttons of the conversation. The dashboard's address and the promotion
-- of the bot are handed on.
use tg_bale_bridge.Prelude.{
  if◌then◌else◌, drop, Text, codes, text_eq, starts_with, not, ◌||◌, Option, ◌∷◌,
}
use tg_bale_bridge.Prelude.Int.{ℤ, pos, int_eq}
use tg_bale_bridge.Db.{Mode, tg2bale, bale2tg, both, other_mode}
use tg_bale_bridge.RunCfg.{Value}
use tg_bale_bridge.Wizard.{
  Step, no_answers, Notice, menu_text, prompt_tg, prompt_bale, prompt_bbot, Ask, show_dashboard,
  promote_bot, Outside, W, pure, ◌>>◌, modify, say, conv_of, set_conv,
}
use tg_bale_bridge.Wizard.Pairing.{begin, finish_pair, finish_install}
use tg_bale_bridge.Wizard.Conversation.{open_menu}

-- The modes that the pairs know; any other text is stored as it is.
abbrev pub mode_of : Text → Mode
mode_of t =
    if text_eq t (codes "both")
    then both
    else if text_eq t (codes "tg2bale")
    then tg2bale
    else if text_eq t (codes "bale2tg")
    then bale2tg
    else other_mode t

-- The actions behind "wiz:", in the order of the tests.
pub data Action : Type 0 where
  to_menu to_tg to_bale to_bbot to_pair to_dash to_promote to_status to_done : Action
  to_dir : Text → Action
  to_nothing : Action

abbrev pub action_of : Text → Action
action_of t =
    if text_eq t (codes "menu")
    then to_menu
    else if text_eq t (codes "tg")
    then to_tg
    else if text_eq t (codes "bale")
    then to_bale
    else if text_eq t (codes "bbot")
    then to_bbot
    else if text_eq t (codes "pair")
    then to_pair
    else if text_eq t (codes "dash")
    then to_dash
    else if text_eq t (codes "promote")
    then to_promote
    else if text_eq t (codes "status")
    then to_status
    else if text_eq t (codes "done")
    then to_done
    else if starts_with t (codes "dir:")
    then to_dir (drop 4 t)
    else to_nothing

module _ (dumps : Value → Text) (loads : Text → Option Value) (env : Outside) where
  -- What a button asks for.
  unfoldable pub restart_at : ℤ → Step → Notice → W (Unit {0})
  restart_at c s n = do modify (set_conv c (record { step = s; answers = no_answers })); say c n

  abbrev pub handed_on : Ask → W (Unit {0})
  handed_on a = modify (λ w. record w { asked = a ∷ w.asked })

  unfoldable pub act : ℤ → Action → W (Unit {0})
  unfolding open_menu restart_at
  act c to_menu = open_menu dumps loads env c
  act c to_tg = restart_at c Step.tg_api_id prompt_tg
  act c to_bale = restart_at c Step.bale_phone prompt_bale
  act c to_bbot = restart_at c Step.bbot_token prompt_bbot
  act c to_pair = begin dumps loads env c
  act c to_dash = handed_on (show_dashboard c)
  act c to_promote = handed_on (promote_bot c)
  act c to_status = say c menu_text
  act c to_done = finish_install dumps loads env c
  act c (to_dir mode) = finish_pair dumps loads env c (mode_of mode)
  act c to_nothing = pure tt

  -- A button; the chat 0 stands for one that is not there. The answer to the button is left out.
  unfoldable pub handle_callback : ℤ → Text → W (Unit {0})
  unfolding act
  handle_callback c payload =
      if int_eq c (pos 0) || not (starts_with payload (codes "wiz:"))
      then pure tt
      else (do modify (λ w. set_conv c (conv_of c w) w); act c (action_of (drop 4 payload)))
