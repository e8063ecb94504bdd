-- ===== src/Tests/Setup.antt =====
-- Tests of the setup wizard.
use tg_bale_bridge.Prelude.{codes, text_eq, ◌≡◌, refl, true, false, none, some, [], ◌∷◌}
use tg_bale_bridge.Prelude.Int.{pos, str_int}
use tg_bale_bridge.Db.{empty_db}
use tg_bale_bridge.Transfer.Exec.{ok, raised, other_error}
use tg_bale_bridge.Wizard.{Step, no_answers, Conv, sign_in_refused, Outside, Wiz, chat_key, conv_of}
use tg_bale_bridge.Wizard.Pairing.{not_forwarded}
use tg_bale_bridge.Wizard.Conversation.{handle_text}
use tg_bale_bridge.Wizard.Edges.{step_at}
use tg_bale_bridge.Wizard.Edges.{◌⟶◌}
use tg_bale_bridge.Wizard.Walk.{handle_text-Edge}
use tg_bale_bridge.Wizard.Safety.{Event, message, button, NobodySignsIn, events, account}
use tg_bale_bridge.Wizard.Safety.{message, button}
use tg_bale_bridge.Wizard.Chats.{events-Elsewhere, account_unsigned}
use tg_bale_bridge.Tests.Settings.{write, read, read-write}

-- Services of which Telegram refuses every code and password.
abbrev closed : Outside
closed = record {
  authorized = λ l a. ok false;
  send_code = λ l a. ok (some (codes "h"));
  sign_in = λ l a. sign_in_refused;
  me = λ l a. ok tt;
  phone_auth = λ l a. ok (some (codes "t"));
  valid_code = λ l a. ok true;
  entity = λ l a. raised other_error;
  user_started = λ l a. true;
  chat = λ l a. raised other_error;
  bot_name = λ l a. ok (codes "bot");
  tg_session_exists = λ l. false;
  bale_session_exists = λ l. false;
  now = λ l. 5;
  bale_token = [];
  bale_user_mode = false;
}

abbrev asked_for_code : Conv
asked_for_code = record { step = Step.tg_code; answers = no_answers }

abbrev started : Wiz
started = record {
  convs = (chat_key (pos 7), asked_for_code) ∷ [];
  db = empty_db;
  tg_pending = [];
  bale_txn = none;
  cfg_api_id = pos 0;
  cfg_api_hash = [];
  restarting = false;
  said = [];
  asked = [];
}

abbrev given_code : Event
given_code = message (pos 7) (codes "12345") not_forwarded

abbrev menu_pressed : Event
menu_pressed = button (pos 7) (codes "wiz:tg")

handle_text-Edge_example :
    step_at (pos 7) started
    ⟶ step_at
        (pos 7)
        (handle_text write read closed (pos 7) (codes "12345") not_forwarded started).1
handle_text-Edge_example =
    handle_text-Edge write read closed (pos 7) (codes "12345") not_forwarded started

events-Elsewhere_example :
    conv_of (pos 8) (events write read closed (given_code ∷ menu_pressed ∷ []) started)
    ≡ conv_of (pos 8) started
unfolding text_eq str_int
events-Elsewhere_example =
    events-Elsewhere write read closed (pos 8) (given_code ∷ menu_pressed ∷ []) started
      (refl, (refl, tt))

closed-NobodySignsIn : NobodySignsIn closed
closed-NobodySignsIn = record { refused = λ l a p. cc }

account_unsigned_example :
    account write read closed (events write read closed (given_code ∷ menu_pressed ∷ []) started)
    ≡ account write read closed started
account_unsigned_example =
    account_unsigned write read read-write closed (given_code ∷ menu_pressed ∷ []) started
      closed-NobodySignsIn
