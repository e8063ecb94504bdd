-- ===== src/Tests/Panel.antt =====
-- Tests of the admin bot, the dashboard, the transport and the Telegram account.
use tg_bale_bridge.Prelude.{
  Text, codes, ℕ, zero, suc, ◌≤◌, ◌<◌, ◌≡◌, refl, ◌⊎◌, Bool, true, false, none, some, List, [], ◌∷◌,
  map, arith,
}
use tg_bale_bridge.Prelude.Int.{ℤ, pos, int_eq}
use tg_bale_bridge.Prelude.Dict.{get}
use tg_bale_bridge.TgBot.{Message, Update, Effect, Bot, is_zero}
use tg_bale_bridge.TgBot.Laws.{updates, updates-owner}
use tg_bale_bridge.Dashboard.{Auth, fails_of, check_lock, register_fail}
use tg_bale_bridge.Dashboard.Laws.{register_all, check_lock-register_all}
use tg_bale_bridge.BotApi.{Reply, accepted, refused, network_error, returned, call}
use tg_bale_bridge.BotApi.Laws.{retried, call_recovers}
use tg_bale_bridge.BaleRouting.{Side, BaleUpdate}
use tg_bale_bridge.Listening.{Poll, poll_error, poll_updates, listen}
use tg_bale_bridge.Listening.Laws.{Acknowledged, brought, IsBehind, listen-Acknowledged}
use tg_bale_bridge.Tests.{bale_chat}

abbrev start_message : Message
start_message = record {
  chat_id = pos 8;
  private_chat = true;
  uid = some (pos 8);
  username = [];
  text = codes "/start";
  forwarded = false;
}

abbrev free_bot : Bot
free_bot = record {
  admin_tg_id = pos 0;
  stored_admin = pos 0;
  has_store = true;
  has_wizard = true;
  has_panel = true;
  effects = [];
}

abbrev owned_bot : Bot
owned_bot = let s = free_bot in record s { admin_tg_id = pos 3; stored_admin = pos 3 }

abbrev idle : List Effect → ℤ → Bool
idle es c = false

abbrev silent : List Effect → Message → Text
silent es m = []

abbrev knocks : List (Update × ℕ)
knocks = (record { callback_query = false; message = some start_message }, 1) ∷ []

updates-owner_example :
    ((updates idle silent knocks owned_bot).admin_tg_id ≡ pos 3)
    × ((updates idle silent knocks owned_bot).stored_admin ≡ pos 3)
unfolding is_zero int_eq
updates-owner_example = updates-owner idle silent knocks owned_bot refl

abbrev no_auth : Auth
no_auth = record { credentials = none; sessions = []; fails = [] }

abbrev ip : Text
ip = codes "10.0.0.1"

check_lock-register_all_example :
    check_lock 30 ip (register_fail 4 ip (register_all ip (0 ∷ 1 ∷ 2 ∷ 3 ∷ []) no_auth)) ≡ true
unfolding fails_of get
check_lock-register_all_example = check_lock-register_all ip (0 ∷ 1 ∷ 2 ∷ 3 ∷ []) 4 30 no_auth refl

-- The network fails once, and the server asks for a pause once.
abbrev bumpy : ℕ → Reply ℕ
bumpy zero = network_error []
bumpy (suc zero) = refused [] 429 2
bumpy (suc (suc j)) = accepted 7

bumpy-retried : (j : ℕ) → j < 2 → retried j (bumpy j) ≡ true
bumpy-retried zero h = refl
bumpy-retried (suc zero) h = refl
bumpy-retried (suc (suc j)) h = absurd (omega arith)

call_recovers_example : ((call bumpy).result ≡ returned 7) × ((call bumpy).requests ≡ 3)
call_recovers_example = call_recovers bumpy 2 7 (omega arith) bumpy-retried refl

abbrev gone : BaleUpdate
gone = record { deleted_messages = some (bale_chat, 9 ∷ []); edited = none; message = none }

abbrev full_side : Side
full_side = record { user_mode = true; admin_bale_id = pos 4; has_panel = true; has_bridge = true }

abbrev polls : List Poll
polls = poll_updates (7 ∷ 8 ∷ []) ∷ poll_error ∷ poll_updates (3 ∷ []) ∷ []

listen-Acknowledged_example :
    (map (λ c. c.0) (listen 5 polls).0 ≡ brought polls)
    × (((listen 5 polls).1 ≡ 5) ⊎ IsBehind (listen 5 polls).1 (brought polls))
    × (5 ≤ (listen 5 polls).1)
    × Acknowledged 5 (listen 5 polls).1 (listen 5 polls).0
listen-Acknowledged_example = listen-Acknowledged 5 polls
