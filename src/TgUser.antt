-- ===== src/TgUser.antt =====
-- bridge/tguser/routing.py and bridge/tguser/types_map.py: the events of the Telegram account,
-- which go to the admin panel if they come from the saved messages, and to the bridge otherwise.
pub mod Laws
use tg_bale_bridge.Prelude.{
  if◌then◌else◌, null, Text, strip, ℕ, Bool, true, false, not, ◌||◌, Option, none, some, List,
}
use tg_bale_bridge.Prelude.Int.{ℤ, int_eq}
use tg_bale_bridge.ChatId.{bare_chat_id}
use tg_bale_bridge.Textfmt.Headers.{Forward}
use tg_bale_bridge.Transfer.Types.{TgMsg}
use tg_bale_bridge.Transfer.Queueing.{Bridge, on_tg_new, on_tg_edit, on_tg_delete}

pub is_saved_messages : TgMsg → ℤ → Bool
is_saved_messages msg my_tg_id = int_eq msg.chat_id my_tg_id

pub text_of : TgMsg → Text
text_of msg = strip msg.message

abbrev is_there : Option Forward → Bool
is_there none = false
is_there (some f) = true

has_forward : TgMsg → Bool
has_forward msg = is_there msg.forward

-- What is handed to the panel, and the bridge afterwards. The panel's answer is not modelled.
pub on_new : ℤ → TgMsg → Bridge → Option Text × Bridge
unfolding is_saved_messages text_of has_forward
on_new my_tg_id msg b =
    if is_saved_messages msg my_tg_id
    then (if not (null (text_of msg)) || has_forward msg
        then (some (text_of msg), b)
        else (none, b))
    else (none, on_tg_new msg b)

pub on_edit : ℤ → TgMsg → Bridge → Bridge
on_edit my_tg_id msg b = if is_saved_messages msg my_tg_id then b else on_tg_edit msg b

-- A deletion whose event names no chat is ignored.
pub on_delete : ℤ → Option ℤ → List ℕ → Bridge → Bridge
on_delete my_tg_id none deleted_ids b = b
on_delete my_tg_id (some c) deleted_ids b =
    if int_eq c my_tg_id then b else on_tg_delete (bare_chat_id c) deleted_ids b
