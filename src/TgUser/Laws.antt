-- ===== src/TgUser/Laws.antt =====
-- bridge/tguser/routing.py: the saved messages, and the key of a chat.
use tg_bale_bridge.Prelude.{ℕ, ◌≡◌, refl, ap, true, false, some, List, arith}
use tg_bale_bridge.Prelude.Int.{ℤ, str_int, int_eq}
use tg_bale_bridge.ChatId.{bare_chat_id}
use tg_bale_bridge.ChatId.Laws.{bare_chat_id_idempotent}
use tg_bale_bridge.Transfer.Types.{TgMsg}
use tg_bale_bridge.Transfer.MirrorT2b.Mirror.{tg_key}
use tg_bale_bridge.Transfer.Queueing.{Bridge, on_tg_delete}
use tg_bale_bridge.TgUser.{is_saved_messages, on_new, on_edit, on_delete}

-- Messages, edits and deletions in the saved messages leave the bridge as it is.
saved_messages_stay :
    (my_tg_id : ℤ) (msg : TgMsg) (ids : List ℕ) (b : Bridge)
    → int_eq msg.chat_id my_tg_id ≡ true
    → ((on_new my_tg_id msg b).1 ≡ b)
      × (on_edit my_tg_id msg b ≡ b)
      × (on_delete my_tg_id (some msg.chat_id) ids b ≡ b)
unfolding on_new on_edit on_delete is_saved_messages
saved_messages_stay my_tg_id msg ids b h = ground arith

-- The deletion of messages of any chat but the saved messages reaches the bridge under the key
-- under which the chat's new messages and edits are known, though the identifier is made bare
-- twice on the way.
on_delete_key :
    (my_tg_id c : ℤ) (ids : List ℕ) (b : Bridge)
    → int_eq c my_tg_id ≡ false
    → (tg_key (bare_chat_id c) ≡ tg_key c)
      × (on_delete my_tg_id (some c) ids b ≡ on_tg_delete c ids b)
unfolding on_delete on_tg_delete
on_delete_key my_tg_id c ids b h =
    let same = ap str_int (bare_chat_id_idempotent c) in (same, rw (h, same) refl)
