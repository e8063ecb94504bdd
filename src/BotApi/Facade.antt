-- ===== src/BotApi/Facade.antt =====
-- bridge/botapi/facade.py: `BotAPI`, the client that the bridge is given for a bot. The requests are
-- those of the client of a user account; `BotAPI` has no method for some of them. Each method builds
-- its request by one engine, and `call` sends it.
use tg_bale_bridge.Prelude.{Text, ℕ, zero, suc, Option, none, some}
use tg_bale_bridge.Prelude.Int.{str_int}
use tg_bale_bridge.BaleClient.Resolving.{Ref, number, name}
use tg_bale_bridge.BaleClient.Facade.{
  Request, get_me_of, stop_all, message, location, venue, contact, poll, dice, media_group,
  edit_text, edit_caption, delete, download, file_of, chat_info, make_admin, forward, chat_action,
}
use tg_bale_bridge.BotApi.Methods.{
  ApiRequest, get_me, get_chat, send_message, send_chat_action, edit_message_text,
  edit_message_caption, delete_message, forward_message, get_file, MediaKind, send_media, send_bare,
  send_location, send_contact, send_media_group,
}

-- A chat is sent as it is named.
abbrev chat_text : Ref → Text
chat_text (number n) = str_int n
chat_text (name t) = t

abbrev reply_to : ℕ → Option ℕ
reply_to zero = none
reply_to (suc m) = some (suc m)

request_of : Request → Option ApiRequest
request_of get_me_of = some get_me
request_of (message c t r) = some (send_message (chat_text c) t (reply_to r) none)
request_of (Request.photo c f caption r) =
    some (send_media MediaKind.photo (chat_text c) f caption (reply_to r))
request_of (Request.video c f caption r) =
    some (send_media MediaKind.video (chat_text c) f caption (reply_to r))
request_of (Request.animation c f caption r) =
    some (send_media MediaKind.animation (chat_text c) f caption (reply_to r))
request_of (Request.audio c f caption r) =
    some (send_media MediaKind.audio (chat_text c) f caption (reply_to r))
request_of (Request.voice c f caption r) =
    some (send_media MediaKind.voice (chat_text c) f caption (reply_to r))
request_of (Request.document c f caption r) =
    some (send_media MediaKind.document (chat_text c) f caption (reply_to r))
request_of (Request.sticker c f r) = some (send_bare MediaKind.sticker (chat_text c) f (reply_to r))
request_of (Request.video_note c f r) =
    some (send_bare MediaKind.video_note (chat_text c) f (reply_to r))
request_of (location c g r) = some (send_location (chat_text c) g.latitude g.longitude (reply_to r))
request_of (contact c who r) =
    some (send_contact (chat_text c) who.phone_number who.first_name who.last_name (reply_to r))
request_of (media_group c items r) = some (send_media_group (chat_text c) items (reply_to r))
request_of (edit_text c m t) = some (edit_message_text (chat_text c) m t)
request_of (edit_caption c m t) = some (edit_message_caption (chat_text c) m t)
request_of (delete c m) = some (delete_message (chat_text c) m)
request_of (file_of f) = some (get_file f)
request_of (download f dest) = some (get_file f)
request_of (chat_info c) = some (get_chat (chat_text c))
request_of (forward c from m) = some (forward_message (chat_text c) (chat_text from) m)
request_of (chat_action c action) = some (send_chat_action (chat_text c) action)
request_of stop_all = none
request_of (venue c g title address r) = none
request_of (poll c question options) = none
request_of (dice c emoji) = none
request_of (make_admin c user title) = none
