-- ===== src/BaleClient/Failures.antt =====
-- bridge/bale: the exceptions of the client of a user account.
use tg_bale_bridge.Prelude.{Text, ℕ, ◌≡◌, Bool, true, false, Option, none, some, List, [], ◌∷◌}
use tg_bale_bridge.BaleClient.Account.{
  Answer, gave, threw, call_stop, UserInfo, Client, Account, pure, next_with, caught_by, ask,
  change, set_started, stop,
}
use tg_bale_bridge.BaleClient.Resolving.{Ref}
use tg_bale_bridge.BaleClient.Sending.{
  send_message, send_media, send_photo, send_video, send_voice, send_audio, send_document,
  send_animation, send_sticker, send_video_note, send_location, send_venue, send_contact, send_poll,
  send_dice, method_for, send_media_group, edit_message_caption, delete_message, download_with,
  download_file, file_with, get_file,
}
use tg_bale_bridge.BaleClient.Members.{load_names, get_me}
use tg_bale_bridge.BaleClient.Facade.{
  Request, get_me_of, stop_all, message, photo, video, voice, audio, document, animation, sticker,
  video_note, location, venue, contact, poll, dice, media_group, edit_text, edit_caption, delete,
  download, file_of, chat_info, make_admin, forward, chat_action, perform,
}
use tg_bale_bridge.BaleClient.Exceptions.{
  IsHandled, OnlyBotApi, OnlyBotApi-pure, OnlyBotApi-throw, handled,
}

module _ (k : Client) where
  send_message-OnlyBotApi :
      (ref : Ref) (t : Text) (reply : ℕ) → OnlyBotApi (send_message k ref t reply)
  unfolding send_message
  send_message-OnlyBotApi ref t reply = search handled

  send_media-OnlyBotApi :
      (method kw file : Text) (ref : Ref) (caption : Text) (reply : ℕ)
      → OnlyBotApi (send_media k method kw file ref caption reply)
  unfolding send_media
  send_media-OnlyBotApi method kw file ref caption reply = search handled

  send_animation-OnlyBotApi :
      (ref : Ref) (f caption : Text) (reply : ℕ) → OnlyBotApi (send_animation k ref f caption reply)
  unfolding send_animation send_document
  send_animation-OnlyBotApi ref f caption reply = search (handled, send_media-OnlyBotApi)

  method_for-OnlyBotApi :
      (kind : Text) (ref : Ref) (f caption : Text) (reply : ℕ)
      → OnlyBotApi (method_for k kind ref f caption reply)
  unfolding method_for send_photo send_video send_voice send_audio send_document
  method_for-OnlyBotApi kind ref f caption reply =
      search (handled, send_media-OnlyBotApi, send_animation-OnlyBotApi) depth 12

  send_media_group-OnlyBotApi :
      (ref : Ref) (items : List (Text × Text × Text)) (reply : ℕ)
      → OnlyBotApi (send_media_group k ref items reply)
  unfolding send_media_group
  send_media_group-OnlyBotApi ref [] reply = search handled
  send_media_group-OnlyBotApi ref ((kind, file, caption) ∷ items) reply = search (
    handled,
    method_for-OnlyBotApi kind ref file caption reply,
    send_media_group-OnlyBotApi ref items reply,
  )

  delete_message-OnlyBotApi : (ref : Ref) (m : ℕ) → OnlyBotApi (delete_message k ref m)
  unfolding delete_message
  delete_message-OnlyBotApi ref m = search handled

  download_with-OnlyBotApi : (f dest : Text) (h : Option ℕ) → OnlyBotApi (download_with k f dest h)
  download_with-OnlyBotApi f dest none = search handled
  download_with-OnlyBotApi f dest (some h) = search handled

  download_file-OnlyBotApi : (f dest : Text) → OnlyBotApi (download_file k f dest)
  unfolding download_file
  download_file-OnlyBotApi f dest = search (handled, download_with-OnlyBotApi f dest)

  load_names-OnlyBotApi : (i : UserInfo) → OnlyBotApi (load_names k i)
  load_names-OnlyBotApi i = search handled

  get_me-OnlyBotApi : OnlyBotApi (get_me k)
  unfolding get_me
  get_me-OnlyBotApi = search (handled, load_names-OnlyBotApi)

  stop-OnlyBotApi : OnlyBotApi (stop k)
  unfolding stop
  stop-OnlyBotApi = record { always = λ a. stopped (ask k.act call_stop a) }
    where
      stopped :
          (r : Answer (Unit {0}) × Account)
          → IsHandled (next_with (λ _. change (set_started false)) (caught_by (λ e. pure tt) r)).0
      stopped (gave x, a) = tt
      stopped (threw e, a) = tt

file_with-OnlyBotApi : (f : Text) (h : Option ℕ) → OnlyBotApi (file_with f h)
file_with-OnlyBotApi f none = search handled
file_with-OnlyBotApi f (some h) = search handled

get_file-OnlyBotApi : (f : Text) → OnlyBotApi (get_file f)
unfolding get_file
get_file-OnlyBotApi f = search (handled, file_with-OnlyBotApi f)

-- All methods but `get_chat` and `add_admin`, which start the client outside of a `try`.
abbrev is_guarded : Request → Bool
is_guarded (chat_info ref) = false
is_guarded (make_admin chat user title) = false
is_guarded _ = true

module _ (k : Client) where
  -- Whatever the client of aiobale does.
  perform-OnlyBotApi : (r : Request) → is_guarded r ≡ true → OnlyBotApi (perform k r)
  unfolding perform send_photo send_video send_voice send_audio send_document send_sticker
      send_video_note send_location send_venue send_contact send_poll send_dice edit_message_caption
  perform-OnlyBotApi (chat_info ref) h = cc
  perform-OnlyBotApi (make_admin chat user title) h = cc
  perform-OnlyBotApi (forward a b m) h = OnlyBotApi-throw _
  perform-OnlyBotApi (chat_action a b) h = OnlyBotApi-pure _
  perform-OnlyBotApi (get_me_of) h = search (handled, get_me-OnlyBotApi k)
  perform-OnlyBotApi (stop_all) h = search (handled, stop-OnlyBotApi k)
  perform-OnlyBotApi (download f d) h = search (handled, download_file-OnlyBotApi k)
  perform-OnlyBotApi (file_of f) h = search (handled, get_file-OnlyBotApi)
  perform-OnlyBotApi (media_group r i n) h = search (handled, send_media_group-OnlyBotApi k)
  perform-OnlyBotApi (delete r m) h = search (handled, delete_message-OnlyBotApi k)
  perform-OnlyBotApi (edit_text r m t) h = search handled
  perform-OnlyBotApi (edit_caption r m t) h = search handled
  perform-OnlyBotApi (animation r f c n) h = search (handled, send_animation-OnlyBotApi k)
  perform-OnlyBotApi (message r t n) h = search (handled, send_message-OnlyBotApi k)
  perform-OnlyBotApi (location r g n) h = search (handled, send_message-OnlyBotApi k)
  perform-OnlyBotApi (venue r g a b n) h = search (handled, send_message-OnlyBotApi k)
  perform-OnlyBotApi (contact r c n) h = search (handled, send_message-OnlyBotApi k)
  perform-OnlyBotApi (poll r q o) h = search (handled, send_message-OnlyBotApi k)
  perform-OnlyBotApi (dice r e) h = search (handled, send_message-OnlyBotApi k)
  perform-OnlyBotApi (photo r f c n) h = search (handled, send_media-OnlyBotApi k)
  perform-OnlyBotApi (video r f c n) h = search (handled, send_media-OnlyBotApi k)
  perform-OnlyBotApi (voice r f c n) h = search (handled, send_media-OnlyBotApi k)
  perform-OnlyBotApi (audio r f c n) h = search (handled, send_media-OnlyBotApi k)
  perform-OnlyBotApi (document r f c n) h = search (handled, send_media-OnlyBotApi k)
  perform-OnlyBotApi (sticker r f n) h = search (handled, send_media-OnlyBotApi k)
  perform-OnlyBotApi (video_note r f n) h = search (handled, send_media-OnlyBotApi k)

  -- Whatever the client of aiobale does, and in whatever state the account is, a method other
  -- than `get_chat` and `add_admin` returns, or raises a `BotAPIError`.
  pub perform-IsHandled :
      (r : Request) (a : Account) → is_guarded r ≡ true → IsHandled (perform k r a).0
  perform-IsHandled r a h = (perform-OnlyBotApi r h).always a
