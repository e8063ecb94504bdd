-- ===== src/BaleClient/Sending.antt =====
-- bridge/bale: what a user account sends, edits, deletes and downloads (sender.py, editor.py,
-- files.py, `snapshot_result` of session.py). Files are paths. An empty caption stands for `None`.
use tg_bale_bridge.Prelude.{
  ◌==◌, if◌then◌else◌, Text, codes, text_eq, strip, ℕ, Option, none, some, List, [], ◌∷◌, ◌++◌,
}
use tg_bale_bridge.Prelude.Int.{ℤ, int_of}
use tg_bale_bridge.BaleClient.{ChatType, remember_date, date_for, access_hash_for}
use tg_bale_bridge.BaleClient.Account.{
  bot_api, call_send_message, call_send_media, call_edit_message, call_delete_message,
  call_download_file, Sent, Client, Act, pure, throw, ◌>>=◌, ◌>>◌, wrapped, wrapped_all,
  try_bot_api, ask, use_session, change, start, type_for,
}
use tg_bale_bridge.BaleClient.Resolving.{Ref, parsed, resolve_id, reply_ref}
use tg_bale_bridge.Transfer.Types.{Contact, Geo}

-- `message_id`, or else `id`, or else `rid`
abbrev pub sent_id : Sent → ℕ
sent_id m = if m.message_id == 0 then (if m.id == 0 then m.rid else m.id) else m.message_id

abbrev pub last_sent : Sent → List Sent → Sent
last_sent m [] = m
last_sent m (n ∷ ns) = last_sent n ns

unfoldable pub snapshot_result : ℤ → List Sent → Act ℕ
snapshot_result c [] = pure 0
snapshot_result c (m ∷ ms) =
    let l = last_sent m ms in change (remember_date c (sent_id l) l.date) >> pure (sent_id l)

-- The mark before an option: a small white square with its variation selector, and a space.
abbrev option_mark : Text
option_mark = 9643 ∷ 65039 ∷ 32 ∷ []

-- `"\n".join(mark + o for o in options)`
abbrev option_lines : List Text → Text
option_lines [] = []
option_lines (o ∷ []) = option_mark ++ o
option_lines (o ∷ p ∷ ps) = option_mark ++ (o ++ (10 ∷ option_lines (p ∷ ps)))

abbrev map_link : Geo → Text
map_link g = codes "https://maps.google.com/?q=" ++ (g.latitude ++ (44 ∷ g.longitude))

module _ (k : Client) where
  -- The chat of a reference with its type; the client is started first.
  unfoldable pub target : Ref → Act (ℤ × ChatType)
  target ref = do start k; c ← resolve_id k ref; t ← type_for k c; pure (c, t)

  abbrev send_text_to : Text → ℕ → ℤ × ChatType → Act ℕ
  send_text_to text reply (c, t) = do
    r ← reply_ref c reply
    sent ← ask k.send (call_send_message text c t r)
    snapshot_result c sent

  unfoldable pub send_message : Ref → Text → ℕ → Act ℕ
  unfolding target
  send_message ref text reply =
      wrapped (codes "send_message") (target ref >>= send_text_to text reply)

  abbrev pub send_media_to : Text → Text → Text → Text → ℕ → ℤ × ChatType → Act ℕ
  send_media_to method file_kw file caption reply (c, t) = do
    r ← reply_ref c reply
    sent ← ask k.send (call_send_media method file_kw file c t caption r)
    snapshot_result c sent

  -- `_send_media`: the method, the name of the file's argument, the file, the chat, the caption.
  unfoldable pub send_media : Text → Text → Text → Ref → Text → ℕ → Act ℕ
  unfolding target
  send_media method file_kw file ref caption reply =
      wrapped method (target ref >>= send_media_to method file_kw file caption reply)

  unfoldable pub send_photo : Ref → Text → Text → ℕ → Act ℕ
  send_photo ref file = send_media (codes "send_photo") (codes "photo") file ref

  unfoldable pub send_video : Ref → Text → Text → ℕ → Act ℕ
  send_video ref file = send_media (codes "send_video") (codes "video") file ref

  unfoldable pub send_voice : Ref → Text → Text → ℕ → Act ℕ
  send_voice ref file = send_media (codes "send_voice") (codes "voice") file ref

  unfoldable pub send_audio : Ref → Text → Text → ℕ → Act ℕ
  send_audio ref file = send_media (codes "send_audio") (codes "audio") file ref

  unfoldable pub send_document : Ref → Text → Text → ℕ → Act ℕ
  send_document ref file = send_media (codes "send_document") (codes "file") file ref

  unfoldable pub send_animation : Ref → Text → Text → ℕ → Act ℕ
  unfolding send_document
  send_animation ref file caption reply =
      try_bot_api (send_media (codes "send_gif") (codes "gif") file ref caption reply)
        (send_document ref file caption reply)

  unfoldable pub send_sticker : Ref → Text → ℕ → Act ℕ
  unfolding send_document
  send_sticker ref file reply = send_document ref file [] reply

  unfoldable pub send_video_note : Ref → Text → ℕ → Act ℕ
  unfolding send_video
  send_video_note ref file reply = send_video ref file [] reply

  unfoldable pub send_location : Ref → Geo → ℕ → Act ℕ
  send_location ref g reply = send_message ref (codes "📍 " ++ map_link g) reply

  unfoldable pub send_venue : Ref → Geo → Text → Text → ℕ → Act ℕ
  send_venue ref g title address reply =
      send_message ref (codes "📍 " ++ (title ++ (10 ∷ (address ++ (10 ∷ map_link g))))) reply

  unfoldable pub send_contact : Ref → Contact → ℕ → Act ℕ
  send_contact ref c reply =
      send_message ref
        (strip (codes "👤 " ++ (c.first_name ++ (32 ∷ c.last_name))) ++ (10 ∷ c.phone_number)) reply

  unfoldable pub send_poll : Ref → Text → List Text → Act ℕ
  send_poll ref question options =
      send_message ref (codes "📊 " ++ (question ++ (10 ∷ option_lines options))) 0

  unfoldable pub send_dice : Ref → Text → Act ℕ
  send_dice ref emoji = send_message ref (strip (codes "🎲 " ++ emoji)) 0

  -- `method_map.get(kind, self.send_document)`
  unfoldable pub method_for : Text → Ref → Text → Text → ℕ → Act ℕ
  unfolding send_photo send_video send_animation send_audio send_voice send_document
  method_for kind ref file caption reply =
      if text_eq kind (codes "photo")
      then send_photo ref file caption reply
      else if text_eq kind (codes "video")
      then send_video ref file caption reply
      else if text_eq kind (codes "animation")
      then send_animation ref file caption reply
      else if text_eq kind (codes "audio")
      then send_audio ref file caption reply
      else if text_eq kind (codes "voice")
      then send_voice ref file caption reply
      else send_document ref file caption reply

  -- The items are kinds, files and captions; each is sent on its own.
  unfoldable pub send_media_group : Ref → List (Text × Text × Text) → ℕ → Act (List ℕ)
  unfolding method_for
  send_media_group ref [] reply = pure []
  send_media_group ref ((kind, file, caption) ∷ items) reply = do
    m ← method_for kind ref file caption reply
    ms ← send_media_group ref items reply
    pure (m ∷ ms)

  abbrev edit_at : ℕ → Text → ℤ × ChatType → Act ℕ
  edit_at m text (c, t) = ask k.act (call_edit_message text m c t) >> pure m

  unfoldable pub edit_message_text : Ref → ℕ → Text → Act ℕ
  unfolding target
  edit_message_text ref m text = wrapped_all (codes "edit_message") (target ref >>= edit_at m text)

  unfoldable pub edit_message_caption : Ref → ℕ → Text → Act ℕ
  unfolding edit_message_text
  edit_message_caption ref m caption = edit_message_text ref m caption

  abbrev pub delete_at : ℕ → ℤ × ChatType → Act (Unit {0})
  delete_at m (c, t) = do
    date ← use_session (date_for c m)
    ask k.act (call_delete_message m date c t)

  unfoldable pub delete_message : Ref → ℕ → Act (Unit {0})
  unfolding target
  delete_message ref m = wrapped_all (codes "delete_message") (target ref >>= delete_at m)

  abbrev pub download_with : Text → Text → Option ℕ → Act Text
  download_with f dest none = throw (bot_api (codes "no access_hash cached for file " ++ f))
  download_with f dest (some h) =
      wrapped_all (codes "download_file")
        (do start k; i ← parsed (int_of f); ask k.act (call_download_file i h dest); pure dest)

  unfoldable pub download_file : Text → Text → Act Text
  download_file f dest = use_session (access_hash_for f) >>= download_with f dest

abbrev pub file_with : Text → Option ℕ → Act (Text × ℕ)
file_with f none = throw (bot_api (codes "no access_hash cached for file " ++ f))
file_with f (some h) = pure (f, h)

unfoldable pub get_file : Text → Act (Text × ℕ)
get_file f = use_session (access_hash_for f) >>= file_with f
