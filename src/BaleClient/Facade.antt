-- ===== src/BaleClient/Facade.antt =====
-- bridge/bale/facade.py: `BaleUserAPI`, the client that the bridge is given for a user account. Each
-- method passes its arguments on to one engine; a request is a method with its arguments, and a
-- response is what it returns.
use tg_bale_bridge.Prelude.{Text, codes, ℕ, List, [], ◌∷◌, ◌++◌}
use tg_bale_bridge.Prelude.Int.{ℤ}
use tg_bale_bridge.BaleClient.Account.{
  bot_api, UserInfo, Client, Account, Act, pure, throw, ◌>>=◌, stop,
}
use tg_bale_bridge.BaleClient.Resolving.{Ref}
use tg_bale_bridge.BaleClient.Sending.{
  send_message, send_photo, send_video, send_voice, send_audio, send_document, send_animation,
  send_sticker, send_video_note, send_location, send_venue, send_contact, send_poll, send_dice,
  send_media_group, edit_message_text, edit_message_caption, delete_message, download_file,
  get_file,
}
use tg_bale_bridge.BaleClient.Members.{ChatInfo, add_admin, get_me, get_chat}
use tg_bale_bridge.Transfer.Types.{Contact, Geo}

pub data Request : Type 0 where
  get_me_of stop_all : Request
  message : Ref → Text → ℕ → Request
  photo video voice audio document animation : Ref → Text → Text → ℕ → Request
  sticker video_note : Ref → Text → ℕ → Request
  location : Ref → Geo → ℕ → Request
  venue : Ref → Geo → Text → Text → ℕ → Request
  contact : Ref → Contact → ℕ → Request
  poll : Ref → Text → List Text → Request
  dice : Ref → Text → Request
  media_group : Ref → List (Text × Text × Text) → ℕ → Request
  edit_text edit_caption : Ref → ℕ → Text → Request
  delete : Ref → ℕ → Request
  download : Text → Text → Request
  file_of : Text → Request
  chat_info : Ref → Request
  make_admin : Ref → Ref → Text → Request
  forward : Ref → Ref → ℕ → Request
  chat_action : Ref → Text → Request

pub data Response : Type 0 where
  message_id : ℕ → Response
  message_ids : List ℕ → Response
  path_or_hash : Text → ℕ → Response
  about_chat : ChatInfo → Response
  about_user : UserInfo → Response
  admin_of : ℤ → ℤ → Response
  nothing : Response

abbrev pub giving : {A : Type 0} → (A → Response) → Act A → Act Response
giving f m = m >>= λ x. pure (f x)

-- The text of the error of `forward_message`.
abbrev no_forwards : Text
no_forwards =
    codes "forward_message"
    ++ (32 ∷ 1583 ∷ 1585 ∷ 32 ∷ 1581 ∷ 1575 ∷ 1604 ∷ 1578 ∷ 32 ∷ 1587 ∷ 1604 ∷ 1601 ∷ 8204 ∷ 1576
        ∷ 1575 ∷ 1578 ∷ 32 ∷ 1662 ∷ 1588 ∷ 1578 ∷ 1740 ∷ 1576 ∷ 1575 ∷ 1606 ∷ 1740 ∷ 32 ∷ 1606
        ∷ 1605 ∷ 1740 ∷ 8204 ∷ 1588 ∷ 1608 ∷ 1583 ∷ [])

module _ (k : Client) where
  unfoldable pub perform : Request → Act Response
  perform get_me_of = giving about_user (get_me k)
  perform stop_all = giving (λ u. nothing) (stop k)
  perform (message ref text reply) = giving message_id (send_message k ref text reply)
  perform (photo ref f caption reply) = giving message_id (send_photo k ref f caption reply)
  perform (video ref f caption reply) = giving message_id (send_video k ref f caption reply)
  perform (voice ref f caption reply) = giving message_id (send_voice k ref f caption reply)
  perform (audio ref f caption reply) = giving message_id (send_audio k ref f caption reply)
  perform (document ref f caption reply) = giving message_id (send_document k ref f caption reply)
  perform (animation ref f caption reply) = giving message_id (send_animation k ref f caption reply)
  perform (sticker ref f reply) = giving message_id (send_sticker k ref f reply)
  perform (video_note ref f reply) = giving message_id (send_video_note k ref f reply)
  perform (location ref g reply) = giving message_id (send_location k ref g reply)
  perform (venue ref g title address reply) =
      giving message_id (send_venue k ref g title address reply)
  perform (contact ref c reply) = giving message_id (send_contact k ref c reply)
  perform (poll ref question options) = giving message_id (send_poll k ref question options)
  perform (dice ref emoji) = giving message_id (send_dice k ref emoji)
  perform (media_group ref items reply) = giving message_ids (send_media_group k ref items reply)
  perform (edit_text ref m text) = giving message_id (edit_message_text k ref m text)
  perform (edit_caption ref m text) = giving message_id (edit_message_caption k ref m text)
  perform (delete ref m) = giving (λ u. nothing) (delete_message k ref m)
  perform (download f dest) = giving (λ d. path_or_hash d 0) (download_file k f dest)
  perform (file_of f) = giving (λ (r : Text × ℕ). path_or_hash r.0 r.1) (get_file f)
  perform (chat_info ref) = giving about_chat (get_chat k ref)
  perform (make_admin chat user title) =
      giving (λ (r : ℤ × ℤ). admin_of r.0 r.1) (add_admin k chat user title)
  perform (forward ref from m) = throw (bot_api no_forwards)
  perform (chat_action ref action) = pure nothing

  -- The requests, one after the other; a request that fails does not stop the next one.
  unfoldable pub perform_all : List Request → Account → Account
  unfolding perform
  perform_all [] a = a
  perform_all (r ∷ rs) a = perform_all rs (perform r a).1
