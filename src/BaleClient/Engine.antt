-- ===== src/BaleClient/Engine.antt =====
-- bridge/bale with bridge/transfer: the client of a user account as the Bale client of the engine.
-- The engine names a chat by the text of its identifier. The state of the account at a call is what
-- the earlier calls have made of it; the other platform and the files are those of `base`.
pub mod Laws
use tg_bale_bridge.Prelude.{Text, ℕ, true, Option, none, some, List, [], ◌∷◌}
use tg_bale_bridge.BaleClient.Account.{
  Failure, bot_api, other, Answer, gave, threw, Client, Account,
}
use tg_bale_bridge.BaleClient.Resolving.{Ref, name}
use tg_bale_bridge.BaleClient.Facade.{
  Request, message, photo, video, voice, audio, document, animation, sticker, video_note, location,
  contact, media_group, edit_text, edit_caption, delete, download, Response, message_id,
  message_ids, perform,
}
use tg_bale_bridge.Transfer.Types.{Kind, kind_name}
use tg_bale_bridge.Transfer.Exec.{
  Exc, bot_api_error, other_error, Outcome, ok, raised, Call, bale_send_message, bale_send_contact,
  bale_send_location, bale_send_media, bale_send_media_group, bale_edit_message_text,
  bale_edit_message_caption, bale_delete_message, bale_download_file, Env,
}

abbrev reply_number : Option ℕ → ℕ
reply_number none = 0
reply_number (some m) = m

abbrev media_request : Kind → Ref → Text → Text → ℕ → Request
media_request Kind.photo = photo
media_request Kind.video = video
media_request Kind.voice = voice
media_request Kind.audio = audio
media_request Kind.animation = animation
media_request Kind.sticker = λ ref f caption reply. sticker ref f reply
media_request Kind.video_note = λ ref f caption reply. video_note ref f reply
media_request _ = document

abbrev group_items : List (Kind × Text × Text) → List (Text × Text × Text)
group_items [] = []
group_items ((kind, file, caption) ∷ items) = (kind_name kind, file, caption) ∷ group_items items

-- The method that a call of the engine is; none for a call of the Telegram client.
request_for : Call → Option Request
unfolding kind_name
request_for (bale_send_message c t reply) = some (message (name c) t (reply_number reply))
request_for (bale_send_contact c who reply) = some (contact (name c) who (reply_number reply))
request_for (bale_send_location c g reply) = some (location (name c) g (reply_number reply))
request_for (bale_send_media kind c f caption reply) =
    some (media_request kind (name c) f caption (reply_number reply))
request_for (bale_send_media_group c items reply) =
    some (media_group (name c) (group_items items) (reply_number reply))
request_for (bale_edit_message_text c m t) = some (edit_text (name c) m t)
request_for (bale_edit_message_caption c m t) = some (edit_caption (name c) m t)
request_for (bale_delete_message c m) = some (delete (name c) m)
request_for (bale_download_file f dest) = some (download f dest)
request_for _ = none

abbrev exc_of : Failure → Exc
exc_of (bot_api t) = bot_api_error
exc_of (other t) = other_error

abbrev created : Answer Response → Outcome ℕ
created (gave (message_id m)) = ok m
created (gave r) = ok 0
created (threw e) = raised (exc_of e)

abbrev created_group : Answer Response → Outcome (List ℕ)
created_group (gave (message_ids ms)) = ok ms
created_group (gave r) = ok []
created_group (threw e) = raised (exc_of e)

abbrev acted : Answer Response → Outcome (Unit {0})
acted (gave r) = ok tt
acted (threw e) = raised (exc_of e)

module _ (k : Client) (start : Account) where
  abbrev after_request : Option Request → Account → Account
  after_request none a = a
  after_request (some r) a = (perform k r a).1

  -- The account after the calls, latest first.
  pub account_after : List Call → Account
  unfolding request_for
  account_after [] = start
  account_after (c ∷ cs) = after_request (request_for c) (account_after cs)

  abbrev answer_or : {A : Type 0} → (Answer Response → A) → A → Option Request → Account → A
  answer_or f d none a = d
  answer_or f d (some r) a = f (perform k r a).0

  -- `has_delete_events` of `BaleUserAPI`
  pub account_env : Env → Env
  unfolding account_after request_for
  account_env base = record base {
    send = λ cs c. answer_or created (base.send cs c) (request_for c) (account_after cs);
    send_group =
        λ cs c. answer_or created_group (base.send_group cs c) (request_for c) (account_after cs);
    act = λ cs c. answer_or acted (base.act cs c) (request_for c) (account_after cs);
    has_delete_events = true;
  }
