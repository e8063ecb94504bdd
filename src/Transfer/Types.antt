-- ===== src/Transfer/Types.antt =====
-- bridge/transfer/types_map.py: the kinds of messages, and the messages as both clients give them.
-- Only the attributes that the engine reads are fields. An empty text, the number 0 and an empty
-- list stand for `None` wherever the code tests a value for truth.
use tg_bale_bridge.Prelude.{
  if◌then◌else◌, null, Text, codes, ℕ, Bool, true, false, not, ◌||◌, Option, none, some, List, [],
  ◌∷◌, ◌++◌,
}
use tg_bale_bridge.Prelude.Int.{ℤ}
use tg_bale_bridge.Textfmt.TgToBale.{TgEntity}
use tg_bale_bridge.Textfmt.Headers.{or_text, Forward, ForwardChat, ForwardUser}
use tg_bale_bridge.Textfmt.Renderers.{Poll, Dice, Venue}

pub data Kind : Type 0 where
  poll dice contact venue location service photo video video_note voice audio animation : Kind
  sticker game document text unsupported : Kind

unfoldable pub kind_name : Kind → Text
kind_name Kind.poll = codes "poll"
kind_name Kind.dice = codes "dice"
kind_name Kind.contact = codes "contact"
kind_name Kind.venue = codes "venue"
kind_name Kind.location = codes "location"
kind_name Kind.service = codes "service"
kind_name Kind.photo = codes "photo"
kind_name Kind.video = codes "video"
kind_name Kind.video_note = codes "video_note"
kind_name Kind.voice = codes "voice"
kind_name Kind.audio = codes "audio"
kind_name Kind.animation = codes "animation"
kind_name Kind.sticker = codes "sticker"
kind_name Kind.game = codes "game"
kind_name Kind.document = codes "document"
kind_name Kind.text = codes "text"
kind_name Kind.unsupported = codes "unsupported"

-- GROUPABLE
pub is_groupable : Kind → Bool
is_groupable Kind.photo = true
is_groupable Kind.video = true
is_groupable Kind.document = true
is_groupable Kind.audio = true
is_groupable _ = false

-- The classes of `msg.media` that `tg_kind` tells apart.
pub data TgMedia : Type 0 where
  no_media poll_media dice_media contact_media venue_media geo_media geo_live_media : TgMedia
  other_media : TgMedia

pub record Contact : Type 0 where
  pub phone_number : Text
  pub first_name : Text
  pub last_name : Text

-- Coordinates, as the client writes them.
pub record Geo : Type 0 where
  pub latitude : Text
  pub longitude : Text

pub record TgMsg : Type 0 where
  pub id : ℕ
  pub chat_id : ℤ
  pub message : Text
  pub entities : List TgEntity
  pub media : TgMedia
  pub action : Option Text
  pub photo : Bool
  pub video : Bool
  pub video_note : Bool
  pub voice : Bool
  pub audio : Bool
  pub gif : Bool
  pub sticker : Bool
  pub game : Bool
  pub document : Bool
  pub text : Text
  pub grouped_id : ℕ
  pub reply_to_msg_id : ℕ
  pub forward : Option Forward
  pub poll : Option Poll
  pub dice : Option Dice
  pub venue : Option Venue
  pub contact : Contact
  pub geo : Geo

-- The tests of `tg_kind` on the message's own attributes, after those on the class of the media.
kind_by_flags : TgMsg → Kind
kind_by_flags msg =
    if msg.photo
    then Kind.photo
    else if msg.video
    then Kind.video
    else if msg.video_note
    then Kind.video_note
    else if msg.voice
    then Kind.voice
    else if msg.audio
    then Kind.audio
    else if msg.gif
    then Kind.animation
    else if msg.sticker
    then Kind.sticker
    else if msg.game
    then Kind.game
    else if msg.document
    then Kind.document
    else if not (null msg.text) || not (null msg.message)
    then Kind.text
    else Kind.unsupported

abbrev kind_by_action : Option Text → TgMsg → Kind
kind_by_action none msg = kind_by_flags msg
kind_by_action (some name) msg = Kind.service

abbrev kind_by_media : TgMedia → TgMsg → Kind
kind_by_media poll_media msg = Kind.poll
kind_by_media dice_media msg = Kind.dice
kind_by_media contact_media msg = Kind.contact
kind_by_media venue_media msg = Kind.venue
kind_by_media geo_media msg = Kind.location
kind_by_media geo_live_media msg = Kind.location
kind_by_media no_media msg = kind_by_action msg.action msg
kind_by_media other_media msg = kind_by_action msg.action msg

pub tg_kind : TgMsg → Kind
unfolding kind_by_flags
tg_kind msg = kind_by_media msg.media msg

pub record FileInfo : Type 0 where
  pub file_id : Text
  pub file_name : Text
  pub file_size : ℕ
  pub mime_type : Text

pub record BaleMsg : Type 0 where
  pub message_id : ℕ
  pub chat : Text  -- str(m["chat"]["id"]), the only form that the engine uses
  pub chat_username : Text
  pub text : Text
  pub caption : Text
  pub photo : List FileInfo
  pub animation : Option FileInfo
  pub video : Option FileInfo
  pub audio : Option FileInfo
  pub voice : Option FileInfo
  pub sticker : Option FileInfo
  pub document : Option FileInfo
  pub contact : Option Contact
  pub location : Option Geo
  pub media_group_id : Text
  pub reply_to_message : Option ℕ
  pub forward_from_chat : Option ForwardChat
  pub forward_from : Option ForwardUser

-- The dict that `bale_content` returns; keys that a kind lacks have the empty value.
pub record Content : Type 0 where
  pub kind : Kind
  pub text : Text
  pub file : FileInfo
  pub contact : Contact
  pub location : Geo

abbrev no_file : FileInfo
no_file = record { file_id = []; file_name = []; file_size = 0; mime_type = [] }

abbrev no_contact : Contact
no_contact = record { phone_number = []; first_name = []; last_name = [] }

abbrev no_geo : Geo
no_geo = record { latitude = []; longitude = [] }

abbrev plain_content : Kind → Text → Content
plain_content kind t = record {
  kind = kind;
  text = t;
  file = no_file;
  contact = no_contact;
  location = no_geo;
}

abbrev file_content : Kind → Text → FileInfo → Content
file_content kind t f = record (plain_content kind t) { file = f }

-- `sizes[-1]`, with the name and type that a photo gets
abbrev photo_file : FileInfo → List FileInfo → FileInfo
photo_file f [] = record f { file_name = codes "photo.jpg"; mime_type = codes "image/jpeg" }
photo_file f (g ∷ gs) = photo_file g gs

-- The loop over the six kinds of files.
abbrev first_file : Text → List (Kind × Option FileInfo) → Option Content
first_file t [] = none
first_file t ((kind, none) ∷ rest) = first_file t rest
first_file t ((kind, some f) ∷ rest) = some (file_content kind t f)

abbrev bale_files : BaleMsg → List (Kind × Option FileInfo)
bale_files m =
    (Kind.animation, m.animation)
    ∷ (Kind.video, m.video)
    ∷ (Kind.audio, m.audio)
    ∷ (Kind.voice, m.voice)
    ∷ (Kind.sticker, m.sticker)
    ∷ (Kind.document, m.document)
    ∷ []

abbrev content_after_files : Option Contact → Option Geo → Text → Text → Content
content_after_files (some c) loc body t = record (plain_content Kind.contact t) { contact = c }
content_after_files none (some loc) body t = record (plain_content Kind.location t) {
  location = loc;
}
content_after_files none none body t =
    plain_content (if null body then Kind.unsupported else Kind.text) t

abbrev content_by_file : Option Content → BaleMsg → Text → Content
content_by_file (some c) m t = c
content_by_file none m t = content_after_files m.contact m.location m.text t

abbrev content_by_photo : List FileInfo → BaleMsg → Text → Content
content_by_photo [] m t = content_by_file (first_file t (bale_files m)) m t
content_by_photo (f ∷ fs) m t = file_content Kind.photo t (photo_file f fs)

pub bale_content : BaleMsg → Content
bale_content m = content_by_photo m.photo m (or_text m.text m.caption)

-- The hexadecimal SHA-1 digest is a parameter: a function of the text that is hashed.
pub fingerprint : (Text → Text) → Kind → Text → Text
unfolding kind_name
fingerprint sha1 kind t = sha1 (kind_name kind ++ (b'|' ∷ t))
