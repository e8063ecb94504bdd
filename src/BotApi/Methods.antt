-- ===== src/BotApi/Methods.antt =====
-- bridge/botapi: the methods of the Bot API as requests (facade.py, methods.py, sender.py, files.py,
-- types_map.py): the name of a method, its parameters, and the files that go with it. A chat is named
-- by a text; coordinates and markup are texts, and files are paths. An empty caption stands for `None`.
use tg_bale_bridge.Prelude.{
  take, Text, codes, rstrip_char, ℕ, suc, Option, none, some, List, [], ◌∷◌, ◌++◌,
}
use tg_bale_bridge.Prelude.Int.{ℤ, pos, str_nat}
use tg_bale_bridge.Prelude.Dict.{Dict, assign}
use tg_bale_bridge.Textfmt.Headers.{or_text}

-- One entry of the argument `media` of an album.
pub record Media : Type 0 where
  pub type : Text
  pub media : Text
  pub caption : Text

pub data Param : Type 0 where
  int_param : ℤ → Param
  text_param : Text → Param
  media_param : List Media → Param

pub record ApiRequest : Type 0 where
  pub method : Text
  pub params : List (Text × Param)
  pub files : Dict Text

-- The parameters that are `None` are left out (`call`).
pub given : List (Text × Option Param) → List (Text × Param)
given [] = []
given ((k, none) ∷ ps) = given ps
given ((k, some p) ∷ ps) = (k, p) ∷ given ps

abbrev optional_number : Option ℕ → Option Param
optional_number none = none
optional_number (some n) = some (int_param (pos n))

abbrev optional_text : Text → Option Param
optional_text [] = none
optional_text (c ∷ cs) = some (text_param (c ∷ cs))

abbrev chat : Text → Text × Option Param
chat c = (codes "chat_id", some (text_param c))

abbrev text_at : Text → Text → Text × Option Param
text_at k t = (k, some (text_param t))

abbrev number_at : Text → ℕ → Text × Option Param
number_at k n = (k, some (int_param (pos n)))

abbrev message_of : ℕ → Text × Option Param
message_of m = number_at (codes "message_id") m

abbrev reply : Option ℕ → Text × Option Param
reply r = (codes "reply_to_message_id", optional_number r)

abbrev plain : Text → List (Text × Option Param) → ApiRequest
plain method ps = record { method = method; params = given ps; files = [] }

unfoldable pub get_me : ApiRequest
get_me = plain (codes "getMe") []

unfoldable pub get_chat : Text → ApiRequest
get_chat c = plain (codes "getChat") (chat c ∷ [])

get_updates : Option ℕ → ℕ → ApiRequest
get_updates offset timeout = plain (codes "getUpdates") (
    (codes "offset", optional_number offset)
    ∷ number_at (codes "timeout") timeout
    ∷ number_at (codes "limit") 100
    ∷ [])

unfoldable pub send_message : Text → Text → Option ℕ → Option Text → ApiRequest
send_message c text r markup = plain (codes "sendMessage") (
    chat c
    ∷ text_at (codes "text") text
    ∷ reply r
    ∷ (codes "reply_markup", elim markup [ none ↦ none | some t ↦ some (text_param t) ])
    ∷ [])

pub send_chat_action : Text → Text → ApiRequest
send_chat_action c action =
    plain (codes "sendChatAction") (chat c ∷ text_at (codes "action") action ∷ [])

unfoldable pub edit_message_text : Text → ℕ → Text → ApiRequest
edit_message_text c m text =
    plain (codes "editMessageText") (chat c ∷ message_of m ∷ text_at (codes "text") text ∷ [])

unfoldable pub edit_message_caption : Text → ℕ → Text → ApiRequest
edit_message_caption c m caption =
    plain (codes "editMessageCaption")
      (chat c ∷ message_of m ∷ text_at (codes "caption") caption ∷ [])

unfoldable pub delete_message : Text → ℕ → ApiRequest
delete_message c m = plain (codes "deleteMessage") (chat c ∷ message_of m ∷ [])

pub forward_message : Text → Text → ℕ → ApiRequest
forward_message c from m =
    plain (codes "forwardMessage")
      (chat c ∷ text_at (codes "from_chat_id") from ∷ message_of m ∷ [])

unfoldable pub get_file : Text → ApiRequest
get_file f = plain (codes "getFile") (text_at (codes "file_id") f ∷ [])

-- The keys of MEDIA_METHODS.
pub data MediaKind : Type 0 where
  photo video animation audio voice document sticker video_note : MediaKind

-- MEDIA_METHODS: the method, and the field of the file.
media_method : MediaKind → Text × Text
media_method photo = (codes "sendPhoto", codes "photo")
media_method video = (codes "sendVideo", codes "video")
media_method animation = (codes "sendAnimation", codes "animation")
media_method audio = (codes "sendAudio", codes "audio")
media_method voice = (codes "sendVoice", codes "voice")
media_method document = (codes "sendDocument", codes "document")
media_method sticker = (codes "sendSticker", codes "sticker")
media_method video_note = (codes "sendVideoNote", codes "video_note")

-- `_send_media`, with no extra parameters.
send_file : Text → Text → Text → Text → Text → Option ℕ → ApiRequest
unfolding given
send_file method field c path caption r = record {
  method = method;
  params = given (chat c ∷ (codes "caption", optional_text caption) ∷ reply r ∷ []);
  files = (field, path) ∷ [];
}

unfoldable pub send_media : MediaKind → Text → Text → Text → Option ℕ → ApiRequest
unfolding media_method send_file
send_media kind c path caption r =
    let (method, field) = media_method kind in send_file method field c path caption r

-- `send_sticker` and `send_video_note` have no caption.
pub send_bare : MediaKind → Text → Text → Option ℕ → ApiRequest
unfolding send_media
send_bare kind c path r = send_media kind c path [] r

unfoldable pub send_location : Text → Text → Text → Option ℕ → ApiRequest
send_location c latitude longitude r = plain (codes "sendLocation") (
    chat c
    ∷ text_at (codes "latitude") latitude
    ∷ text_at (codes "longitude") longitude
    ∷ reply r
    ∷ [])

unfoldable pub send_contact : Text → Text → Text → Text → Option ℕ → ApiRequest
send_contact c phone first last r = plain (codes "sendContact") (
    chat c
    ∷ text_at (codes "phone_number") phone
    ∷ text_at (codes "first_name") first
    ∷ text_at (codes "last_name") last
    ∷ reply r
    ∷ [])

-- MEDIA_GROUP_CAPTION_MAX
abbrev pub group_caption_max : ℕ
group_caption_max = 1024

-- A kind, a path and a caption.
abbrev pub Item : Type 0
Item = Text × Text × Text

abbrev pub file_key : ℕ → Text
file_key i = b'f' ∷ str_nat i

abbrev attach_prefix : Text
attach_prefix = codes "attach://"

abbrev item_media : ℕ → Item → Media
item_media i (type, path, caption) = record {
  type = type;
  media = attach_prefix ++ file_key i;
  caption = take group_caption_max caption;
}

-- `enumerate`, from a number on.
unfoldable pub media_from : ℕ → List Item → List Media
media_from i [] = []
media_from i (x ∷ xs) = item_media i x ∷ media_from (suc i) xs

unfoldable pub files_from : ℕ → List Item → Dict Text → Dict Text
files_from i [] d = d
files_from i ((type, path, caption) ∷ xs) d = files_from (suc i) xs (assign (file_key i) path d)

unfoldable pub build_media_group : List Item → Dict Text × List Media
unfolding media_from files_from
build_media_group items = (files_from 0 items [], media_from 0 items)

unfoldable pub send_media_group : Text → List Item → Option ℕ → ApiRequest
unfolding build_media_group given
send_media_group c items r =
    let (files, media) = build_media_group items in
    record {
      method = codes "sendMediaGroup";
      params = given (chat c ∷ (codes "media", some (media_param media)) ∷ reply r ∷ []);
      files = files;
    }

abbrev base_default : Text
base_default = codes "https://tapi.bale.ai"

normalize_base : Text → Text
unfolding rstrip_char
normalize_base base = rstrip_char b'/' (or_text base base_default)

build_url : Text → Text → Text → Text
build_url base token method = base ++ (codes "/bot" ++ (token ++ (b'/' ∷ method)))

build_file_url : Text → Text → Text → Text
build_file_url base token path = base ++ (codes "/file/bot" ++ (token ++ (b'/' ∷ path)))

-- `download_file`, up to the download: where the file is, or none for the `BotAPIError`.
download_url : Text → Text → Text → Option Text
unfolding build_file_url
download_url base token [] = none
download_url base token (c ∷ cs) = some (build_file_url base token (c ∷ cs))
