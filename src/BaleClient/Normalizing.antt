-- ===== src/BaleClient/Normalizing.antt =====
-- bridge/bale/normalize.py: the messages of aiobale in the form of the Bot API, and what they leave in
-- the caches; with the classification of documents (types_map.py).
use tg_bale_bridge.Prelude.{
  if◌then◌else◌, Text, codes, text_eq, starts_with, ends_with, ℕ, zero, suc, Bool, true, false,
  ◌||◌, Option, none, some, [], ◌∷◌,
}
use tg_bale_bridge.Prelude.Int.{ℤ, pos, str_int}
use tg_bale_bridge.Prelude.Dict.{get, assign}
use tg_bale_bridge.Textfmt.Headers.{or_text}
use tg_bale_bridge.BaleClient.{
  ChatType, private, group, channel, group_or_channel, ChatMeta, Session, chat_type_name, chat_key,
  note_type, remember_date, remember_file,
}
use tg_bale_bridge.Transfer.Types.{Kind, FileInfo, BaleMsg}
use tg_bale_bridge.BaleRouting.{Incoming}
use tg_bale_bridge.Db.Pairs.{lower}

-- A peer or a chat, with the number of its type.
pub record RawPeer : Type 0 where
  pub id : ℤ
  pub type_value : ℕ

-- The name of a document: a text, or a dict with "value" and "name".
pub data DocName : Type 0 where
  plain_name : Text → DocName
  dict_name : Text → Text → DocName

-- `DocumentMessage`; it has an identifier. An empty text stands for a missing attribute.
pub record RawDocument : Type 0 where
  pub file_id : Text
  pub access_hash : ℕ
  pub name : DocName
  pub ext : Text
  pub size : ℕ
  pub mime_type : Text
  pub caption : Text

-- The text of a message: a text, or a wrapper with "value" and "content".
pub data RawText : Type 0 where
  plain_text : Text → RawText
  wrapped_text : Text → Text → RawText

pub record RawMessage : Type 0 where
  pub chat : Option RawPeer
  pub peer : Option RawPeer
  pub message_id : ℕ
  pub date : ℕ
  pub sender_id : ℤ
  pub text : RawText
  pub document : Option RawDocument
  pub replied_to : Option ℕ
  pub quoted_replied_to : Option ℕ

doc_name : DocName → Text
doc_name (plain_name t) = t
doc_name (dict_name value name) = or_text value name

-- `classify_document`, for a mime type in lower case.
abbrev kind_of_file : Text → Text → Text → Kind
kind_of_file mime name ext =
    if starts_with mime (codes "image/")
    then (if text_eq mime (codes "image/gif")
          || text_eq ext (codes "gif")
          || ends_with name (codes ".gif")
        then Kind.animation
        else Kind.photo)
    else if starts_with mime (codes "video/")
    then Kind.video
    else if starts_with mime (codes "audio/")
    then (if text_eq mime (codes "audio/ogg")
          || (text_eq ext (codes "ogg") || text_eq ext (codes "opus"))
          || starts_with name (codes "voice")
        then Kind.voice
        else Kind.audio)
    else Kind.document

classify_document : RawDocument → Kind
unfolding doc_name lower
classify_document d = kind_of_file (lower d.mime_type) (lower (doc_name d.name)) (lower d.ext)

abbrev file_dict : RawDocument → FileInfo
file_dict d = record {
  file_id = d.file_id;
  file_name = doc_name d.name;
  file_size = d.size;
  mime_type = d.mime_type;
}

-- `out[kind] = fd`, for a photo in a list.
abbrev attach : Kind → FileInfo → BaleMsg → BaleMsg
attach Kind.photo f m = record m { photo = f ∷ [] }
attach Kind.animation f m = record m { animation = some f }
attach Kind.video f m = record m { video = some f }
attach Kind.audio f m = record m { audio = some f }
attach Kind.voice f m = record m { voice = some f }
attach _ f m = record m { document = some f }

abbrev with_document : Option RawDocument → BaleMsg → BaleMsg
with_document none m = m
with_document (some d) m =
    attach (classify_document d) (file_dict d) (record m { caption = d.caption })

abbrev pub note_document : Option RawDocument → Session → Session
note_document none s = s
note_document (some d) s = remember_file d.file_id d.access_hash s

abbrev text_of_raw : RawText → Text
text_of_raw (plain_text t) = t
text_of_raw (wrapped_text value content) = or_text value content

abbrev first_of : {A : Type 0} → Option A → Option A → Option A
first_of (some x) o = some x
first_of none o = o

-- The message that is answered, unless its identifier is 0.
abbrev reply_of : Option ℕ → Option ℕ
reply_of none = none
reply_of (some zero) = none
reply_of (some (suc m)) = some (suc m)

abbrev pub peer_id : Option RawPeer → ℤ
peer_id none = pos 0
peer_id (some p) = p.id

abbrev pub peer_type_value : Option RawPeer → ℕ
peer_type_value none = 0
peer_type_value (some p) = p.type_value

abbrev pub is_missing : {A : Type 0} → Option A → Bool
is_missing none = true
is_missing (some x) = false

abbrev new_meta : ChatType → ChatMeta
new_meta t = record { kind = t; title = []; username = [] }

-- `chat_meta.setdefault(...)`: the entry, and the session with it.
abbrev pub meta_with : ℤ → ChatType → Option ChatMeta → Session → ChatMeta × Session
meta_with c t (some m) s = (m, s)
meta_with c t none s =
    (new_meta t, record s { chat_meta = assign (chat_key c) (new_meta t) s.chat_meta })

unfoldable pub default_meta : ℤ → ℕ → Session → ChatMeta × Session
unfolding chat_type_name
default_meta c raw s = meta_with c (chat_type_name raw) (get (chat_key c) s.chat_meta) s

abbrev is_private : ChatType → Bool
is_private private = true
is_private group = false
is_private channel = false
is_private group_or_channel = false

abbrev pub chat_of : RawMessage → Option RawPeer
chat_of m = first_of m.chat m.peer

normalized : RawMessage → ChatMeta → Incoming
unfolding classify_document
normalized m meta =
    let out : BaleMsg = record {
      message_id = m.message_id;
      chat = str_int (peer_id (chat_of m));
      chat_username = meta.username;
      text = text_of_raw m.text;
      caption = [];
      photo = [];
      animation = none;
      video = none;
      audio = none;
      voice = none;
      sticker = none;
      document = none;
      contact = none;
      location = none;
      media_group_id = [];
      reply_to_message = reply_of (first_of m.replied_to m.quoted_replied_to);
      forward_from_chat = none;
      forward_from = none;
    } in
    record {
      msg = with_document m.document out;
      private_chat = is_private meta.kind;
      sender = some m.sender_id;
    }

unfoldable pub normalize : RawMessage → Session → Incoming × Session
unfolding default_meta normalized
normalize m s =
    let c = peer_id (chat_of m) in
    let raw = peer_type_value (chat_of m) in
    let (meta, t) = default_meta c raw (note_type c raw (is_missing m.chat) s) in
    (normalized m meta, note_document m.document (remember_date c m.message_id m.date t))
