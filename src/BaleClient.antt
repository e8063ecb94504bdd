-- ===== src/BaleClient.antt =====
-- bridge/bale: what the client of a Bale user account remembers of chats, messages and files
-- (session.py, normalize.py, resolver.py), and how it classifies documents (types_map.py).
pub mod Laws
pub mod Account
pub mod Resolving
pub mod Normalizing
pub mod Events
pub mod Sending
pub mod Members
pub mod Facade
pub mod Gateway
pub mod Exceptions
pub mod Failures
pub mod Engine
pub mod Flow
use tg_bale_bridge.Prelude.{
  ◌==◌, if◌then◌else◌, Text, codes, contains_text, ℕ, Bool, false, not, ◌&&◌, ◌||◌, Option, none,
  some, [], ◌∷◌, ◌++◌,
}
use tg_bale_bridge.Prelude.Int.{ℤ, pos, str_nat, str_int, int_of}
use tg_bale_bridge.Prelude.Dict.{Dict, get, assign}
use tg_bale_bridge.Db.{Database}
use tg_bale_bridge.Db.Meta.{get_meta, set_meta}
use tg_bale_bridge.Db.Pairs.{lower}
use tg_bale_bridge.Textfmt.Headers.{or_text}

-- CHAT_TYPE_NAMES with AMBIGUOUS_GROUP
pub data ChatType : Type 0 where
  private group channel group_or_channel : ChatType

-- What is known of a chat beside its identifier; an empty text stands for a missing key.
pub record ChatMeta : Type 0 where
  pub kind : ChatType
  pub title : Text
  pub username : Text

-- The caches; the key of a date is the text under which it is stored. A handler is there if the
-- session listens.
pub record Session : Type 0 where
  pub chat_types : Dict ChatType
  pub chat_meta : Dict ChatMeta
  pub id_cache : Dict ℤ
  pub dates : Dict ℕ
  pub files : Dict ℕ
  pub db : Database
  pub started : Bool
  pub listening : Bool
  pub offset : ℕ

-- A value that is no number is 0 here.
pub chat_type_name : ℕ → ChatType
chat_type_name v = if v == 2 || v == 5 then group else if v == 3 then channel else private

unfoldable pub group_like_type_value : ℕ → Bool → Bool
group_like_type_value v peer_types = v == 2 || (not peer_types && v == 5)

abbrev pub chat_key : ℤ → Text
chat_key c = str_int c

-- `setdefault`
abbrev pub set_default : Text → ChatType → Option ChatType → Dict ChatType → Dict ChatType
set_default k v none d = assign k v d
set_default k v (some w) d = d

-- What `normalize` notes of the type of a chat.
unfoldable pub note_type : ℤ → ℕ → Bool → Session → Session
unfolding chat_type_name group_like_type_value
note_type c raw from_peer s =
    if group_like_type_value raw from_peer
    then record s {
      chat_types =
          set_default (chat_key c) group_or_channel (get (chat_key c) s.chat_types) s.chat_types;
    }
    else record s { chat_types = assign (chat_key c) (chat_type_name raw) s.chat_types }

abbrev type_or_group : Option ChatType → ChatType
type_or_group none = group
type_or_group (some t) = t

-- `chat_type_of`
unfoldable pub chat_type_of : ℤ → Session → ChatType
chat_type_of c s = type_or_group (get (chat_key c) s.chat_types)

-- `_NAME_CHAT_TYPES.get(name, ChatType.GROUP)`
abbrev name_chat_type : ChatType → ChatType
name_chat_type group_or_channel = group
name_chat_type t = t

-- The attribute `group_type` of what `get_full_group` answers: a number, or a name.
pub data GroupType : Type 0 where
  numbered : ℕ → GroupType
  named : Text → GroupType

pub record GroupInfo : Type 0 where
  pub group_type : GroupType
  pub title : Text
  pub username : Text

-- `(gt == 1) or ("CHANNEL" in str(gt).upper())`
abbrev is_channel_type : GroupType → Bool
is_channel_type (numbered n) = n == 1
is_channel_type (named t) = contains_text (lower t) (codes "channel")

unfoldable pub is_channel : GroupInfo → Bool
unfolding lower contains_text
is_channel i = is_channel_type i.group_type

abbrev type_or : Option ChatType → ChatType → ChatType
type_or none t = t
type_or (some t) u = t

-- The entry of a chat after `note_chat`, from that before.
abbrev noted : Option ChatType → Text → Text → Option ChatMeta → ChatMeta
noted t title username none = record {
  kind = type_or t private;
  title = title;
  username = username;
}
noted t title username (some m) = record {
  kind = type_or t m.kind;
  title = or_text title m.title;
  username = or_text username m.username;
}

pub note_chat : ℤ → Option ChatType → Text → Text → Session → Session
note_chat c t title username s =
    let m = noted t title username (get (chat_key c) s.chat_meta) in
    record s {
      chat_meta = assign (chat_key c) m s.chat_meta;
      chat_types = assign (chat_key c) m.kind s.chat_types;
    }

-- A probe that failed (`none`), or its answer.
abbrev after_probe : ℤ → Option ChatType → Option GroupInfo → Session → ChatType × Session
after_probe c none none s =
    (private, record s { chat_types = assign (chat_key c) private s.chat_types })
after_probe c (some t) none s = (name_chat_type t, s)
after_probe c cached (some info) s =
    let t = (if is_channel info then channel else group) in
    (
      t,
      note_chat c (some t) info.title []
          (record s { chat_types = assign (chat_key c) t s.chat_types }),
    )

abbrev pub ensure_with : ℤ → Option ChatType → Option GroupInfo → Session → ChatType × Session
ensure_with c (some private) probe s = (private, s)
ensure_with c (some group) probe s = (group, s)
ensure_with c (some channel) probe s = (channel, s)
ensure_with c (some group_or_channel) probe s = after_probe c (some group_or_channel) probe s
ensure_with c none probe s = after_probe c none probe s

-- `probe` is the answer of `get_full_group`, if it is asked and does not fail.
pub ensure_chat_type : ℤ → Option GroupInfo → Session → ChatType × Session
ensure_chat_type c probe s = ensure_with c (get (chat_key c) s.chat_types) probe s

unfoldable pub date_key : ℤ → ℕ → Text
date_key c m = codes "bdate:" ++ str_int c ++ codes ":" ++ str_nat m

unfoldable pub remember_date : ℤ → ℕ → ℕ → Session → Session
unfolding date_key
remember_date c m d s = record s {
  dates = assign (date_key c m) d s.dates;
  db = (if d == 0 then s.db else set_meta s.db (date_key c m) (str_nat d));
}

abbrev nat_or_zero : Option ℤ → ℕ
nat_or_zero (some (pos n)) = n
nat_or_zero _ = 0

-- `int(raw) if raw else 0`; the program has stored no negative number.
abbrev stored_number : Option Text → ℕ
stored_number none = 0
stored_number (some t) = nat_or_zero (int_of t)

abbrev date_with : Text → Option ℕ → Session → ℕ × Session
date_with k (some d) s = (d, s)
date_with k none s =
    let d = stored_number (get_meta s.db k) in (d, record s { dates = assign k d s.dates })

unfoldable pub date_for : ℤ → ℕ → Session → ℕ × Session
unfolding date_key
date_for c m s = date_with (date_key c m) (get (date_key c m) s.dates) s

abbrev hash_key : Text → Text
hash_key f = codes "bhash:" ++ f

pub remember_file : Text → ℕ → Session → Session
remember_file f h s = record s {
  files = assign f h s.files;
  db = set_meta s.db (hash_key f) (str_nat h);
}

abbrev hash_with : Text → Option ℕ → Option Text → Session → Option ℕ × Session
hash_with f (some h) raw s = (some h, s)
hash_with f none none s = (none, s)
hash_with f none (some []) s = (none, s)
hash_with f none (some (c ∷ cs)) s =
    let h = nat_or_zero (int_of (c ∷ cs)) in (some h, record s { files = assign f h s.files })

pub access_hash_for : Text → Session → Option ℕ × Session
access_hash_for f s = hash_with f (get f s.files) (get_meta s.db (hash_key f)) s

-- A new process: the caches are gone, the database is not.
pub restart : Session → Session
restart s = record {
  chat_types = [];
  chat_meta = [];
  id_cache = [];
  dates = [];
  files = [];
  db = s.db;
  started = false;
  listening = false;
  offset = 0;
}
