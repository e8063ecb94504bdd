-- ===== src/Tests.antt =====
-- What the tests share: a database with one pair, one message in each direction, and platforms
-- that accept everything.
pub mod Ledger
pub mod Engine
pub mod Format
pub mod Panel
pub mod Settings
pub mod Setup
pub mod Control
pub mod Bale
pub mod Account
pub mod Starting
use tg_bale_bridge.Prelude.{length, Text, codes, ℕ, ◌+◌, true, false, none, [], ◌∷◌}
use tg_bale_bridge.Prelude.Int.{pos, negsuc}
use tg_bale_bridge.Db.{Platform, tg, bale, Mode, PairRow, MapRow, SentRow, Database, empty_table}
use tg_bale_bridge.Db.MsgMap.{Counterpart}
use tg_bale_bridge.Guard.{no_marks}
use tg_bale_bridge.Textfmt.Utf16.{limit_text}
use tg_bale_bridge.Transfer.Types.{no_media, TgMsg, BaleMsg}
use tg_bale_bridge.Transfer.Exec.{ok, Env, World}
use tg_bale_bridge.Transfer.Albums.{no_albums}
use tg_bale_bridge.Transfer.Queueing.{Bridge}

abbrev pub hello : Text
hello = codes "hello"

abbrev pub tg_hello : TgMsg
tg_hello = record {
  id = 5;
  chat_id = negsuc 1000000000041;
  message = hello;
  entities = [];
  media = no_media;
  action = none;
  photo = false;
  video = false;
  video_note = false;
  voice = false;
  audio = false;
  gif = false;
  sticker = false;
  game = false;
  document = false;
  text = hello;
  grouped_id = 0;
  reply_to_msg_id = 0;
  forward = none;
  poll = none;
  dice = none;
  venue = none;
  contact = record { phone_number = []; first_name = []; last_name = [] };
  geo = record { latitude = []; longitude = [] };
}

abbrev pub bale_chat : Text
bale_chat = codes "77"

abbrev pub bale_hello : BaleMsg
bale_hello = record {
  message_id = 9;
  chat = bale_chat;
  chat_username = [];
  text = hello;
  caption = [];
  photo = [];
  animation = none;
  video = none;
  audio = none;
  voice = none;
  sticker = none;
  document = none;
  contact = none;
  location = none;
  media_group_id = [];
  reply_to_message = none;
  forward_from_chat = none;
  forward_from = none;
}

abbrev pub pair_of : Mode → PairRow
pair_of mode = record {
  id = 1;
  tg_chat_id = pos 42;
  tg_label = [];
  tg_username = [];
  bale_chat_id = bale_chat;
  bale_label = [];
  bale_username = [];
  mode = mode;
}

-- The Telegram message 5 of the chat 42 is the Bale message 9 of the chat 77.
abbrev pub hello_row : MapRow
hello_row = record {
  id = 1;
  pair_id = 1;
  src_platform = tg;
  src_chat = codes "42";
  src_msg = 5;
  dst_platform = bale;
  dst_chat = bale_chat;
  dst_msg = 9;
}

abbrev sent_row : ℕ → Platform → Text → ℕ → SentRow
sent_row id p c m = record { id = id; platform = p; chat = c; msg = m; created_at = 0 }

-- The ledger holds both messages as the bridge's own.
abbrev pub db_of : Mode → Database
db_of mode = record {
  pairs = record { rows = pair_of mode ∷ []; next = 2 };
  msg_map = record { rows = hello_row ∷ []; next = 2 };
  sent = record {
    rows = sent_row 1 bale bale_chat 9 ∷ sent_row 2 tg (codes "42") 5 ∷ [];
    next = 3;
  };
  sent_fp = empty_table;
  meta = [];
}

abbrev pub copy_on_bale : Counterpart
copy_on_bale = record { platform = bale; chat = bale_chat; msg = 9; pair_id = 1; row_id = 1 }

abbrev pub copy_on_tg : Counterpart
copy_on_tg = record { platform = tg; chat = codes "42"; msg = 5; pair_id = 1; row_id = 1 }

abbrev pub easy_env : Env
easy_env = record {
  send = λ t c. ok (100 + length t);
  send_group = λ t c. ok [];
  act = λ t c. ok tt;
  exists = λ t c. ok true;
  download = λ t c. ok none;
  sender_name = λ t c. ok [];
  now = λ t. 1000;
  sha1 = λ t. t;
  has_delete_events = true;
  cfg = record {
    limit_text = 4;
    limit_caption = 4096;
    limit_caption_group = 1024;
    max_bale_upload = 52428800;
    max_bale_photo = 10485760;
    max_bale_download = 20971520;
  };
}

abbrev pub world_of : Mode → World
world_of mode = record { db = db_of mode; guard = no_marks; trace = [] }

abbrev pub bridge_of : Mode → Bridge
bridge_of mode = record {
  world = world_of mode;
  albums_tg = no_albums;
  albums_bale = no_albums;
  q_tg = [];
  q_bale = [];
  paused = false;
}
