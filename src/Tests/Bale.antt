-- ===== src/Tests/Bale.antt =====
-- What the tests of the client of a Bale user account share.
use tg_bale_bridge.Prelude.{codes, true, false, []}
use tg_bale_bridge.Db.{empty_db}
use tg_bale_bridge.BaleClient.{Session, numbered, GroupInfo}

abbrev pub fresh : Session
fresh = record {
  chat_types = [];
  chat_meta = [];
  id_cache = [];
  dates = [];
  files = [];
  db = empty_db;
  started = false;
  listening = true;
  offset = 0;
}

abbrev pub a_channel : GroupInfo
a_channel = record { group_type = numbered 1; title = codes "News"; username = [] }
