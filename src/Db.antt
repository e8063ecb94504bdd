-- ===== src/Db.antt =====
-- bridge/dbstore/types_map.py: the tables of SCHEMA, one record for each row and one for the
-- database. A table's `next` is the identifier that AUTOINCREMENT gives next; rows stand in the
-- order of their insertion. Columns that no code reads (`created_at` of `pairs` and `msg_map`)
-- are left out. Times are whole seconds.
pub mod Meta
pub mod Pairs
pub mod MsgMap
pub mod LoopCache
pub mod Rows
use tg_bale_bridge.Prelude.{Text, ℕ, Bool, true, false, List, []}
use tg_bale_bridge.Prelude.Int.{ℤ}

pub data Platform : Type 0 where
  tg bale : Platform

unfoldable pub platform_eq : Platform → Platform → Bool
platform_eq tg tg = true
platform_eq tg bale = false
platform_eq bale tg = false
platform_eq bale bale = true

-- VALID_MODES; the column holds any text.
pub data Mode : Type 0 where
  tg2bale bale2tg both : Mode
  other_mode : Text → Mode

pub record PairRow : Type 0 where
  pub id : ℕ
  pub tg_chat_id : ℤ
  pub tg_label : Text
  pub tg_username : Text
  pub bale_chat_id : Text
  pub bale_label : Text
  pub bale_username : Text
  pub mode : Mode

pub record MapRow : Type 0 where
  pub id : ℕ
  pub pair_id : ℕ
  pub src_platform : Platform
  pub src_chat : Text
  pub src_msg : ℕ
  pub dst_platform : Platform
  pub dst_chat : Text
  pub dst_msg : ℕ

pub record SentRow : Type 0 where
  pub id : ℕ
  pub platform : Platform
  pub chat : Text
  pub msg : ℕ
  pub created_at : ℕ

pub record FpRow : Type 0 where
  pub id : ℕ
  pub platform : Platform
  pub chat : Text
  pub fp : Text
  pub created_at : ℕ

pub record Table (R : Type 0) : Type 0 where
  pub rows : List R
  pub next : ℕ

pub record Database : Type 0 where
  pub pairs : Table PairRow
  pub msg_map : Table MapRow
  pub sent : Table SentRow
  pub sent_fp : Table FpRow
  pub meta : List (Text × Text)

abbrev pub empty_table : {R : Type 0} → Table R
empty_table = record { rows = []; next = 1 }

abbrev pub empty_db : Database
empty_db = record {
  pairs = empty_table;
  msg_map = empty_table;
  sent = empty_table;
  sent_fp = empty_table;
  meta = [];
}
