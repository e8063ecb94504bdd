-- ===== src/Db/MsgMap.antt =====
-- bridge/dbstore/map.py: which message on one side is which on the other.
pub mod Laws
pub mod Removed
use tg_bale_bridge.Prelude.{
  ◌==◌, if◌then◌else◌, select, any, Text, text_eq, ℕ, suc, Bool, true, not, ◌&&◌, ◌||◌, Option,
  none, some, List, [], ◌∷◌, ◌++◌, map,
}
use tg_bale_bridge.Db.{Platform, platform_eq, MapRow, Database}

new_map : ℕ → ℕ → Platform → Text → ℕ → Platform → Text → ℕ → MapRow
new_map id pair_id sp sc sm dp dc dm = record {
  id = id;
  pair_id = pair_id;
  src_platform = sp;
  src_chat = sc;
  src_msg = sm;
  dst_platform = dp;
  dst_chat = dc;
  dst_msg = dm;
}

unfoldable pub add_map : ℕ → Platform → Text → ℕ → Platform → Text → ℕ → Database → Database
unfolding new_map
add_map pair_id sp sc sm dp dc dm db = record db {
  msg_map = record {
    rows = db.msg_map.rows ++ new_map db.msg_map.next pair_id sp sc sm dp dc dm ∷ [];
    next = suc db.msg_map.next;
  };
}

-- An entry of `other_side`'s answer.
pub record Counterpart : Type 0 where
  pub platform : Platform
  pub chat : Text
  pub msg : ℕ
  pub pair_id : ℕ
  pub row_id : ℕ

unfoldable pub is_src : Platform → Text → ℕ → MapRow → Bool
is_src p chat msg r = platform_eq r.src_platform p && (text_eq r.src_chat chat && r.src_msg == msg)

unfoldable pub is_dst : Platform → Text → ℕ → MapRow → Bool
is_dst p chat msg r = platform_eq r.dst_platform p && (text_eq r.dst_chat chat && r.dst_msg == msg)

abbrev in_pair : Option ℕ → MapRow → Bool
in_pair none r = true
in_pair (some k) r = r.pair_id == k

pub dst_of : MapRow → Counterpart
dst_of r = record {
  platform = r.dst_platform;
  chat = r.dst_chat;
  msg = r.dst_msg;
  pair_id = r.pair_id;
  row_id = r.id;
}

unfoldable pub src_of : MapRow → Counterpart
src_of r = record {
  platform = r.src_platform;
  chat = r.src_chat;
  msg = r.src_msg;
  pair_id = r.pair_id;
  row_id = r.id;
}

-- The side of the row that is not the message asked for.
unfoldable pub opposite : Platform → Text → ℕ → MapRow → Counterpart
unfolding is_src dst_of src_of
opposite p chat msg r = if is_src p chat msg r then dst_of r else src_of r

-- The key under which `seen` holds an entry.
pub same_key : Counterpart → Counterpart → Bool
same_key a b =
    platform_eq a.platform b.platform
    && (text_eq a.chat b.chat && (a.msg == b.msg && a.pair_id == b.pair_id))

-- The loop over the rows; `seen` holds the entries that are out already.
unfoldable pub collect : Platform → Text → ℕ → List Counterpart → List MapRow → List Counterpart
unfolding opposite
collect p chat msg seen [] = []
collect p chat msg seen (r ∷ rs) =
    let o = opposite p chat msg r in
    let skipped = collect p chat msg seen rs in
    let taken = collect p chat msg (o ∷ seen) rs in
    if any (same_key o) seen then skipped else o ∷ taken

-- WHERE (src matches OR dst matches) [AND pair_id=?]
unfoldable pub is_mapped : Platform → Text → ℕ → Option ℕ → MapRow → Bool
unfolding is_src is_dst
is_mapped p chat msg pair_id r = (is_src p chat msg r || is_dst p chat msg r) && in_pair pair_id r

unfoldable pub other_side : Platform → Text → ℕ → Option ℕ → Database → List Counterpart
unfolding collect is_mapped
other_side p chat msg pair_id db =
    collect p chat msg [] (select (is_mapped p chat msg pair_id) db.msg_map.rows)

pub remove_map_row : ℕ → Database → Database
remove_map_row row_id db = record db {
  msg_map = record {
    rows = select (λ r. not (r.id == row_id)) db.msg_map.rows;
    next = db.msg_map.next;
  };
}

unfoldable pub replace_map_dst : ℕ → Platform → Text → ℕ → Database → Database
replace_map_dst row_id p chat msg db = record db {
  msg_map = record {
    rows =
        map
          (λ r.
            if r.id == row_id
            then record r { dst_platform = p; dst_chat = chat; dst_msg = msg }
            else r)
          db.msg_map.rows;
    next = db.msg_map.next;
  };
}
