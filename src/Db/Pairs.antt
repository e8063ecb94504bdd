-- ===== src/Db/Pairs.antt =====
-- bridge/dbstore/pairs.py: the channel pairs, and the lookups that respect the direction.
pub mod Laws
use tg_bale_bridge.Prelude.{
  leb, ◌==◌, if◌then◌else◌, length, select, find, any, null, Text, text_eq, ℕ, suc, ◌+◌, Bool, true,
  false, not, ◌&&◌, ◌||◌, Option, List, [], ◌∷◌, ◌++◌, map,
}
use tg_bale_bridge.Prelude.Int.{ℤ, int_eq}
use tg_bale_bridge.ChatId.{bare_chat_id, tg_id_forms}
use tg_bale_bridge.Db.{Mode, tg2bale, bale2tg, both, other_mode, PairRow, Database}

pub new_pair : ℕ → ℤ → Text → Text → Text → Text → Text → Mode → PairRow
new_pair id tg_chat_id tg_label tg_username bale_chat_id bale_label bale_username mode = record {
  id = id;
  tg_chat_id = bare_chat_id tg_chat_id;
  tg_label = tg_label;
  tg_username = tg_username;
  bale_chat_id = bale_chat_id;
  bale_label = bale_label;
  bale_username = bale_username;
  mode = mode;
}

-- The new identifier, and the database with the row.
unfoldable pub add_pair : ℤ → Text → Text → Text → Text → Text → Mode → Database → ℕ × Database
unfolding new_pair
add_pair tg_chat_id tg_label tg_username bale_chat_id bale_label bale_username mode db = (
  db.pairs.next,
  record db {
    pairs = record {
      rows =
          db.pairs.rows
          ++ new_pair db.pairs.next tg_chat_id tg_label tg_username bale_chat_id bale_label
              bale_username mode
            ∷ [];
      next = suc db.pairs.next;
    };
  },
)

-- Deletes the pair and its mappings; the answer is whether there was such a pair.
unfoldable pub remove_pair : ℕ → Database → Bool × Database
remove_pair pair_id db = (
  any (λ r. r.id == pair_id) db.pairs.rows,
  record db {
    pairs = record {
      rows = select (λ r. not (r.id == pair_id)) db.pairs.rows;
      next = db.pairs.next;
    };
    msg_map = record {
      rows = select (λ r. not (r.pair_id == pair_id)) db.msg_map.rows;
      next = db.msg_map.next;
    };
  },
)

pub list_pairs : Database → List PairRow
list_pairs db = db.pairs.rows

unfoldable pub get_pair : ℕ → Database → Option PairRow
get_pair pair_id db = find (λ r. r.id == pair_id) db.pairs.rows

unfoldable pub set_mode : ℕ → Mode → Database → Bool × Database
set_mode pair_id mode db = (
  any (λ r. r.id == pair_id) db.pairs.rows,
  record db {
    pairs = record {
      rows = map (λ r. if r.id == pair_id then record r { mode = mode } else r) db.pairs.rows;
      next = db.pairs.next;
    };
  },
)

-- mode IN ('tg2bale', 'both')
pub sends_tg : Mode → Bool
sends_tg tg2bale = true
sends_tg bale2tg = false
sends_tg both = true
sends_tg (other_mode t) = false

-- mode IN ('bale2tg', 'both')
pub sends_bale : Mode → Bool
sends_bale tg2bale = false
sends_bale bale2tg = true
sends_bale both = true
sends_bale (other_mode t) = false

-- tg_chat_id IN (bare, marked)
unfoldable pub has_tg_chat : ℤ → PairRow → Bool
has_tg_chat c r =
    let (bare, marked) = tg_id_forms c in int_eq r.tg_chat_id bare || int_eq r.tg_chat_id marked

unfoldable pub pairs_for_tg : ℤ → Database → List PairRow
pairs_for_tg c db = select (λ r. has_tg_chat c r && sends_tg r.mode) db.pairs.rows

-- SQLite's `lower`, which folds ASCII letters only.
unfoldable pub lower : Text → Text
lower t = map (λ c. if leb b'A' c && leb c b'Z' then c + 32 else c) t

-- `username.lstrip("@")`
unfoldable pub strip_at : Text → Text
strip_at [] = []
strip_at (c ∷ cs) = let rest = strip_at cs in if c == b'@' then rest else c ∷ cs

-- The identifier, or a username that is given and stored; no username is the empty text.
unfoldable pub has_bale_chat : Text → Text → PairRow → Bool
unfolding lower strip_at
has_bale_chat chat username r =
    text_eq r.bale_chat_id chat
    || (not (null username)
        && (not (null r.bale_username)
            && text_eq (lower r.bale_username) (lower (strip_at username))))

unfoldable pub pairs_for_bale : Text → Text → Database → List PairRow
pairs_for_bale chat username db =
    select (λ r. has_bale_chat chat username r && sends_bale r.mode) db.pairs.rows

-- bridge/dbstore/stats.py: the numbers of pairs and of mapped messages
pub stats : Database → ℕ × ℕ
stats db = (length db.pairs.rows, length db.msg_map.rows)
