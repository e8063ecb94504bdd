-- ===== src/Db/LoopCache.antt =====
-- bridge/dbstore/loopcache.py: the one-shot ledger `sent` and the fingerprints `sent_fp`. The
-- clock is the argument `now`, in whole seconds.
pub mod Laws
use tg_bale_bridge.Prelude.{
  ltb, ◌==◌, select, find, Text, text_eq, ℕ, suc, ◌+◌, ◌*◌, Bool, true, false, not, ◌&&◌, Option,
  none, some, [], ◌∷◌, ◌++◌,
}
use tg_bale_bridge.Db.{Platform, platform_eq, SentRow, FpRow, Database}

-- CACHE_MAX_AGE
abbrev cache_max_age : ℕ
cache_max_age = 2 * 24 * 3600

-- The default of `check_fp`'s `window`.
abbrev pub fp_window : ℕ
fp_window = 60

unfoldable pub mark_sent : ℕ → Platform → Text → ℕ → Database → Database
mark_sent now p chat msg db = record db {
  sent = record {
    rows =
        db.sent.rows
        ++ record { id = db.sent.next; platform = p; chat = chat; msg = msg; created_at = now }
          ∷ [];
    next = suc db.sent.next;
  };
}

-- WHERE platform=? AND chat=? AND msg=?
unfoldable pub is_sent : Platform → Text → ℕ → SentRow → Bool
is_sent p chat msg r = platform_eq r.platform p && (text_eq r.chat chat && r.msg == msg)

abbrev delete_sent : ℕ → Database → Database
delete_sent k db = record db {
  sent = record { rows = select (λ r. not (r.id == k)) db.sent.rows; next = db.sent.next };
}

abbrev take_sent : Option SentRow → Database → Bool × Database
take_sent none db = (false, db)
take_sent (some r) db = (true, delete_sent r.id db)

-- Whether the bridge has created this message; if so, one record of it is used up.
unfoldable pub was_sent : Platform → Text → ℕ → Database → Bool × Database
was_sent p chat msg db = take_sent (find (is_sent p chat msg) db.sent.rows) db

unfoldable pub add_fp : ℕ → Platform → Text → Text → Database → Database
add_fp now p chat fp db = record db {
  sent_fp = record {
    rows =
        db.sent_fp.rows
        ++ record { id = db.sent_fp.next; platform = p; chat = chat; fp = fp; created_at = now }
          ∷ [];
    next = suc db.sent_fp.next;
  };
}

-- WHERE platform=? AND chat=? AND fp=? AND created_at > now - window
is_fp : ℕ → ℕ → Platform → Text → Text → FpRow → Bool
is_fp now window p chat fp r =
    platform_eq r.platform p
    && (text_eq r.chat chat && (text_eq r.fp fp && ltb now (r.created_at + window)))

abbrev delete_fp : ℕ → Database → Database
delete_fp k db = record db {
  sent_fp = record { rows = select (λ r. not (r.id == k)) db.sent_fp.rows; next = db.sent_fp.next };
}

abbrev take_fp : Option FpRow → Database → Bool × Database
take_fp none db = (false, db)
take_fp (some r) db = (true, delete_fp r.id db)

pub check_fp : ℕ → ℕ → Platform → Text → Text → Database → Bool × Database
check_fp now window p chat fp db = take_fp (find (is_fp now window p chat fp) db.sent_fp.rows) db

-- created_at < now - max_age
prune : ℕ → ℕ → Database → Database
prune now max_age db = record db {
  sent = record {
    rows = select (λ r. not (ltb (r.created_at + max_age) now)) db.sent.rows;
    next = db.sent.next;
  };
  sent_fp = record {
    rows = select (λ r. not (ltb (r.created_at + max_age) now)) db.sent_fp.rows;
    next = db.sent_fp.next;
  };
}
