-- ===== src/Transfer/MirrorT2b/Mirror.antt =====
-- bridge/transfer/mirror_t2b.py: from an event to the pairs.
pub mod Laws
use tg_bale_bridge.Prelude.{
  ◌==◌, if◌then◌else◌, find, Text, ℕ, Bool, Option, none, some, List, [], ◌∷◌, map,
}
use tg_bale_bridge.Prelude.Int.{ℤ, str_int}
use tg_bale_bridge.ChatId.{bare_chat_id}
use tg_bale_bridge.Db.{Platform, tg, bale, platform_eq, PairRow, Database}
use tg_bale_bridge.Db.Pairs.{pairs_for_tg}
use tg_bale_bridge.Db.MsgMap.{add_map, Counterpart, other_side}
use tg_bale_bridge.Db.LoopCache.{mark_sent, was_sent, add_fp}
use tg_bale_bridge.Transfer.Types.{TgMsg, tg_kind, fingerprint}
use tg_bale_bridge.Transfer.Exec.{
  other_error, Env, M, pure, raise, ◌>>=◌, ◌>>◌, try_catch, for_each, change_db, query_db, read_db,
  clock, skip,
}
use tg_bale_bridge.Transfer.MirrorT2b.{msg_to_bale}
use tg_bale_bridge.Transfer.MirrorT2b.Album.{album_to_bale}

-- The key under which the ledger and the map hold a Telegram chat.
abbrev pub tg_key : ℤ → Text
tg_key c = str_int (bare_chat_id c)

pub is_on : Platform → Counterpart → Bool
unfolding platform_eq
is_on p o = platform_eq o.platform p

abbrev msg_of : Option Counterpart → Option ℕ
msg_of none = none
msg_of (some o) = some o.msg

-- The counterpart of the message that is replied to.
reply_target : TgMsg → PairRow → Database → Option ℕ
reply_target first pair db =
    if first.reply_to_msg_id == 0
    then none
    else msg_of (
        find (is_on bale)
          (other_side tg (tg_key first.chat_id) first.reply_to_msg_id (some pair.id) db))

module _ (env : Env) where
  -- What is stored about a message made in Bale: the map, the ledger, the fingerprint.
  pub record_copy : PairRow → TgMsg × ℕ → M (Unit {0})
  record_copy pair (m, did) = do
    change_db (add_map pair.id tg (tg_key m.chat_id) m.id bale pair.bale_chat_id did)
    now ← clock env
    change_db (mark_sent now bale pair.bale_chat_id did)
    now' ← clock env
    change_db (add_fp now' bale pair.bale_chat_id (fingerprint env.sha1 (tg_kind m) m.message))

  -- The copies that were made, with their originals.
  copies_of : List TgMsg → Text → Option ℕ → M (List (TgMsg × ℕ))
  copies_of (m ∷ []) dst reply_to = do
    ids ← msg_to_bale env m dst reply_to
    pure (map (λ i. (m, i)) ids)
  copies_of msgs dst reply_to = album_to_bale env msgs dst reply_to

  pub pair_send : List TgMsg → PairRow → M (Unit {0})
  unfolding record_copy copies_of
  pair_send [] pair = raise other_error
  pair_send (first ∷ rest) pair = do
    reply_to ← read_db (reply_target first pair)
    mapped ← copies_of (first ∷ rest) pair.bale_chat_id reply_to
    for_each (record_copy pair) mapped

  -- The messages that the bridge has not made itself.
  pub unsent : List TgMsg → M (List TgMsg)
  unsent [] = pure []
  unsent (m ∷ ms) = do
    own ← query_db (was_sent tg (tg_key m.chat_id) m.id)
    rest ← unsent ms
    pure (if own then rest else m ∷ rest)

  abbrev send_guarded : List TgMsg → PairRow → M (Unit {0})
  send_guarded msgs pair = try_catch (pair_send msgs pair) (λ _. skip)

  abbrev to_pairs : List TgMsg → M (Unit {0})
  to_pairs [] = skip
  to_pairs (first ∷ rest) = do
    pairs ← read_db (pairs_for_tg (bare_chat_id first.chat_id))
    for_each (send_guarded (first ∷ rest)) pairs

  pub mirror : List TgMsg → M (Unit {0})
  unfolding unsent
  mirror msgs = do fresh ← unsent msgs; to_pairs fresh
