-- ===== src/Transfer/MirrorB2t/Mirror.antt =====
-- bridge/transfer/mirror_b2t.py: from an event to the pairs.
pub mod Laws
use tg_bale_bridge.Prelude.{
  if◌then◌else◌, find, ℕ, Bool, true, Option, none, some, List, [], ◌∷◌, map,
}
use tg_bale_bridge.Prelude.Int.{ℤ, str_int}
use tg_bale_bridge.Db.{tg, bale, PairRow, Database}
use tg_bale_bridge.Db.Pairs.{pairs_for_bale}
use tg_bale_bridge.Db.MsgMap.{add_map, Counterpart, other_side}
use tg_bale_bridge.Db.LoopCache.{fp_window, mark_sent, was_sent, add_fp, check_fp}
use tg_bale_bridge.Transfer.Types.{BaleMsg, bale_content, fingerprint}
use tg_bale_bridge.Transfer.Exec.{
  other_error, Env, M, pure, raise, ◌>>=◌, ◌>>◌, try_catch, for_each, change_db, query_db, read_db,
  clock, skip,
}
use tg_bale_bridge.Transfer.MirrorT2b.Mirror.{is_on}
use tg_bale_bridge.Transfer.MirrorB2t.{msg_to_tg}
use tg_bale_bridge.Transfer.MirrorB2t.Album.{album_to_tg}

abbrev first_msg : Option Counterpart → Option ℕ
first_msg none = none
first_msg (some o) = some o.msg

abbrev reply_in : BaleMsg → Option ℕ → PairRow → Database → Option ℕ
reply_in first none pair db = none
reply_in first (some r) pair db =
    first_msg (find (is_on tg) (other_side bale first.chat r (some pair.id) db))

-- The counterpart of the message that is replied to.
bale_reply_target : BaleMsg → PairRow → Database → Option ℕ
bale_reply_target first pair db = reply_in first first.reply_to_message pair db

module _ (env : Env) where
  -- What is stored about a message made in Telegram.
  pub record_tg_copy : PairRow → BaleMsg × ℕ → M (Unit {0})
  record_tg_copy pair (m, tid) = do
    change_db (add_map pair.id bale m.chat m.message_id tg (str_int pair.tg_chat_id) tid)
    now ← clock env
    change_db (mark_sent now tg (str_int pair.tg_chat_id) tid)
    now' ← clock env
    change_db (
        add_fp now' tg (str_int pair.tg_chat_id)
          (fingerprint env.sha1 (bale_content m).kind (bale_content m).text))

  tg_copies_of : List BaleMsg → ℤ → Option ℕ → M (List (BaleMsg × ℕ))
  tg_copies_of (m ∷ []) dst reply_to = do
    ids ← msg_to_tg env m dst reply_to
    pure (map (λ i. (m, i)) ids)
  tg_copies_of msgs dst reply_to = album_to_tg env msgs dst reply_to

  pub bale_pair_send : List BaleMsg → PairRow → M (Unit {0})
  unfolding record_tg_copy tg_copies_of
  bale_pair_send [] pair = raise other_error
  bale_pair_send (first ∷ rest) pair = do
    reply_to ← read_db (bale_reply_target first pair)
    mapped ← tg_copies_of (first ∷ rest) pair.tg_chat_id reply_to
    for_each (record_tg_copy pair) mapped

  -- Whether the message is the bridge's own, by the ledger or by its fingerprint.
  pub is_own : BaleMsg → M Bool
  is_own m = do
    own ← query_db (was_sent bale m.chat m.message_id)
    now ← clock env
    (if own
        then pure true
        else query_db (
            check_fp now fp_window bale m.chat
              (fingerprint env.sha1 (bale_content m).kind (bale_content m).text)))

  pub unsent_bale : List BaleMsg → M (List BaleMsg)
  unfolding is_own
  unsent_bale [] = pure []
  unsent_bale (m ∷ ms) = do
    own ← is_own m
    rest ← unsent_bale ms
    pure (if own then rest else m ∷ rest)

  abbrev bale_send_guarded : List BaleMsg → PairRow → M (Unit {0})
  bale_send_guarded msgs pair = try_catch (bale_pair_send msgs pair) (λ _. skip)

  abbrev to_tg_pairs : List BaleMsg → M (Unit {0})
  to_tg_pairs [] = skip
  to_tg_pairs (first ∷ rest) = do
    pairs ← read_db (pairs_for_bale first.chat first.chat_username)
    for_each (bale_send_guarded (first ∷ rest)) pairs

  pub mirror_bale : List BaleMsg → M (Unit {0})
  unfolding unsent_bale
  mirror_bale msgs = do fresh ← unsent_bale msgs; to_tg_pairs fresh
