-- ===== src/Transfer/Deletes.antt =====
-- bridge/transfer/sync_delete.py: deletions of mirrored messages.
pub mod Laws
pub mod Direction
use tg_bale_bridge.Prelude.{if◌then◌else◌, Text, ℕ, Option, none, some, List}
use tg_bale_bridge.Prelude.Int.{int_of}
use tg_bale_bridge.Db.{tg, bale, PairRow}
use tg_bale_bridge.Db.Pairs.{get_pair}
use tg_bale_bridge.Db.MsgMap.{Counterpart, other_side, remove_map_row}
use tg_bale_bridge.Guard.{suppress, release}
use tg_bale_bridge.Transfer.Exec.{
  value_error, bale_delete_message, tg_delete_message, Env, M, ◌>>=◌, ◌>>◌, try_catch, try_bot_api,
  for_each, ask, change_db, read_db, change_guard, skip, lift,
}
use tg_bale_bridge.Transfer.MirrorT2b.Mirror.{is_on}
use tg_bale_bridge.Transfer.Edits.{takes_tg, takes_bale}

module _ (env : Env) where
  -- The body of the loop on the way to Bale, for a pair that takes deletions from Telegram.
  pub delete_on_bale : Counterpart → M (Unit {0})
  delete_on_bale o = do
    (if env.has_delete_events then change_guard (suppress bale o.chat o.msg) else skip)
    try_bot_api (ask env.act (bale_delete_message o.chat o.msg))
        (change_guard (release bale o.chat o.msg))
    change_db (remove_map_row o.row_id)

  abbrev tg_delete_in_pair : Counterpart → Option PairRow → M (Unit {0})
  tg_delete_in_pair o none = skip
  tg_delete_in_pair o (some pair) = if takes_tg pair.mode then delete_on_bale o else skip

  unfoldable pub tg_delete_one : Counterpart → M (Unit {0})
  tg_delete_one o =
      if is_on bale o
      then (do pair ← read_db (get_pair o.pair_id); tg_delete_in_pair o pair)
      else skip

  unfoldable pub tg_delete_message_copies : Text → ℕ → M (Unit {0})
  tg_delete_message_copies chat_key mid = do
    os ← read_db (other_side tg chat_key mid none)
    for_each tg_delete_one os

  unfoldable pub process_tg_delete : Text → List ℕ → M (Unit {0})
  process_tg_delete chat_key ids = for_each (tg_delete_message_copies chat_key) ids

  abbrev pub delete_call : Counterpart → M (Unit {0})
  delete_call o = do
    chat_id ← lift value_error (int_of o.chat)
    ask env.act (tg_delete_message chat_id o.msg)

  -- The body of the loop on the way to Telegram.
  pub delete_on_tg : Counterpart → M (Unit {0})
  delete_on_tg o = do
    change_guard (suppress tg o.chat o.msg)
    try_catch (delete_call o) (λ _. change_guard (release tg o.chat o.msg))
    change_db (remove_map_row o.row_id)

  abbrev bale_delete_in_pair : Counterpart → Option PairRow → M (Unit {0})
  bale_delete_in_pair o none = skip
  bale_delete_in_pair o (some pair) = if takes_bale pair.mode then delete_on_tg o else skip

  pub bale_delete_one : Counterpart → M (Unit {0})
  bale_delete_one o =
      if is_on tg o
      then (do pair ← read_db (get_pair o.pair_id); bale_delete_in_pair o pair)
      else skip

  pub bale_delete_message_copies : Text → ℕ → M (Unit {0})
  bale_delete_message_copies chat_key mid = do
    os ← read_db (other_side bale chat_key mid none)
    for_each bale_delete_one os

  pub process_bale_delete : Text → List ℕ → M (Unit {0})
  process_bale_delete chat_key ids = for_each (bale_delete_message_copies chat_key) ids
