-- ===== src/Transfer/Edits.antt =====
-- bridge/transfer/sync_edit.py: edits of mirrored messages, with a replacement where the edit is
-- refused.
pub mod Laws
use tg_bale_bridge.Prelude.{
  if◌then◌else◌, Text, ℕ, Bool, true, false, Option, none, some, List, [], ◌∷◌,
}
use tg_bale_bridge.Prelude.Int.{ℤ, int_of}
use tg_bale_bridge.Db.{Platform, tg, bale, Mode, tg2bale, bale2tg, PairRow}
use tg_bale_bridge.Db.Pairs.{get_pair}
use tg_bale_bridge.Db.MsgMap.{Counterpart, other_side, replace_map_dst}
use tg_bale_bridge.Db.LoopCache.{mark_sent}
use tg_bale_bridge.Guard.{suppress, release}
use tg_bale_bridge.Textfmt.Utf16.{Entity, build_entities}
use tg_bale_bridge.Textfmt.Splitting.{truncate}
use tg_bale_bridge.Textfmt.TgToBale.{tg_text_to_bale}
use tg_bale_bridge.Textfmt.BaleToTg.{bale_text_to_tg}
use tg_bale_bridge.Transfer.Types.{Kind, TgMsg, tg_kind, BaleMsg, bale_content}
use tg_bale_bridge.Transfer.Exec.{
  bot_api_error, value_error, Call, bale_edit_message_text, bale_edit_message_caption,
  bale_delete_message, tg_get_message, tg_delete_message, tg_edit_message, Env, M, ◌>>=◌, ◌>>◌,
  try_catch, try_bot_api, try_type, for_each, ask, change_db, read_db, change_guard, clock, skip,
  lift,
}
use tg_bale_bridge.Transfer.MirrorT2b.{msg_to_bale}
use tg_bale_bridge.Transfer.MirrorT2b.Mirror.{tg_key, is_on}
use tg_bale_bridge.Transfer.MirrorB2t.{resolve, msg_to_tg}

abbrev head_of : List ℕ → Option ℕ
head_of [] = none
head_of (i ∷ is) = some i

-- `not pair or pair["mode"] == "bale2tg"` does not hold.
pub takes_tg : Mode → Bool
takes_tg bale2tg = false
takes_tg _ = true

-- `not pair or pair["mode"] == "tg2bale"` does not hold.
pub takes_bale : Mode → Bool
takes_bale tg2bale = false
takes_bale _ = true

module _ (env : Env) where
  -- The new message takes the old one's place in the map, and in the ledger.
  pub adopt : Platform → Counterpart → ℕ → M (Unit {0})
  adopt p o i = do
    change_db (replace_map_dst o.row_id p o.chat i)
    now ← clock env
    change_db (mark_sent now p o.chat i)

  pub replace_on_bale : TgMsg → PairRow → Counterpart → M (Unit {0})
  replace_on_bale msg pair o = do
    change_guard (suppress bale o.chat o.msg)
    try_catch
        (do
          ids ← msg_to_bale env msg pair.bale_chat_id none
          i ← lift bot_api_error (head_of ids)
          try_catch (ask env.act (bale_delete_message o.chat o.msg)) (λ _. skip)
          adopt bale o i)
        (λ _. change_guard (release bale o.chat o.msg))

  abbrev edit_call : Kind → Counterpart → Text → Call
  edit_call Kind.text o body = bale_edit_message_text o.chat o.msg body
  edit_call _ o body = bale_edit_message_caption o.chat o.msg body

  pub edit_on_bale : TgMsg → PairRow → Counterpart → M (Unit {0})
  edit_on_bale msg pair o =
      try_bot_api
        (ask env.act (
          edit_call (tg_kind msg) o
            (truncate (tg_text_to_bale msg.message msg.entities) env.cfg.limit_text)))
        (replace_on_bale msg pair o)

  abbrev tg_edit_in_pair : TgMsg → Counterpart → Option PairRow → M (Unit {0})
  tg_edit_in_pair msg o none = skip
  tg_edit_in_pair msg o (some pair) = if takes_tg pair.mode then edit_on_bale msg pair o else skip

  unfoldable pub tg_edit_one : TgMsg → Counterpart → M (Unit {0})
  tg_edit_one msg o =
      if is_on bale o
      then (do pair ← read_db (get_pair o.pair_id); tg_edit_in_pair msg o pair)
      else skip

  unfoldable pub process_tg_edit : TgMsg → M (Unit {0})
  process_tg_edit msg = do
    os ← read_db (other_side tg (tg_key msg.chat_id) msg.id none)
    for_each (tg_edit_one msg) os

  abbrev adopt_first : Counterpart → List ℕ → M (Unit {0})
  adopt_first o [] = skip
  adopt_first o (i ∷ is) = adopt tg o i

  -- The old message is deleted before the new one is sent.
  replace_on_tg : BaleMsg → Counterpart → M (Unit {0})
  replace_on_tg m o =
      try_catch
        (do
          change_guard (suppress tg o.chat o.msg)
          chat_id ← lift value_error (int_of o.chat)
          ask env.act (tg_delete_message chat_id o.msg)
          res ← msg_to_tg env m chat_id none
          adopt_first o res)
        (λ _. skip)

  edit_tg_message : ℤ → Counterpart → Text × List Entity → M (Unit {0})
  edit_tg_message chat_id o (plain, ents) =
      try_type (ask env.act (tg_edit_message chat_id o.msg plain (build_entities plain ents)))
        (ask env.act (tg_edit_message chat_id o.msg plain []))

  edit_on_tg : BaleMsg → Counterpart → M (Unit {0})
  edit_on_tg m o =
      try_catch
        (do
          chat_id ← lift value_error (int_of o.chat)
          resolve env chat_id
          found ← ask env.exists (tg_get_message chat_id o.msg)
          (if found
              then edit_tg_message chat_id o (bale_text_to_tg (bale_content m).text)
              else skip))
        (λ _. replace_on_tg m o)

  abbrev bale_edit_in_pair : BaleMsg → Counterpart → Option PairRow → M (Unit {0})
  bale_edit_in_pair m o none = skip
  bale_edit_in_pair m o (some pair) = if takes_bale pair.mode then edit_on_tg m o else skip

  bale_edit_one : BaleMsg → Counterpart → M (Unit {0})
  bale_edit_one m o =
      if is_on tg o
      then (do pair ← read_db (get_pair o.pair_id); bale_edit_in_pair m o pair)
      else skip

  pub process_bale_edit : BaleMsg → M (Unit {0})
  process_bale_edit m = do
    os ← read_db (other_side bale m.chat m.message_id none)
    for_each (bale_edit_one m) os
