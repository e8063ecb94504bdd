-- ===== src/BaleRouting/Laws.antt =====
-- bridge/bale/routing.py: private messages, and the offset.
use tg_bale_bridge.Prelude.{
  if◌then◌else◌, Option-cases, find, Text, text_eq_refl, ℕ, ◌≡◌, refl, inl, inr, true, Option, none,
  some, List, [], ◌∷◌, arith,
}
use tg_bale_bridge.Prelude.Int.{str_nat}
use tg_bale_bridge.Db.{Platform, bale, Database}
use tg_bale_bridge.Db.Meta.{get_meta, get_meta-set_meta}
use tg_bale_bridge.Db.LoopCache.{is_sent, was_sent}
use tg_bale_bridge.Transfer.Types.{BaleMsg}
use tg_bale_bridge.Transfer.Queueing.{
  Bridge, put_bale_delete, on_bale_delete, queue_bale_msg, queue_bale_edit,
}
use tg_bale_bridge.BaleRouting.{
  Side, Incoming, BaleUpdate, is_known, panel_message, offset_key, save_offset, on_message,
  on_edited, on_deleted, handle_update,
}

-- A private message that is no edit and no deletion never reaches the queues; in the mode of a user
-- account it reaches the panel only if it is from the administrator.
handle_update_private :
    (s : Side) (i : Incoming) (offset : ℕ) (b : Bridge)
    → i.private_chat ≡ true
    → ((handle_update s
          (record { deleted_messages = none; edited = none; message = some i })
          offset
          b).1
        ≡ save_offset offset b)
      × ((handle_update s
            (record { deleted_messages = none; edited = none; message = some i })
            offset
            b).0
          ≡ (if is_known s i.sender then panel_message s i else none))
unfolding handle_update panel_message
handle_update_private s i offset b h = ground arith

abbrev meta_of : Bridge → List (Text × Text)
meta_of b = b.world.db.meta

was_sent-meta :
    (p : Platform) (c : Text) (m : ℕ) (db : Database) → (was_sent p c m db).1.meta ≡ db.meta
unfolding was_sent
was_sent-meta p c m db = elim (Option-cases (find (is_sent p c m) db.sent.rows)) [
  | inl e ↦ rw e refl
  | inr (r, e) ↦ rw e refl
]

queue_bale_msg-meta : (m : BaleMsg) (b : Bridge) → meta_of (queue_bale_msg m b) ≡ meta_of b
unfolding queue_bale_msg
queue_bale_msg-meta m b = ground (arith, was_sent-meta bale m.chat m.message_id b.world.db)

put_bale_delete-meta :
    (chat : Text) (ids : List ℕ) (b : Bridge) → meta_of (put_bale_delete chat ids b) ≡ meta_of b
put_bale_delete-meta chat [] b = refl
put_bale_delete-meta chat (i ∷ is) b = refl

on_bale_delete-meta :
    (chat : Text) (ids : List ℕ) (b : Bridge) → meta_of (on_bale_delete chat ids b) ≡ meta_of b
unfolding on_bale_delete
on_bale_delete-meta chat ids b = put_bale_delete-meta chat _ _

queue_bale_edit-meta : (m : BaleMsg) (b : Bridge) → meta_of (queue_bale_edit m b) ≡ meta_of b
unfolding queue_bale_edit
queue_bale_edit-meta m b = refl

on_message-meta :
    (s : Side) (m : Option Incoming) (b : Bridge) → meta_of (on_message s m b).1 ≡ meta_of b
on_message-meta s none b = refl
on_message-meta s (some i) b = ground (arith, queue_bale_msg-meta i.msg b)

on_edited-meta :
    (s : Side) (em : Option BaleMsg) (m : Option Incoming) (b : Bridge)
    → meta_of (on_edited s em m b).1 ≡ meta_of b
on_edited-meta s (some em) m b = ground (arith, queue_bale_edit-meta em b)
on_edited-meta s none m b = on_message-meta s m b

on_deleted-meta :
    (s : Side) (d : Option (Text × List ℕ)) (upd : BaleUpdate) (b : Bridge)
    → meta_of (on_deleted s d upd b).1 ≡ meta_of b
on_deleted-meta s (some (chat, ids)) upd b = ground (arith, on_bale_delete-meta chat ids b)
on_deleted-meta s none upd b = on_edited-meta s upd.edited upd.message b

-- Whatever the update is and wherever it goes, its offset is what the settings hold afterwards.
pub handle_update_offset :
    (s : Side) (upd : BaleUpdate) (offset : ℕ) (b : Bridge)
    → get_meta (handle_update s upd offset b).1.world.db offset_key ≡ some (str_nat offset)
unfolding handle_update save_offset get_meta
handle_update_offset s upd offset b =
    rw (on_deleted-meta s upd.deleted_messages upd (save_offset offset b)) (
      ground (
        arith,
        get_meta-set_meta b.world.db offset_key offset_key (str_nat offset),
        text_eq_refl offset_key,
      ))
