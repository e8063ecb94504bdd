-- ===== src/Transfer/Edits/Laws.antt =====
-- bridge/transfer/sync_edit.py: what becomes of an edit that Bale refuses, on every answer.
use tg_bale_bridge.Prelude.{
  ==_refl, Text, text_eq_refl, ℕ, ◌+◌, ◌≡◌, refl, Bool, true, false, none, List, [], ◌∷◌, arith,
}
use tg_bale_bridge.Db.{Platform, bale, platform_eq, PairRow, Database}
use tg_bale_bridge.Db.MsgMap.{Counterpart, replace_map_dst}
use tg_bale_bridge.Db.LoopCache.{mark_sent}
use tg_bale_bridge.Guard.{Guard, suppress, release}
use tg_bale_bridge.Transfer.Types.{TgMsg}
use tg_bale_bridge.Transfer.Exec.{
  Outcome, ok, raised, bale_delete_message, Env, World, handle, skip,
}
use tg_bale_bridge.Transfer.Edits.{adopt, replace_on_bale}
use tg_bale_bridge.Guard.Laws.{is_marked, is_marked-suppress, is_marked-release}
use tg_bale_bridge.Db.LoopCache.Laws.{copies, copies-mark_sent, same_msg_refl}
use tg_bale_bridge.Transfer.MirrorT2b.{msg_to_bale}
use tg_bale_bridge.Transfer.MirrorT2b.Frame.{msg_to_bale-Frames}

mark_of :
    (o : Counterpart) (g : Guard)
    → is_marked bale o.chat o.msg (suppress bale o.chat o.msg g) ≡ true
unfolding platform_eq
mark_of o g = ground (
  arith,
  is_marked-suppress bale o.chat o.msg bale o.chat o.msg g,
  text_eq_refl o.chat,
  ==_refl o.msg,
)

unmark_of :
    (o : Counterpart) (g : Guard)
    → is_marked bale o.chat o.msg (release bale o.chat o.msg g) ≡ false
unfolding platform_eq
unmark_of o g = ground (
  arith,
  is_marked-release bale o.chat o.msg bale o.chat o.msg g,
  text_eq_refl o.chat,
  ==_refl o.msg,
)

copies-replace_map_dst :
    (row : ℕ) (p : Platform) (chat : Text) (i : ℕ) (db : Database)
    → copies p chat i (replace_map_dst row p chat i db) ≡ copies p chat i db
unfolding replace_map_dst
copies-replace_map_dst row p chat i db = refl

copies_adopted :
    (now row : ℕ) (chat : Text) (i : ℕ) (db : Database)
    → copies bale chat i (mark_sent now bale chat i (replace_map_dst row bale chat i db))
      ≡ copies bale chat i db + 1
copies_adopted now row chat i db = ground (
  arith,
  copies-mark_sent now bale chat i bale chat i (replace_map_dst row bale chat i db),
  copies-replace_map_dst row bale chat i db,
  same_msg_refl bale chat i,
)

absorbed : (a : Outcome (Unit {0})) (v : World) → handle (λ _. skip) (a, v) ≡ (ok tt, v)
absorbed (ok tt) v = refl
absorbed (raised e) v = refl

-- What adopting a message stores.
adopt_lem :
    (env : Env) (o : Counterpart) (i : ℕ) (v : World)
    → adopt env bale o i v ≡ (
      ok tt,
      record v {
        db =
            mark_sent (env.now v.trace) bale o.chat i (replace_map_dst o.row_id bale o.chat i v.db);
      },
    )
unfolding adopt
adopt_lem env o i v = refl

mark_sent-msg_map :
    (now : ℕ) (p : Platform) (c : Text) (m : ℕ) (db : Database)
    → (mark_sent now p c m db).msg_map ≡ db.msg_map
unfolding mark_sent
mark_sent-msg_map now p c m db = refl

module _ (env : Env) (msg : TgMsg) (pair : PairRow) (o : Counterpart) (w : World) where
  -- The world in which the replacement is sent: the old copy is marked.
  abbrev pub marked_first : World
  marked_first = record w { guard = suppress bale o.chat o.msg w.guard }

  abbrev Kept : Bool → Outcome (Unit {0}) × World → Type 0
  Kept b r = (r.0 ≡ ok tt) × (is_marked bale o.chat o.msg r.1.guard ≡ b)

  -- What a replacement leaves behind, by what sending the new message came to.
  abbrev pub Replaced : Outcome (List ℕ) → Outcome (Unit {0}) × World → Type 0
  Replaced (ok []) r = Kept false r × (r.1.db ≡ w.db)
  Replaced (ok (i ∷ is)) r =
      Kept true r
      × (r.1.db.msg_map ≡ (replace_map_dst o.row_id bale o.chat i w.db).msg_map)
      × (copies bale o.chat i r.1.db ≡ copies bale o.chat i w.db + 1)
  Replaced (raised e) r = Kept false r × (r.1.db ≡ w.db)

  replace_on_bale-Replaced :
      (s : Outcome (List ℕ) × World)
      → msg_to_bale env msg pair.bale_chat_id none marked_first ≡ s
      → s.1.db ≡ w.db
      → s.1.guard ≡ marked_first.guard
      → Replaced s.0 (replace_on_bale env msg pair o w)
  unfolding replace_on_bale adopt
  replace_on_bale-Replaced (ok [], v) e d g = rw e ((refl, unmark_of o v.guard), d)
  replace_on_bale-Replaced (ok (i ∷ is), v) e d g =
      let call = bale_delete_message o.chat o.msg in
      let asked = record v { trace = call ∷ v.trace } in
      rw (e, absorbed (env.act v.trace call) asked, d)
        (
          (refl, rw g (mark_of o w.guard)),
          mark_sent-msg_map _ bale o.chat i _,
          copies_adopted _ o.row_id o.chat i w.db,
        )
  replace_on_bale-Replaced (raised x, v) e d g = rw e ((refl, unmark_of o v.guard), d)

  -- Replacing a copy in Bale that cannot be edited never raises: if no new message came about,
  -- nothing is stored and the old copy is not marked; otherwise the map row points to the first
  -- new message, the ledger counts it once more, and the old copy stays marked, whether or not
  -- Bale could delete it.
  pub replace_on_bale_lem :
      Replaced
        (msg_to_bale env msg pair.bale_chat_id none marked_first).0
        (replace_on_bale env msg pair o w)
  replace_on_bale_lem =
      let frames = msg_to_bale-Frames env msg pair.bale_chat_id none in
      replace_on_bale-Replaced _ refl (frames.db_kept marked_first) (frames.guard_kept marked_first)
