-- ===== src/Transfer/Queueing.antt =====
-- bridge/transfer/queueing.py and bridge/transfer/facade.py: the two queues, their workers, and the
-- points where events come in.
pub mod Laws
pub mod Order
pub mod Echo
use tg_bale_bridge.Prelude.{
  ◌==◌, if◌then◌else◌, null, Text, text_eq, ℕ, Bool, not, ◌&&◌, Option, none, some, List, [], ◌∷◌,
  ◌++◌,
}
use tg_bale_bridge.Prelude.Int.{ℤ}
use tg_bale_bridge.Db.{Platform, tg, bale, Database}
use tg_bale_bridge.Db.LoopCache.{was_sent}
use tg_bale_bridge.Guard.{Guard, key_eq, consume}
use tg_bale_bridge.Transfer.Types.{TgMsg, BaleMsg}
use tg_bale_bridge.Transfer.Exec.{Env, World, M}
use tg_bale_bridge.Transfer.MirrorT2b.Mirror.{tg_key, mirror}
use tg_bale_bridge.Transfer.MirrorB2t.Mirror.{mirror_bale}
use tg_bale_bridge.Transfer.Edits.{process_tg_edit, process_bale_edit}
use tg_bale_bridge.Transfer.Deletes.{process_tg_delete, process_bale_delete}
use tg_bale_bridge.Transfer.Albums.{Collector, feed}
use tg_bale_bridge.Transfer.Albums

-- What the queues hold: ("new", msgs), ("edit", msg), ("delete", (chat_key, ids)).
pub data Job (Msg : Type 0) : Type 0 where
  new_job : List Msg → Job Msg
  edit_job : Msg → Job Msg
  delete_job : Text → List ℕ → Job Msg

abbrev pub TgKey : Type 0
TgKey = Text × ℕ

abbrev BaleKey : Type 0
BaleKey = Text × Text

pub bale_key_eq : BaleKey → BaleKey → Bool
bale_key_eq (c, g) (c', g') = text_eq c c' && text_eq g g'

-- facade.py: the engine with what it owns.
pub record Bridge : Type 0 where
  pub world : World
  pub albums_tg : Collector TgKey TgMsg
  pub albums_bale : Collector BaleKey BaleMsg
  pub q_tg : List (Job TgMsg)
  pub q_bale : List (Job BaleMsg)
  pub paused : Bool

abbrev put_tg : Job TgMsg → Bridge → Bridge
put_tg job b = record b { q_tg = b.q_tg ++ job ∷ [] }

abbrev put_bale : Job BaleMsg → Bridge → Bridge
put_bale job b = record b { q_bale = b.q_bale ++ job ∷ [] }

abbrev with_db : Database → Bridge → Bridge
with_db db b = let w = b.world in record b { world = record w { db = db } }

abbrev with_guard : Guard → Bridge → Bridge
with_guard g b = let w = b.world in record b { world = record w { guard = g } }

-- `guard.seen`: the answer of the ledger, and the bridge with the record used up.
seen : Platform → Text → ℕ → Bridge → Bool × Bridge
seen p chat mid b = let (own, db') = was_sent p chat mid b.world.db in (own, with_db db' b)

unfoldable pub on_tg_new : TgMsg → Bridge → Bridge
unfolding seen
on_tg_new msg b =
    let chat_key = tg_key msg.chat_id in
    let (own, b') = seen tg chat_key msg.id b in
    if own
    then b'
    else if not (msg.grouped_id == 0)
    then record b' {
      albums_tg = feed key_eq (λ (m : TgMsg). m.id) (chat_key, msg.grouped_id) msg b'.albums_tg;
    }
    else put_tg (new_job (msg ∷ [])) b'

pub on_tg_edit : TgMsg → Bridge → Bridge
unfolding seen
on_tg_edit msg b =
    let (own, b') = seen tg (tg_key msg.chat_id) msg.id b in
    if own then b' else put_tg (edit_job msg) b'

-- The identifiers that are no echo, and the guard without the marks that were used up.
pub drop_echoes : Platform → Text → List ℕ → Guard → List ℕ × Guard
drop_echoes p chat [] g = ([], g)
drop_echoes p chat (mid ∷ mids) g =
    let (echo, g') = consume p chat mid g in
    let (rest, g'') = drop_echoes p chat mids g' in (if echo then rest else mid ∷ rest, g'')

abbrev put_tg_delete : Text → List ℕ → Bridge → Bridge
put_tg_delete chat [] b = b
put_tg_delete chat (i ∷ is) b = put_tg (delete_job chat (i ∷ is)) b

unfoldable pub on_tg_delete : ℤ → List ℕ → Bridge → Bridge
unfolding drop_echoes
on_tg_delete chat_id deleted_ids b =
    let chat_key = tg_key chat_id in
    let (ids, g') = drop_echoes tg chat_key deleted_ids b.world.guard in
    put_tg_delete chat_key ids (with_guard g' b)

abbrev pub put_bale_delete : Text → List ℕ → Bridge → Bridge
put_bale_delete chat [] b = b
put_bale_delete chat (i ∷ is) b = put_bale (delete_job chat (i ∷ is)) b

unfoldable pub on_bale_delete : Text → List ℕ → Bridge → Bridge
unfolding drop_echoes
on_bale_delete chat deleted_ids b =
    let (ids, g') = drop_echoes bale chat deleted_ids b.world.guard in
    put_bale_delete chat ids (with_guard g' b)

unfoldable pub queue_bale_msg : BaleMsg → Bridge → Bridge
unfolding seen
queue_bale_msg m b =
    let (own, b') = seen bale m.chat m.message_id b in
    if own
    then b'
    else if not (null m.media_group_id)
    then record b' {
      albums_bale =
          feed bale_key_eq (λ (x : BaleMsg). x.message_id) (m.chat, m.media_group_id) m
            b'.albums_bale;
    }
    else put_bale (new_job (m ∷ [])) b'

unfoldable pub queue_bale_edit : BaleMsg → Bridge → Bridge
queue_bale_edit m b = put_bale (edit_job m) b

abbrev put_tg_album : Option (List TgMsg) → Bridge → Bridge
put_tg_album none b = b
put_tg_album (some msgs) b = put_tg (new_job msgs) b

-- The timer of a Telegram album fires.
flush_tg : TgKey → Bridge → Bridge
flush_tg k b =
    let (msgs, c) = Albums.flush key_eq (λ (m : TgMsg). m.id) k b.albums_tg in
    put_tg_album msgs (record b { albums_tg = c })

abbrev put_bale_album : Option (List BaleMsg) → Bridge → Bridge
put_bale_album none b = b
put_bale_album (some msgs) b = put_bale (new_job msgs) b

flush_bale : BaleKey → Bridge → Bridge
flush_bale k b =
    let (msgs, c) = Albums.flush bale_key_eq (λ (m : BaleMsg). m.message_id) k b.albums_bale in
    put_bale_album msgs (record b { albums_bale = c })

-- `Bridge.paused = value`
unfoldable pub set_paused : Bool → Bridge → Bridge
set_paused value b = record b { paused = value }

module _ (env : Env) where
  -- The handlers that `Bridge.__init__` gives to the queues.
  pub tg_handler : Job TgMsg → M (Unit {0})
  tg_handler (new_job msgs) = mirror env msgs
  tg_handler (edit_job msg) = process_tg_edit env msg
  tg_handler (delete_job chat ids) = process_tg_delete env chat ids

  pub bale_handler : Job BaleMsg → M (Unit {0})
  bale_handler (new_job msgs) = mirror_bale env msgs
  bale_handler (edit_job m) = process_bale_edit env m
  bale_handler (delete_job chat ids) = process_bale_delete env chat ids

  abbrev run_tg : Job TgMsg → Bridge → Bridge
  run_tg job b = if b.paused then b else record b { world = (tg_handler job b.world).1 }

  abbrev run_bale : Job BaleMsg → Bridge → Bridge
  run_bale job b = if b.paused then b else record b { world = (bale_handler job b.world).1 }

  abbrev work_tg : List (Job TgMsg) → Bridge → Bridge
  work_tg [] b = b
  work_tg (job ∷ jobs) b = run_tg job (record b { q_tg = jobs })

  abbrev work_bale : List (Job BaleMsg) → Bridge → Bridge
  work_bale [] b = b
  work_bale (job ∷ jobs) b = run_bale job (record b { q_bale = jobs })

  -- One round of a worker: the oldest job leaves the queue; an exception of its handler is logged.
  pub tg_worker : Bridge → Bridge
  tg_worker b = work_tg b.q_tg b

  pub bale_worker : Bridge → Bridge
  bale_worker b = work_bale b.q_bale b
