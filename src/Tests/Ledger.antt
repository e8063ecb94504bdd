-- ===== src/Tests/Ledger.antt =====
-- Tests of the ledger, the map, the pairs, the guard, the queues and the albums.
use tg_bale_bridge.Prelude.{
  ltb, select, Text, codes, text_eq, ℕ, ◌-◌, ◌≡◌, refl, ◌↔◌, not, ◌&&◌, none, some, [], ◌∷◌, arith,
}
use tg_bale_bridge.Db.{Platform, bale, platform_eq, both}
use tg_bale_bridge.Db.MsgMap.{
  Counterpart, is_src, is_dst, src_of, opposite, collect, is_mapped, other_side,
}
use tg_bale_bridge.Db.LoopCache.{was_sent}
use tg_bale_bridge.Guard.{Guard, key_eq}
use tg_bale_bridge.Transfer.Types.{TgMsg, BaleMsg}
use tg_bale_bridge.Transfer.Albums.{Collector, no_albums, members, feed, flush}
use tg_bale_bridge.Transfer.Queueing.{
  new_job, edit_job, delete_job, TgKey, Bridge, drop_echoes, queue_bale_msg, tg_worker,
}
use tg_bale_bridge.Db.LoopCache.Laws.{copies, IsOrdered, one_if, same_msg, was_sent_lem}
use tg_bale_bridge.Db.MsgMap.Laws.{Listed, OnceEach, IsJoined, other_side_lem}
use tg_bale_bridge.Guard.Laws.{is_marked, key_eq_iff}
use tg_bale_bridge.Transfer.Queueing.Laws.{drop_echoes-eq-select, created, queue_bale_msg-created}
use tg_bale_bridge.Transfer.Queueing.Order.{rounds, drained_tg, tg_worker-Order}
use tg_bale_bridge.Transfer.Albums.Laws.{feed_all, waiting, flush-feed_all, Timed}
use tg_bale_bridge.Tests.{tg_hello, bale_chat, bale_hello, hello_row, db_of, easy_env, bridge_of}

db_of-IsOrdered : IsOrdered (db_of both)
db_of-IsOrdered = (omega arith, (omega arith, omega arith))

was_sent_lem_example :
    ((was_sent bale bale_chat 9 (db_of both)).0 ≡ ltb 0 (copies bale bale_chat 9 (db_of both)))
    × ((p : Platform) (c : Text) (m : ℕ)
        → copies p c m (was_sent bale bale_chat 9 (db_of both)).1
          ≡ copies p c m (db_of both)
            - one_if
                (ltb 0 (copies bale bale_chat 9 (db_of both)) && same_msg bale bale_chat 9 p c m))
was_sent_lem_example = was_sent_lem bale bale_chat 9 (db_of both) db_of-IsOrdered

abbrev noted : Bridge
noted = created 3 bale_chat 9 (bridge_of both)

queue_bale_msg-created_example :
    ((queue_bale_msg bale_hello noted).q_bale ≡ [])
    × ((queue_bale_msg bale_hello noted).albums_bale ≡ no_albums)
    × (copies bale bale_chat 9 (queue_bale_msg bale_hello noted).world.db
        ≡ copies bale bale_chat 9 (db_of both))
queue_bale_msg-created_example =
    queue_bale_msg-created 3 bale_hello (bridge_of both) db_of-IsOrdered

abbrev other_hello : BaleMsg
other_hello = let m = bale_hello in record m { message_id = 10 }

abbrev marked_guard : Guard
marked_guard = record { ignore_tg = []; ignore_bale = (bale_chat, 9) ∷ [] }

drop_echoes-eq-select_example :
    (drop_echoes bale bale_chat (9 ∷ 10 ∷ []) marked_guard).0
    ≡ select (λ m. not (is_marked bale bale_chat m marked_guard)) (9 ∷ 10 ∷ [])
drop_echoes-eq-select_example =
    drop_echoes-eq-select bale bale_chat (9 ∷ 10 ∷ []) marked_guard ((refl, tt), (tt, tt))

other_side_lem_example :
    OnceEach (other_side bale bale_chat 9 none (db_of both))
    × ((o : Counterpart)
        → Listed o (other_side bale bale_chat 9 none (db_of both))
          ↔ IsJoined bale bale_chat 9 none (db_of both).msg_map.rows o)
other_side_lem_example = other_side_lem bale bale_chat 9 none (db_of both)

-- The message on Bale has one counterpart, the message on Telegram that the row has as its source.
hello_counterpart : other_side bale bale_chat 9 none (db_of both) ≡ src_of hello_row ∷ []
unfolding other_side is_mapped collect opposite is_src is_dst platform_eq text_eq src_of
hello_counterpart = refl

abbrev busy : Bridge
busy =
    let b = bridge_of both in
    record b {
      q_tg = new_job (tg_hello ∷ []) ∷ edit_job tg_hello ∷ [];
      q_bale = delete_job bale_chat (9 ∷ []) ∷ [];
    }

tg_worker-Order_example : rounds 2 (tg_worker easy_env) busy ≡ drained_tg easy_env busy
tg_worker-Order_example = tg_worker-Order easy_env busy

abbrev album : TgKey
album = (codes "42", 7)

abbrev msg_id : TgMsg → ℕ
msg_id m = m.id

abbrev second : TgMsg
second = let m = tg_hello in record m { id = 6 }

flush-feed_all_example :
    ((flush key_eq msg_id album
        (feed_all key_eq msg_id key_eq_iff album (second ∷ tg_hello ∷ []) no_albums)).0
      ≡ some (tg_hello ∷ second ∷ []))
    × ((k : TgKey)
        → waiting key_eq msg_id key_eq_iff k
            (flush key_eq msg_id album
              (feed_all key_eq msg_id key_eq_iff album (second ∷ tg_hello ∷ []) no_albums)).1
          ≡ waiting key_eq msg_id key_eq_iff k no_albums)
unfolding members
flush-feed_all_example =
    flush-feed_all key_eq msg_id key_eq_iff album second (tg_hello ∷ []) no_albums refl

abbrev one_album : Collector TgKey TgMsg
one_album = feed key_eq msg_id album tg_hello no_albums

no_albums-Timed : Timed key_eq msg_id key_eq_iff no_albums
unfolding members
no_albums-Timed k = refl
