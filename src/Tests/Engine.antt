-- ===== src/Tests/Engine.antt =====
-- Tests of the mirroring, the edits and the deletions.
use tg_bale_bridge.Prelude.{text_eq, ◌+◌, ◌<◌, ◌≡◌, refl, true, none, [], ◌∷◌, arith}
use tg_bale_bridge.Prelude.Int.{ℤ, negsuc, str_nat, str_int, int_of}
use tg_bale_bridge.ChatId.{bare_chat_id}
use tg_bale_bridge.Db.{tg, bale, platform_eq, both}
use tg_bale_bridge.Db.MsgMap.{remove_map_row}
use tg_bale_bridge.Db.LoopCache.{is_sent}
use tg_bale_bridge.Transfer.Exec.{ok, World, for_each}
use tg_bale_bridge.Transfer.MirrorT2b.{msg_to_bale}
use tg_bale_bridge.Transfer.MirrorT2b.Mirror.{tg_key, record_copy, mirror}
use tg_bale_bridge.Transfer.MirrorB2t.Mirror.{mirror_bale}
use tg_bale_bridge.Transfer.Edits.{replace_on_bale}
use tg_bale_bridge.Transfer.Deletes.{delete_on_bale, delete_call, delete_on_tg}
use tg_bale_bridge.Transfer.Queueing.{on_tg_delete, on_bale_delete}
use tg_bale_bridge.Db.LoopCache.Laws.{copies, IsOrdered}
use tg_bale_bridge.Transfer.MirrorT2b.Mirror.Laws.{occurrences, copies-record_copy, mirror_total}
use tg_bale_bridge.Transfer.MirrorB2t.Mirror.Laws.{mirror_bale_total}
use tg_bale_bridge.Transfer.Edits.Laws.{marked_first, Replaced, replace_on_bale_lem}
use tg_bale_bridge.Transfer.Deletes.Laws.{
  succeeded, marked, silenced, delete_on_tg_lem, delete_on_bale_lem,
}
use tg_bale_bridge.Transfer.Queueing.Echo.{
  IsIgnored, without_bale_copy, without_tg_copy, delete_on_bale_echo, delete_on_tg_echo,
}
use tg_bale_bridge.Tests.{
  tg_hello, bale_chat, bale_hello, pair_of, db_of, copy_on_bale, copy_on_tg, easy_env, world_of,
  bridge_of,
}

abbrev w : World
w = world_of both

both-IsOrdered : IsOrdered (db_of both)
both-IsOrdered = (omega arith, (omega arith, omega arith))

copies-record_copy_example :
    copies bale bale_chat 12
      (for_each (record_copy easy_env (pair_of both)) ((tg_hello, 11) ∷ (tg_hello, 12) ∷ []) w).1.db
    ≡ copies bale bale_chat 12 (db_of both) + occurrences 12 ((tg_hello, 11) ∷ (tg_hello, 12) ∷ [])
copies-record_copy_example =
    copies-record_copy easy_env (pair_of both) ((tg_hello, 11) ∷ (tg_hello, 12) ∷ []) 12 w

mirror_total_example : (mirror easy_env (tg_hello ∷ []) w).0 ≡ ok tt
mirror_total_example = mirror_total easy_env (tg_hello ∷ []) w

mirror_bale_total_example : (mirror_bale easy_env (bale_hello ∷ []) w).0 ≡ ok tt
mirror_bale_total_example = mirror_bale_total easy_env (bale_hello ∷ []) w

one_left : 0 < copies tg (tg_key tg_hello.chat_id) 5 (db_of both)
unfolding is_sent platform_eq text_eq str_int str_nat bare_chat_id
one_left = omega arith

one_left_on_bale : 0 < copies bale bale_chat 9 (db_of both)
unfolding is_sent platform_eq text_eq
one_left_on_bale = omega arith

abbrev marked_world : World
marked_world = marked_first easy_env tg_hello (pair_of both) copy_on_bale w

replace_on_bale_lem_example :
    Replaced easy_env tg_hello
      (pair_of both)
      copy_on_bale
      w
      (msg_to_bale easy_env tg_hello bale_chat none marked_world).0
      (replace_on_bale easy_env tg_hello (pair_of both) copy_on_bale w)
replace_on_bale_lem_example = replace_on_bale_lem easy_env tg_hello (pair_of both) copy_on_bale w

delete_on_bale_lem_example :
    ((delete_on_bale easy_env copy_on_bale w).0 ≡ ok tt)
    × ((delete_on_bale easy_env copy_on_bale w).1.db ≡ remove_map_row 1 (db_of both))
    × (marked bale copy_on_bale (delete_on_bale easy_env copy_on_bale w).1 ≡ true)
delete_on_bale_lem_example = delete_on_bale_lem easy_env copy_on_bale w

delete_on_tg_lem_example :
    ((delete_on_tg easy_env copy_on_tg w).0 ≡ ok tt)
    × ((delete_on_tg easy_env copy_on_tg w).1.db ≡ remove_map_row 1 (db_of both))
    × (marked tg copy_on_tg (delete_on_tg easy_env copy_on_tg w).1
        ≡ succeeded (delete_call easy_env copy_on_tg (silenced easy_env copy_on_tg w)).0)
delete_on_tg_lem_example = delete_on_tg_lem easy_env copy_on_tg w

delete_on_bale_echo_example :
    IsIgnored bale copy_on_bale.chat copy_on_bale.msg
      (without_bale_copy easy_env copy_on_bale (bridge_of both))
      (on_bale_delete copy_on_bale.chat
        (copy_on_bale.msg ∷ [])
        (without_bale_copy easy_env copy_on_bale (bridge_of both)))
delete_on_bale_echo_example = delete_on_bale_echo easy_env copy_on_bale (bridge_of both) refl refl

abbrev tg_chat : ℤ
tg_chat = negsuc 1000000000041

delete_on_tg_echo_example :
    IsIgnored tg
      (tg_key tg_chat)
      copy_on_tg.msg
      (without_tg_copy easy_env copy_on_tg (bridge_of both))
      (on_tg_delete tg_chat
        (copy_on_tg.msg ∷ [])
        (without_tg_copy easy_env copy_on_tg (bridge_of both)))
unfolding str_int bare_chat_id int_of
delete_on_tg_echo_example = delete_on_tg_echo easy_env copy_on_tg (bridge_of both) tg_chat refl refl
