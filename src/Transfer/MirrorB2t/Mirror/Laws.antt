-- ===== src/Transfer/MirrorB2t/Mirror/Laws.antt =====
-- bridge/transfer/mirror_b2t.py: the ledger, and exceptions.
use tg_bale_bridge.Prelude.{
  ◌==◌, if◌then◌else◌, Bool-cases, Text, text_eq_refl, ℕ, ◌+◌, ◌<◌, ◌≡◌, refl, inl, inr, Bool, true,
  List, [], ◌∷◌, arith,
}
use tg_bale_bridge.Prelude.Int.{str_int}
use tg_bale_bridge.Db.{tg, bale, platform_eq, PairRow, Database}
use tg_bale_bridge.Db.MsgMap.{add_map}
use tg_bale_bridge.Db.LoopCache.{fp_window, was_sent, add_fp, check_fp}
use tg_bale_bridge.Transfer.Types.{BaleMsg, bale_content, fingerprint}
use tg_bale_bridge.Transfer.Exec.{ok, Env, World, for_each}
use tg_bale_bridge.Db.LoopCache.Laws.{
  copies, IsOrdered, copies-mark_sent, was_sent_lem, same_msg_refl,
}
use tg_bale_bridge.Transfer.MirrorT2b.Mirror.Laws.{guarded_total}
use tg_bale_bridge.Transfer.MirrorB2t.Mirror.{
  record_tg_copy, bale_pair_send, is_own, unsent_bale, to_tg_pairs, mirror_bale,
}

abbrev tg_occurrences : ℕ → List (BaleMsg × ℕ) → ℕ
tg_occurrences n [] = 0
tg_occurrences n ((m, tid) ∷ ms) = (if tid == n then 1 else 0) + tg_occurrences n ms

-- The Telegram chat of a pair, as the map and the ledger hold it.
abbrev pub chat_of : PairRow → Text
chat_of pair = str_int pair.tg_chat_id

module _ (env : Env) where
  copies-add_map :
      (pair : PairRow) (m : BaleMsg) (tid n : ℕ) (db : Database)
      → copies tg
          (chat_of pair)
          n
          (add_map pair.id bale m.chat m.message_id tg (chat_of pair) tid db)
        ≡ copies tg (chat_of pair) n db
  unfolding add_map
  copies-add_map pair m tid n db = refl

  record_tg_copy_lem :
      (pair : PairRow) (m : BaleMsg) (tid n : ℕ) (w : World)
      → copies tg (chat_of pair) n (record_tg_copy env pair (m, tid) w).1.db
        ≡ copies tg (chat_of pair) n w.db + (if tid == n then 1 else 0)
  unfolding record_tg_copy add_fp platform_eq
  record_tg_copy_lem pair m tid n w = ground (
    arith,
    copies-mark_sent (env.now w.trace) tg (chat_of pair) tid tg (chat_of pair) n
        (add_map pair.id bale m.chat m.message_id tg (chat_of pair) tid w.db),
    copies-add_map pair m tid n w.db,
    text_eq_refl (chat_of pair),
  )

  -- Once the copies of a batch from Bale are recorded, the ledger counts one record more of the
  -- pair's Telegram chat for every time that a message with the identifier was created.
  copies-record_tg_copy :
      (pair : PairRow) (mapped : List (BaleMsg × ℕ)) (n : ℕ) (w : World)
      → copies tg (chat_of pair) n (for_each (record_tg_copy env pair) mapped w).1.db
        ≡ copies tg (chat_of pair) n w.db + tg_occurrences n mapped
  unfolding for_each record_tg_copy
  copies-record_tg_copy pair [] n w = omega arith
  copies-record_tg_copy pair ((m, tid) ∷ ms) n w =
      let later = copies-record_tg_copy pair ms n (record_tg_copy env pair (m, tid) w).1 in
      let now = record_tg_copy_lem pair m tid n w in omega arith

  is_own_total :
      (m : BaleMsg) (w : World) → (own : Bool) × (w' : World) × (is_own env m w ≡ (ok own, w'))
  unfolding is_own
  is_own_total m w = elim (Bool-cases (was_sent bale m.chat m.message_id w.db).0) [
    | inl e ↦ (true, record w { db = (was_sent bale m.chat m.message_id w.db).1 }, rw e refl)
    | inr e ↦
        let fp = fingerprint env.sha1 (bale_content m).kind (bale_content m).text in
        let checked =
          check_fp (env.now w.trace) fp_window bale m.chat fp
            (was_sent bale m.chat m.message_id w.db).1 in
        (checked.0, record w { db = checked.1 }, rw e refl)
  ]

  unsent_bale_total :
      (msgs : List BaleMsg) (w : World)
      → (fresh : List BaleMsg) × (w' : World) × (unsent_bale env msgs w ≡ (ok fresh, w'))
  unfolding unsent_bale
  unsent_bale_total [] w = ([], w, refl)
  unsent_bale_total (m ∷ ms) w =
      let (own, w1, e) = is_own_total m w in
      let (fresh, w2, e') = unsent_bale_total ms w1 in
      ((if own then fresh else m ∷ fresh), w2, rw (e, e') refl)

  to_tg_pairs_total : (msgs : List BaleMsg) (w : World) → (to_tg_pairs env msgs w).0 ≡ ok tt
  to_tg_pairs_total [] w = refl
  to_tg_pairs_total (first ∷ rest) w = guarded_total (bale_pair_send env (first ∷ rest)) _ w

  -- Whatever the platforms answer, mirroring a batch from Bale ends without an exception.
  pub mirror_bale_total : (msgs : List BaleMsg) (w : World) → (mirror_bale env msgs w).0 ≡ ok tt
  unfolding mirror_bale
  mirror_bale_total msgs w =
      let (fresh, w', e) = unsent_bale_total msgs w in rw e (to_tg_pairs_total fresh w')

  -- A message from Bale that is in the ordered ledger is not mirrored back: no client is called,
  -- and one of its records is used up.
  mirror_bale_own :
      (m : BaleMsg) (w : World)
      → IsOrdered w.db
      → 0 < copies bale m.chat m.message_id w.db
      → ((mirror_bale env (m ∷ []) w).1.trace ≡ w.trace)
        × (copies bale m.chat m.message_id (mirror_bale env (m ∷ []) w).1.db + 1
            ≡ copies bale m.chat m.message_id w.db)
  unfolding mirror_bale unsent_bale is_own
  mirror_bale_own m w h k = ground (
    arith,
    (was_sent_lem bale m.chat m.message_id w.db h).0,
    (was_sent_lem bale m.chat m.message_id w.db h).1 bale m.chat m.message_id,
    same_msg_refl bale m.chat m.message_id,
  )
