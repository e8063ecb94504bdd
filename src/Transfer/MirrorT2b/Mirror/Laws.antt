-- ===== src/Transfer/MirrorT2b/Mirror/Laws.antt =====
-- bridge/transfer/mirror_t2b.py: the ledger, and exceptions.
use tg_bale_bridge.Prelude.{
  ◌==◌, if◌then◌else◌, text_eq_refl, ℕ, ◌+◌, ◌<◌, ◌≡◌, refl, List, [], ◌∷◌, arith,
}
use tg_bale_bridge.Db.{tg, bale, platform_eq, PairRow, Database}
use tg_bale_bridge.Db.MsgMap.{add_map}
use tg_bale_bridge.Db.LoopCache.{was_sent, add_fp}
use tg_bale_bridge.Transfer.Types.{TgMsg}
use tg_bale_bridge.Transfer.Exec.{
  Outcome, ok, raised, Env, World, M, continue, handle, try_catch, for_each, skip,
}
use tg_bale_bridge.Db.LoopCache.Laws.{
  copies, IsOrdered, copies-mark_sent, was_sent_lem, same_msg_refl,
}
use tg_bale_bridge.Transfer.MirrorT2b.Mirror.{
  tg_key, record_copy, pair_send, unsent, to_pairs, mirror,
}

-- How many of the messages have this identifier.
abbrev pub occurrences : ℕ → List (TgMsg × ℕ) → ℕ
occurrences n [] = 0
occurrences n ((m, did) ∷ ms) = (if did == n then 1 else 0) + occurrences n ms

-- An exception that is logged does not stop what comes next.
skipped_ok :
    (r : Outcome (Unit {0}) × World) (k : M (Unit {0}))
    → ((w : World) → (k w).0 ≡ ok tt)
    → (continue (λ _. k) (handle (λ _. skip) r)).0 ≡ ok tt
skipped_ok (ok a, w) k h = h w
skipped_ok (raised e, w) k h = h w

pub guarded_total :
    {A : Type 0} (f : A → M (Unit {0})) (xs : List A) (w : World)
    → (for_each (λ a. try_catch (f a) (λ _. skip)) xs w).0 ≡ ok tt
unfolding for_each
guarded_total f [] w = refl
guarded_total f (x ∷ xs) w =
    skipped_ok (f x w) (for_each (λ a. try_catch (f a) (λ _. skip)) xs) (guarded_total f xs)

module _ (env : Env) where
  copies-add_map :
      (pair : PairRow) (m : TgMsg) (did n : ℕ) (db : Database)
      → copies bale pair.bale_chat_id n
          (add_map pair.id tg (tg_key m.chat_id) m.id bale pair.bale_chat_id did db)
        ≡ copies bale pair.bale_chat_id n db
  unfolding add_map
  copies-add_map pair m did n db = refl

  record_copy_lem :
      (pair : PairRow) (m : TgMsg) (did n : ℕ) (w : World)
      → copies bale pair.bale_chat_id n (record_copy env pair (m, did) w).1.db
        ≡ copies bale pair.bale_chat_id n w.db + (if did == n then 1 else 0)
  unfolding record_copy add_fp platform_eq
  record_copy_lem pair m did n w = ground (
    arith,
    copies-mark_sent (env.now w.trace) bale pair.bale_chat_id did bale pair.bale_chat_id n
        (add_map pair.id tg (tg_key m.chat_id) m.id bale pair.bale_chat_id did w.db),
    copies-add_map pair m did n w.db,
    text_eq_refl pair.bale_chat_id,
  )

  record_copy_ok :
      (pair : PairRow) (p : TgMsg × ℕ) (w : World) → (record_copy env pair p w).0 ≡ ok tt
  unfolding record_copy
  record_copy_ok pair p w = refl

  -- Once the copies of a batch are recorded, the ledger counts one record more of the pair's
  -- Bale chat for every time that a message with the identifier was created.
  pub copies-record_copy :
      (pair : PairRow) (mapped : List (TgMsg × ℕ)) (n : ℕ) (w : World)
      → copies bale pair.bale_chat_id n (for_each (record_copy env pair) mapped w).1.db
        ≡ copies bale pair.bale_chat_id n w.db + occurrences n mapped
  unfolding for_each record_copy
  copies-record_copy pair [] n w = omega arith
  copies-record_copy pair ((m, did) ∷ ms) n w =
      let later = copies-record_copy pair ms n (record_copy env pair (m, did) w).1 in
      let now = record_copy_lem pair m did n w in omega arith

  unsent_total :
      (msgs : List TgMsg) (w : World)
      → (fresh : List TgMsg) × (w' : World) × (unsent env msgs w ≡ (ok fresh, w'))
  unfolding unsent
  unsent_total [] w = ([], w, refl)
  unsent_total (m ∷ ms) w =
      let (fresh, w', e) =
        unsent_total ms (record w { db = (was_sent tg (tg_key m.chat_id) m.id w.db).1 }) in
      ((if (was_sent tg (tg_key m.chat_id) m.id w.db).0 then fresh else m ∷ fresh), w', rw e refl)

  to_pairs_total : (msgs : List TgMsg) (w : World) → (to_pairs env msgs w).0 ≡ ok tt
  to_pairs_total [] w = refl
  to_pairs_total (first ∷ rest) w = guarded_total (pair_send env (first ∷ rest)) _ w

  -- Whatever the platforms answer, mirroring a batch from Telegram ends without an exception.
  pub mirror_total : (msgs : List TgMsg) (w : World) → (mirror env msgs w).0 ≡ ok tt
  unfolding mirror
  mirror_total msgs w = let (fresh, w', e) = unsent_total msgs w in rw e (to_pairs_total fresh w')

  -- A message from Telegram that is in the ordered ledger is not mirrored: no client is called,
  -- and one of its records is used up.
  mirror_own :
      (m : TgMsg) (w : World)
      → IsOrdered w.db
      → 0 < copies tg (tg_key m.chat_id) m.id w.db
      → ((mirror env (m ∷ []) w).1.trace ≡ w.trace)
        × (copies tg (tg_key m.chat_id) m.id (mirror env (m ∷ []) w).1.db + 1
            ≡ copies tg (tg_key m.chat_id) m.id w.db)
  unfolding mirror unsent
  mirror_own m w h k = ground (
    arith,
    (was_sent_lem tg (tg_key m.chat_id) m.id w.db h).0,
    (was_sent_lem tg (tg_key m.chat_id) m.id w.db h).1 tg (tg_key m.chat_id) m.id,
    same_msg_refl tg (tg_key m.chat_id) m.id,
  )
