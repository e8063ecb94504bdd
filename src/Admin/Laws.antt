-- ===== src/Admin/Laws.antt =====
-- bridge/admin: who may give a command, and what the commands do to the mirroring.
use tg_bale_bridge.Prelude.{
  ◌==◌, if◌then◌else◌, length, select, any, Text, codes, text_eq, ℕ, ◌+◌, ◌≡◌, refl, sym, ap, ◌≢◌,
  Bool, true, ◌&&◌, none, some, List, [], ◌∷◌, map, arith,
}
use tg_bale_bridge.Prelude.Int.{ℤ, str_int}
use tg_bale_bridge.Db.{Platform, tg, Mode, PairRow}
use tg_bale_bridge.Db.Meta.{set_meta}
use tg_bale_bridge.Db.Pairs.{
  get_pair, set_mode, sends_tg, sends_bale, has_tg_chat, pairs_for_tg, has_bale_chat,
  pairs_for_bale,
}
use tg_bale_bridge.Db.Pairs.Laws.{remove_pair_lem}
use tg_bale_bridge.Db.MsgMap.{other_side}
use tg_bale_bridge.Db.MsgMap.Removed.{
  other_side-removed, other_side-kept, is_found, remove_pair-found,
}
use tg_bale_bridge.Db.LoopCache.{mark_sent}
use tg_bale_bridge.Db.LoopCache.Laws.{copies, IsOrdered, was_sent-after_mark}
use tg_bale_bridge.ChatId.{bare_chat_id}
use tg_bale_bridge.Transfer.Types.{TgMsg}
use tg_bale_bridge.Transfer.MirrorT2b.Mirror.{tg_key}
use tg_bale_bridge.Transfer.Exec.{World, Call, tg_get_input_entity, tg_send_message, Env, ok}
use tg_bale_bridge.Transfer.Queueing.{Bridge, on_tg_new, set_paused, tg_worker, bale_worker}
use tg_bale_bridge.Transfer.Queueing.Order.{
  rounds, drained_tg, tg_worker-Order, drained_bale, bale_worker-Order,
}
use tg_bale_bridge.Transfer.MirrorB2t.{resolve}
use tg_bale_bridge.Admin.{no_such_pair, pair_removed, Panel, Desk, db_of}
use tg_bale_bridge.Admin.Parsing.{mode_named, parse_pair_id}
use tg_bale_bridge.Admin.Trial.{test_text, try_tg}
use tg_bale_bridge.Admin.Commands.{remove, mode, pause}

module _ (env : Env) (desk : Desk) where
  -- After a change of the mode, the rows with the number `n` that pass a test.
  selected :
      (n : ℕ) (d : Mode) (b : Bool) (q : PairRow → Bool) (sends : Mode → Bool) (rows : List PairRow)
      → ((r : PairRow) → q (record r { mode = d }) ≡ q r)
      → sends d ≡ b
      → any
          (λ r. r.id == n)
          (select
            (λ r. q r && sends r.mode)
            (map (λ r. if r.id == n then record r { mode = d } else r) rows))
        ≡ (b && any (λ r. r.id == n && q r) rows)
  selected n d b q sends [] h e = ground arith
  selected n d b q sends (r ∷ rows) h e = ground (arith, selected n d b q sends rows h e, h r, e)

  -- After a `/mode` with the number of a pair and the name of a direction, messages of a
  -- Telegram chat are mirrored by a pair of that number exactly if the direction starts at
  -- Telegram and a pair of that number belonged to the chat, and likewise for Bale.
  pub mode_directs :
      (a m : Text) (args : List Text) (n : ℕ) (d : Mode) (p : Panel)
      → parse_pair_id a ≡ some n
      → mode_named m ≡ some d
      → ((c : ℤ)
          → any (λ r. r.id == n) (pairs_for_tg c (db_of (mode env desk (a ∷ m ∷ args) p).1))
            ≡ (sends_tg d && any (λ r. r.id == n && has_tg_chat c r) (db_of p).pairs.rows))
        × ((c u : Text)
            → any (λ r. r.id == n) (pairs_for_bale c u (db_of (mode env desk (a ∷ m ∷ args) p).1))
              ≡ (sends_bale d && any (λ r. r.id == n && has_bale_chat c u r) (db_of p).pairs.rows))
  unfolding mode set_mode pairs_for_tg pairs_for_bale has_tg_chat has_bale_chat
  mode_directs a m args n d p ha hm =
      rw (ha, hm)
        (
          λ c.
              selected n d (sends_tg d) (has_tg_chat c) sends_tg (db_of p).pairs.rows (λ r. refl)
                refl,
          λ c u.
              selected n d (sends_bale d) (has_bale_chat c u) sends_bale (db_of p).pairs.rows
                (λ r. refl) refl,
        )

  -- A `/remove` with the number of a pair answers whether there was such a pair; after it there
  -- is no pair of that number and no message has a counterpart for it, and for another number
  -- the pair and the counterparts of every message are as before.
  pub remove_forgets :
      (a : Text) (args : List Text) (n j : ℕ) (p : Panel)
      → parse_pair_id a ≡ some n
      → j ≢ n
      → let (reply, p') = remove env desk (a ∷ args) p in
        (reply ≡ ok (if is_found (get_pair n (db_of p)) then pair_removed else no_such_pair))
        × (get_pair n (db_of p') ≡ none)
        × ((q : Platform) (c : Text) (m : ℕ) → other_side q c m (some n) (db_of p') ≡ [])
        × (get_pair j (db_of p') ≡ get_pair j (db_of p))
        × ((q : Platform) (c : Text) (m : ℕ)
            → other_side q c m (some j) (db_of p') ≡ other_side q c m (some j) (db_of p))
  unfolding remove
  remove_forgets a args n j p ha ne =
      let (gone, unmapped, others) = remove_pair_lem n (db_of p) in
      rw (ha, sym (remove_pair-found n (db_of p)))
        (
          refl,
          gone,
          λ q c m. other_side-removed q c m n (db_of p),
          others j ne,
          λ q c m. other_side-kept q c m n j (db_of p) ne,
        )

  -- After `/pause`, as many rounds of a worker as its queue has jobs leave the database, the
  -- guard and the calls as they are, for either queue; of the database, the command has changed
  -- the stored switch alone.
  pub pause_stops :
      (p : Panel)
      → let b = (pause env desk p).1.bridge in
        ((rounds (length b.q_tg) (tg_worker env) b).world ≡ b.world)
        × ((rounds (length b.q_bale) (bale_worker env) b).world ≡ b.world)
        × (db_of (pause env desk p).1 ≡ set_meta (db_of p) (codes "paused") (codes "1"))
  unfolding pause set_paused drained_tg drained_bale
  pause_stops p =
      let b = (pause env desk p).1.bridge in
      (
        ap (λ (b : Bridge). b.world) (tg_worker-Order env b),
        ap (λ (b : Bridge). b.world) (bale_worker-Order env b),
        refl,
      )

  -- The calls of a test message on Telegram.
  abbrev entity_call : PairRow → Call
  entity_call r = tg_get_input_entity r.tg_chat_id

  abbrev test_call : PairRow → Call
  test_call r = tg_send_message r.tg_chat_id (test_text r.id) [] none

  try_tg-marks :
      (r : PairRow) (id : ℕ) (w : World)
      → env.act w.trace (entity_call r) ≡ ok tt
      → env.send (entity_call r ∷ w.trace) (test_call r) ≡ ok id
      → try_tg env r w ≡ (
        ok true,
        record w {
          db =
              mark_sent
                (env.now (test_call r ∷ entity_call r ∷ w.trace))
                tg
                (str_int r.tg_chat_id)
                id
                w.db;
          trace = test_call r ∷ entity_call r ∷ w.trace;
        },
      )
  unfolding try_tg resolve
  try_tg-marks r id w ha hs = rw (ha, hs)

  -- The bridge after the Telegram half of `/test`.
  abbrev pub tested : PairRow → Bridge → Bridge
  tested r b = record b { world = (try_tg env r b.world).1 }

  -- The engine looks a message of the chat up under what the pair has stored as its chat.
  abbrev pub has_key : PairRow → ℤ → Bool
  has_key r c = text_eq (str_int r.tg_chat_id) (str_int (bare_chat_id c))

  -- If the ledger is ordered and Telegram knows the chat and takes the message, the Telegram
  -- half of `/test` reports success. When the message then comes in from Telegram and the pair
  -- has stored the bare identifier of its chat, neither the queue nor the albums change, and the
  -- ledger counts the message as often as before the test; when the pair has stored another
  -- text, such as the marked identifier, the message is queued or collected as without the test,
  -- and its record is left over.
  pub test_own :
      (r : PairRow) (msg : TgMsg) (b : Bridge)
      → IsOrdered b.world.db
      → env.act b.world.trace (entity_call r) ≡ ok tt
      → env.send (entity_call r ∷ b.world.trace) (test_call r) ≡ ok msg.id
      → let b' = on_tg_new msg (tested r b) in
        ((try_tg env r b.world).0 ≡ ok true)
        × (b'.q_tg ≡ (if has_key r msg.chat_id then b.q_tg else (on_tg_new msg b).q_tg))
        × (b'.albums_tg
            ≡ (if has_key r msg.chat_id then b.albums_tg else (on_tg_new msg b).albums_tg))
        × (copies tg (str_int r.tg_chat_id) msg.id b'.world.db
            ≡ copies tg (str_int r.tg_chat_id) msg.id b.world.db
              + (if has_key r msg.chat_id then 0 else 1))
  unfolding on_tg_new
  test_own r msg b ho ha hs = rw (try_tg-marks r msg.id b.world ha hs) (
      let now = env.now (test_call r ∷ entity_call r ∷ b.world.trace) in
      let (own, left) =
        was_sent-after_mark now tg (str_int r.tg_chat_id) (tg_key msg.chat_id) msg.id b.world.db
          ho in
      ground (arith, own, left))
