-- ===== src/Transfer/Queueing/Laws.antt =====
-- bridge/transfer/queueing.py: what the entry points let through.
use tg_bale_bridge.Prelude.{
  ◌==◌, if◌then◌else◌, select, null, All, Text, ℕ, ◌+◌, ◌<◌, ◌≡◌, refl, false, not, List, [], ◌∷◌,
  ◌++◌, arith,
}
use tg_bale_bridge.Db.{Platform, bale, platform_eq}
use tg_bale_bridge.Db.LoopCache.{mark_sent}
use tg_bale_bridge.Guard.{Guard, consume}
use tg_bale_bridge.Transfer.Types.{BaleMsg}
use tg_bale_bridge.Db.LoopCache.Laws.{
  copies, IsOrdered, copies-mark_sent, mark_sent-IsOrdered, was_sent_lem, same_msg_refl,
  was_sent_foreign,
}
use tg_bale_bridge.Guard.Laws.{is_marked, consume_lem}
use tg_bale_bridge.Transfer.Queueing.{new_job, Bridge, drop_echoes, queue_bale_msg}

-- The number occurs nowhere in the list.
abbrev Absent : ℕ → List ℕ → Type 0
Absent m ms = All (λ n. (m == n) ≡ false) ms

abbrev Distinct : List ℕ → Type 0
Distinct [] = Unit
Distinct (m ∷ ms) = Absent m ms × Distinct ms

-- Using up one mark does not change which of the other messages are marked.
select-consume :
    (p : Platform) (chat : Text) (m : ℕ) (ms : List ℕ) (g : Guard)
    → Absent m ms
    → select (λ n. not (is_marked p chat n (consume p chat m g).1)) ms
      ≡ select (λ n. not (is_marked p chat n g)) ms
unfolding platform_eq
select-consume p chat m [] g h = refl
select-consume p chat m (n ∷ ns) g h =
    ground (arith, (consume_lem p chat m g).1 p chat n, select-consume p chat m ns g h.1)

-- Of a batch of deletions with distinct identifiers exactly those go on that are not marked as
-- the bridge's own.
pub drop_echoes-eq-select :
    (p : Platform) (chat : Text) (ids : List ℕ) (g : Guard)
    → Distinct ids
    → (drop_echoes p chat ids g).0 ≡ select (λ m. not (is_marked p chat m g)) ids
unfolding drop_echoes
drop_echoes-eq-select p chat [] g h = refl
drop_echoes-eq-select p chat (m ∷ ms) g h = ground (
  arith,
  (consume_lem p chat m g).0,
  select-consume p chat m ms g h.0,
  drop_echoes-eq-select p chat ms (consume p chat m g).1 h.1,
)

-- A message that the bridge has made in Bale itself is dropped where it comes in: neither the
-- queue nor the albums change, and one of its records in the ledger is used up.
queue_bale_msg_own :
    (m : BaleMsg) (b : Bridge)
    → IsOrdered b.world.db
    → 0 < copies bale m.chat m.message_id b.world.db
    → ((queue_bale_msg m b).q_bale ≡ b.q_bale)
      × ((queue_bale_msg m b).albums_bale ≡ b.albums_bale)
      × (copies bale m.chat m.message_id (queue_bale_msg m b).world.db + 1
          ≡ copies bale m.chat m.message_id b.world.db)
unfolding queue_bale_msg
queue_bale_msg_own m b h k = ground (
  arith,
  (was_sent_lem bale m.chat m.message_id b.world.db h).0,
  (was_sent_lem bale m.chat m.message_id b.world.db h).1 bale m.chat m.message_id,
  same_msg_refl bale m.chat m.message_id,
)

-- A Bale message without a record in the ordered ledger goes to the queue as a job of its own
-- unless it belongs to an album, and the database is left as it is.
queue_bale_msg_foreign :
    (m : BaleMsg) (b : Bridge)
    → IsOrdered b.world.db
    → copies bale m.chat m.message_id b.world.db ≡ 0
    → ((queue_bale_msg m b).q_bale
        ≡ (if null m.media_group_id then b.q_bale ++ new_job (m ∷ []) ∷ [] else b.q_bale))
      × ((queue_bale_msg m b).world.db ≡ b.world.db)
unfolding queue_bale_msg
queue_bale_msg_foreign m b h k =
    ground (arith, was_sent_foreign bale m.chat m.message_id b.world.db h k)

-- What the engine does when it has created a message in Bale: it writes a record of it.
abbrev pub created : ℕ → Text → ℕ → Bridge → Bridge
created now chat mid b =
    let w = b.world in record b { world = record w { db = mark_sent now bale chat mid w.db } }

-- The update that reports a message the bridge has just created and recorded in Bale changes
-- neither the queue nor the albums, and leaves the ledger's count of that message as it was
-- before the creation, for an ordered ledger.
pub queue_bale_msg-created :
    (now : ℕ) (m : BaleMsg) (b : Bridge)
    → IsOrdered b.world.db
    → ((queue_bale_msg m (created now m.chat m.message_id b)).q_bale ≡ b.q_bale)
      × ((queue_bale_msg m (created now m.chat m.message_id b)).albums_bale ≡ b.albums_bale)
      × (copies bale m.chat m.message_id
            (queue_bale_msg m (created now m.chat m.message_id b)).world.db
          ≡ copies bale m.chat m.message_id b.world.db)
queue_bale_msg-created now m b h =
    let counted =
      copies-mark_sent now bale m.chat m.message_id bale m.chat m.message_id b.world.db in
    let same = same_msg_refl bale m.chat m.message_id in
    let own =
      queue_bale_msg_own m (created now m.chat m.message_id b)
        (mark_sent-IsOrdered now bale m.chat m.message_id b.world.db h) (ground arith) in
    ground arith
