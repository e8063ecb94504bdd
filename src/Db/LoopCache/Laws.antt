-- ===== src/Db/LoopCache/Laws.antt =====
-- bridge/dbstore/loopcache.py: the ledger, by the number of records of a message.
use tg_bale_bridge.Prelude.{
  ltb, ◌==◌, if◌then◌else◌, Option-cases, find, Text, text_eq, text_eq_refl, text_eq_iff, ℕ, ◌+◌,
  ◌-◌, ◌≡◌, refl, ◌∙◌, ◌↔◌, inl, inr, Bool, true, false, ◌&&◌, ◌||◌, [], ◌∷◌, arith,
}
use tg_bale_bridge.Db.{Platform, tg, bale, platform_eq, SentRow, Database}
use tg_bale_bridge.Db.Rows.{
  count, find-none, count-append, Increasing, Increasing-insert, Increasing-select, find-Increasing,
  count-without_id,
}
use tg_bale_bridge.Db.LoopCache.{mark_sent, is_sent, was_sent}

-- How often the ledger holds a message.
abbrev pub copies : Platform → Text → ℕ → Database → ℕ
copies p chat msg db = count (is_sent p chat msg) db.sent.rows

-- The identifiers of the ledger grow, and are below the next one.
abbrev pub IsOrdered : Database → Type 0
IsOrdered db = Increasing (λ (r : SentRow). r.id) 0 db.sent.next db.sent.rows

abbrev pub one_if : Bool → ℕ
one_if b = if b then 1 else 0

platform_eq_iff : (a b : Platform) → (platform_eq a b ≡ true) ↔ (a ≡ b)
unfolding platform_eq
platform_eq_iff a b = ground arith

-- Two messages are one and the same.
abbrev pub same_msg : Platform → Text → ℕ → Platform → Text → ℕ → Bool
same_msg p c m p' c' m' = platform_eq p p' && (text_eq c c' && m == m')

-- A row that is one message's is another's exactly if the messages are the same.
is_sent-same_msg :
    (p : Platform) (c : Text) (m : ℕ) (p' : Platform) (c' : Text) (m' : ℕ) (r : SentRow)
    → is_sent p c m r ≡ true
    → is_sent p' c' m' r ≡ same_msg p c m p' c' m'
unfolding is_sent
is_sent-same_msg p c m p' c' m' r h =
    ground (arith, text_eq_iff r.chat c, platform_eq_iff r.platform p)

-- Marking a message adds one record of it, and of no other message.
pub copies-mark_sent :
    (now : ℕ) (p : Platform) (c : Text) (m : ℕ) (p' : Platform) (c' : Text) (m' : ℕ) (db : Database)
    → copies p' c' m' (mark_sent now p c m db)
      ≡ copies p' c' m' db + one_if (same_msg p c m p' c' m')
unfolding mark_sent is_sent
copies-mark_sent now p c m p' c' m' db = rw count-append (omega arith)

pub mark_sent-IsOrdered :
    (now : ℕ) (p : Platform) (c : Text) (m : ℕ) (db : Database)
    → IsOrdered db
    → IsOrdered (mark_sent now p c m db)
unfolding mark_sent
mark_sent-IsOrdered now p c m db h =
    Increasing-insert (λ (r : SentRow). r.id) 0 db.sent.next db.sent.rows _ refl h

was_sent-IsOrdered :
    (p : Platform) (c : Text) (m : ℕ) (db : Database)
    → IsOrdered db
    → IsOrdered (was_sent p c m db).1
unfolding was_sent
was_sent-IsOrdered p c m db h = elim (Option-cases (find (is_sent p c m) db.sent.rows)) [
  | inl e ↦ rw e h
  | inr (r, e) ↦ rw e (Increasing-select (λ (r : SentRow). r.id) _ 0 db.sent.next db.sent.rows h)
]

-- On an ordered ledger `was_sent` is the test-and-remove of a multiset: it answers true exactly
-- if there is a record of the message, removes one such record then, and leaves the count of
-- every other message.
pub was_sent_lem :
    (p : Platform) (c : Text) (m : ℕ) (db : Database)
    → IsOrdered db
    → ((was_sent p c m db).0 ≡ ltb 0 (copies p c m db))
      × ((p' : Platform) (c' : Text) (m' : ℕ)
          → copies p' c' m' (was_sent p c m db).1
            ≡ copies p' c' m' db - one_if (ltb 0 (copies p c m db) && same_msg p c m p' c' m'))
unfolding was_sent
was_sent_lem p c m db h = elim (Option-cases (find (is_sent p c m) db.sent.rows)) [
  | inl e ↦
      let gone : copies p c m db ≡ 0 = find-none (is_sent p c m) db.sent.rows e in
      rw (e, gone) (refl, λ p' c' m'. omega arith)
  | inr (r, e) ↦
      let id : SentRow → ℕ = λ r. r.id in
      let rows = db.sent.rows in
      let passes = (find-Increasing id (is_sent p c m) 0 db.sent.next rows r h e).1 in
      let own = count-without_id id (is_sent p c m) (is_sent p c m) 0 db.sent.next rows r h e in
      rw e (
        ground (arith, own, passes),
        λ p' c' m'. ground (
          arith,
          own,
          passes,
          count-without_id id (is_sent p c m) (is_sent p' c' m') 0 db.sent.next rows r h e,
          is_sent-same_msg p c m p' c' m' r passes,
        ),
      )
]

pub same_msg_refl : (p : Platform) (c : Text) (m : ℕ) → same_msg p c m p c m ≡ true
unfolding platform_eq
same_msg_refl tg c m = ground (arith, text_eq_refl c)
same_msg_refl bale c m = ground (arith, text_eq_refl c)

-- A message that has no record is not the bridge's, and the ledger stays as it is.
pub was_sent_foreign :
    (p : Platform) (c : Text) (m : ℕ) (db : Database)
    → IsOrdered db
    → copies p c m db ≡ 0
    → was_sent p c m db ≡ (false, db)
unfolding was_sent
was_sent_foreign p c m db h k = elim (Option-cases (find (is_sent p c m) db.sent.rows)) [
  | inl e ↦ rw e refl
  | inr (r, e) ↦ ground (arith, (was_sent_lem p c m db h).0)
]

-- A message that has just been marked is the bridge's.
was_sent-mark_sent :
    (now : ℕ) (p : Platform) (c : Text) (m : ℕ) (db : Database)
    → IsOrdered db
    → (was_sent p c m (mark_sent now p c m db)).0 ≡ true
was_sent-mark_sent now p c m db h =
    let after : Database = mark_sent now p c m db in
    (was_sent_lem p c m after (mark_sent-IsOrdered now p c m db h)).0
    ∙ ground (arith, copies-mark_sent now p c m p c m db, same_msg_refl p c m)

text_eq_sym : (a b : Text) → text_eq a b ≡ text_eq b a
unfolding text_eq
text_eq_sym [] [] = refl
text_eq_sym [] (y ∷ ys) = refl
text_eq_sym (x ∷ xs) [] = refl
text_eq_sym (x ∷ xs) (y ∷ ys) = ground (arith, text_eq_sym xs ys)

-- Two messages with the same identifier are the same if their chats are.
same_msg-chat :
    (p : Platform) (c c' : Text) (m : ℕ)
    → (same_msg p c m p c' m ≡ text_eq c c') × (same_msg p c' m p c m ≡ text_eq c c')
unfolding platform_eq
same_msg-chat tg c c' m = ground (arith, text_eq_sym c c')
same_msg-chat bale c c' m = ground (arith, text_eq_sym c c')

-- A record of a message is used up by a question about its own chat, and by no other.
pub was_sent-after_mark :
    (now : ℕ) (p : Platform) (c c' : Text) (m : ℕ) (db : Database)
    → IsOrdered db
    → let after = mark_sent now p c m db in
      ((was_sent p c' m after).0 ≡ (text_eq c c' || (was_sent p c' m db).0))
      × (copies p c m (was_sent p c' m after).1 ≡ copies p c m db + (if text_eq c c' then 0 else 1))
was_sent-after_mark now p c c' m db h =
    let after : Database = mark_sent now p c m db in
    let (x, y) = was_sent_lem p c' m after (mark_sent-IsOrdered now p c m db h) in
    let x' = (was_sent_lem p c' m db h).0 in
    let y' = y p c m in
    let (s, s') = same_msg-chat p c c' m in
    let n = copies-mark_sent now p c m p c' m db in
    let n' = copies-mark_sent now p c m p c m db in
    ground (arith, x, x', y', s, s', n, n', same_msg_refl p c m)
