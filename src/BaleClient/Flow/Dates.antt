-- ===== src/BaleClient/Flow/Dates.antt =====
-- bridge/bale: a received message can be deleted after a restart.
use tg_bale_bridge.Prelude.{
  if◌then◌else◌, Text, codes, text_eq, text_eq_refl, ℕ, suc, ◌-◌, ◌≡◌, refl, sym, ap, subst, ◌∙◌,
  ◌≢◌, Bool, true, false, Option, none, some, List, [], ◌∷◌, ◌++◌, arith,
}
use tg_bale_bridge.Prelude.Int.{ℤ, str_nat, int_of-str_nat}
use tg_bale_bridge.Prelude.Dict.{get}
use tg_bale_bridge.Db.Meta.{get_meta, get_meta-set_meta}
use tg_bale_bridge.BaleClient.{
  ChatType, private, group, channel, group_or_channel, Session, chat_key, GroupInfo, note_chat,
  ensure_with, ensure_chat_type, date_key, remember_date, date_for, hash_key, remember_file,
  restart,
}
use tg_bale_bridge.BaleClient.Account.{
  bot_api, Answer, gave, threw, ClientCall, call_start, call_get_full_group, call_delete_message,
  Client, Account, pure, throw, next_with, caught_by, text_of, ask, use_session, is_settled,
  type_for,
}
use tg_bale_bridge.BaleClient.Resolving.{number, resolve_id}
use tg_bale_bridge.BaleClient.Sending.{target, delete_at, delete_message}
use tg_bale_bridge.BaleClient.Normalizing.{
  RawDocument, RawMessage, note_document, peer_id, chat_of, normalize,
}
use tg_bale_bridge.BaleClient.Flow.{start-gave}

-- The date of a message lies in the database.
abbrev Stored : ℤ → ℕ → ℕ → Session → Type 0
Stored c m d s = get_meta s.db (date_key c m) ≡ some (str_nat d)

note_document-Stored :
    (c : ℤ) (m d : ℕ) (o : Option RawDocument) (s : Session)
    → Stored c m d s
    → Stored c m d (note_document o s)
unfolding remember_file date_key text_eq
note_document-Stored c m d none s h = h
note_document-Stored c m d (some f) s h =
    ground
      (arith, get_meta-set_meta s.db (hash_key f.file_id) (date_key c m) (str_nat f.access_hash), h)

remember_date-Stored :
    (c : ℤ) (m n d : ℕ) (s : Session) → n ≡ suc d → Stored c m (suc d) (remember_date c m n s)
unfolding remember_date
remember_date-Stored c m n d s h =
    let k = date_key c m in
    rw h (ground (arith, get_meta-set_meta s.db k k (str_nat (suc d)), text_eq_refl k))

normalize-Stored :
    (m : RawMessage) (d : ℕ) (s : Session)
    → m.date ≡ suc d
    → Stored (peer_id (chat_of m)) m.message_id (suc d) (normalize m s).1
unfolding normalize
normalize-Stored m d s h =
    note_document-Stored (peer_id (chat_of m)) m.message_id (suc d) m.document _
      (remember_date-Stored (peer_id (chat_of m)) m.message_id m.date d _ h)

date_for-Stored :
    (c : ℤ) (m d : ℕ) (s : Session) → Stored c m d s → s.dates ≡ [] → (date_for c m s).0 ≡ d
unfolding date_for get
date_for-Stored c m d s h e = ground (arith, h, e, int_of-str_nat d)

ensure_with_keeps :
    (c : ℤ) (o : Option ChatType) (p : Option GroupInfo) (s : Session)
    → ((ensure_with c o p s).1.dates ≡ s.dates) × ((ensure_with c o p s).1.db ≡ s.db)
unfolding note_chat
ensure_with_keeps c none none s = (refl, refl)
ensure_with_keeps c none (some i) s = (refl, refl)
ensure_with_keeps c (some private) p s = (refl, refl)
ensure_with_keeps c (some group) p s = (refl, refl)
ensure_with_keeps c (some channel) p s = (refl, refl)
ensure_with_keeps c (some group_or_channel) none s = (refl, refl)
ensure_with_keeps c (some group_or_channel) (some i) s = (refl, refl)

module _ (k : Client) where
  -- The type is found, with the dates and the database as they were.
  pub record Typed (a b : Account) : Type 0 where
    pub same_dates : b.session.dates ≡ a.session.dates
    pub same_db : b.session.db ≡ a.session.db

  probed :
      (c : ℤ) (r : Answer GroupInfo × Account)
      → (t : ChatType) × (b : Account) × (next_with
            (λ p. use_session (ensure_chat_type c p))
            (caught_by (λ e. pure none) (next_with (λ x. pure (some x)) r))
          ≡ (gave t, b))
        × Typed r.1 b
  unfolding ensure_chat_type
  probed c (gave i, a) =
      let same = ensure_with_keeps c (get (chat_key c) a.session.chat_types) (some i) a.session in
      (_, _, refl, record { same_dates = same.0; same_db = same.1 })
  probed c (threw e, a) =
      let same = ensure_with_keeps c (get (chat_key c) a.session.chat_types) none a.session in
      (_, _, refl, record { same_dates = same.0; same_db = same.1 })

  abbrev Settles : Account → Answer ChatType × Account → Type 0
  Settles a r = (t : ChatType) × (b : Account) × (r ≡ (gave t, b)) × Typed a b

  Settles-if :
      (a : Account) (x : Bool) (r q : Answer ChatType × Account)
      → Settles a r
      → Settles a q
      → Settles a (if x then r else q)
  Settles-if a true r q h g = h
  Settles-if a false r q h g = g

  settled : (c : ℤ) (a : Account) → Settles a (use_session (ensure_chat_type c none) a)
  unfolding ensure_chat_type
  settled c a =
      let same = ensure_with_keeps c (get (chat_key c) a.session.chat_types) none a.session in
      (_, _, refl, record { same_dates = same.0; same_db = same.1 })

  type_for-Settles : (c : ℤ) (a : Account) → Settles a (type_for k c a)
  unfolding type_for
  type_for-Settles c a =
      let (t, b, p, q) = probed c (ask k.groups (call_get_full_group c) a) in
      Settles-if a (is_settled (get (chat_key c) a.session.chat_types)) _ _ (settled c a)
        (t, b, p, record { same_dates = q.same_dates; same_db = q.same_db })

  delete_at-dates :
      (c : ℤ) (m d : ℕ) (t : ChatType) (a : Account)
      → Stored c m d a.session
      → a.session.dates ≡ []
      → (delete_at k m (c, t) a).1.calls ≡ call_delete_message m d c t ∷ a.calls
  delete_at-dates c m d t a h e =
      ap (λ n. call_delete_message m n c t ∷ a.calls) (date_for-Stored c m d a.session h e)

  -- The last call, and the ones before.
  abbrev pub Deletes : ℤ → ℕ → ℕ → List ClientCall → Type 0
  Deletes c m d cs =
      (t : ChatType) × (earlier : List ClientCall) × (cs ≡ call_delete_message m d c t ∷ earlier)

  wrapped_all-calls :
      (what : Text) (r : Answer (Unit {0}) × Account)
      → (caught_by
          (λ e. throw {A = Unit {0}} (bot_api (what ++ codes " failed: " ++ text_of e)))
          r).1.calls
        ≡ r.1.calls
  wrapped_all-calls what (gave x, a) = refl
  wrapped_all-calls what (threw e, a) = refl

  delete_message-Deletes :
      (c : ℤ) (m d : ℕ) (a : Account)
      → k.act a.calls call_start ≡ gave tt
      → Stored c m d a.session
      → a.session.dates ≡ []
      → Deletes c m d (delete_message k (number c) m a).1.calls
  unfolding delete_message target resolve_id
  delete_message-Deletes c m d a h st e =
      let (b, p, begun) = start-gave k a h in
      let (t, b', q, typed) = type_for-Settles c b in
      let st' : Stored c m d b'.session = rw (typed.same_db, begun.same_db) st in
      let e' : b'.session.dates ≡ [] = typed.same_dates ∙ (begun.same_dates ∙ e) in
      (
        t,
        b'.calls,
        rw (p, q)
            (wrapped_all-calls (codes "delete_message") (delete_at k m (c, t) b')
              ∙ delete_at-dates c m d t b' st' e'),
      )

  -- A message with a date that an event has reported can be deleted also after a restart: if the
  -- client starts, it is then asked to delete the message with its date.
  pub delete_message-normalize :
      (m : RawMessage) (s : Session) (calls : List ClientCall)
      → m.date ≢ 0
      → k.act calls call_start ≡ gave tt
      → Deletes
          (peer_id (chat_of m))
          m.message_id
          m.date
          (delete_message k
            (number (peer_id (chat_of m)))
            m.message_id
            (record { session = restart (normalize m s).1; calls = calls })).1.calls
  unfolding restart
  delete_message-normalize m s calls h p =
      let c = peer_id (chat_of m) in
      let e : m.date ≡ suc (m.date - 1) = omega arith in
      let a : Account = record { session = restart (normalize m s).1; calls = calls } in
      let cs = (delete_message k (number c) m.message_id a).1.calls in
      let stored = normalize-Stored m (m.date - 1) s e in
      subst (λ d. Deletes c m.message_id d cs) (sym e)
        (delete_message-Deletes c m.message_id (suc (m.date - 1)) a p stored refl)
