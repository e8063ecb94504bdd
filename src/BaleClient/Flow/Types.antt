-- ===== src/BaleClient/Flow/Types.antt =====
-- bridge/bale: the type with which a user account sends to a chat.
use tg_bale_bridge.Prelude.{
  if◌then◌else◌, Bool-cases, All, Text, ℕ, zero, suc, ◌≡◌, refl, sym, ap, ◌∙◌, inl, inr, true,
  false, Option, none, some, List, [], ◌∷◌, arith,
}
use tg_bale_bridge.Prelude.Int.{ℤ}
use tg_bale_bridge.Prelude.Dict.{get}
use tg_bale_bridge.BaleClient.{
  ChatType, private, group, channel, group_or_channel, ChatMeta, Session, chat_type_name,
  group_like_type_value, chat_key, note_type, GroupInfo, is_channel, ensure_with, ensure_chat_type,
  remember_date, remember_file,
}
use tg_bale_bridge.BaleClient.Laws.{
  IsChannelLike, is_open, default-open, note_type-open, ensure-open,
}
use tg_bale_bridge.BaleClient.Account.{
  bot_api, other, Answer, gave, threw, InfoMessage, ClientCall, call_start, call_get_full_group,
  call_send_media, Sent, Client, Account, Act, pure, next_with, caught_by, as_bot_api, wrapped,
  is_settled, type_for,
}
use tg_bale_bridge.BaleClient.Resolving.{number, resolve_id, reply_ref}
use tg_bale_bridge.BaleClient.Sending.{snapshot_result, target, send_media_to, send_media}
use tg_bale_bridge.BaleClient.Events.{
  Event, on_message, on_edited, on_deleted, emit, message_update, edited_update, deleted_update,
  note_deleted, receive,
}
use tg_bale_bridge.BaleClient.Normalizing.{
  RawPeer, RawDocument, RawMessage, note_document, peer_id, peer_type_value, is_missing, meta_with,
  default_meta, chat_of, normalize,
}
use tg_bale_bridge.BaleClient.Flow.{receive_all, start-gave}
use tg_bale_bridge.BaleRouting.{BaleUpdate}

abbrev known_type : ℤ → Session → Option ChatType
known_type c s = get (chat_key c) s.chat_types

-- An event of a chat whose type is that of a channel, or one that groups have too.
abbrev IsVague : ℤ → Event → Type 0
IsVague c (on_message m) =
    (peer_id (chat_of m) ≡ c) × IsChannelLike (peer_type_value (chat_of m), is_missing m.chat)
IsVague c (on_edited m) =
    (peer_id (chat_of m) ≡ c) × IsChannelLike (peer_type_value (chat_of m), is_missing m.chat)
IsVague c (on_deleted p ids) =
    (peer_id p ≡ c) × (group_like_type_value (peer_type_value p) true ≡ true)

meta_with-types :
    (c : ℤ) (t : ChatType) (o : Option ChatMeta) (s : Session)
    → (meta_with c t o s).1.chat_types ≡ s.chat_types
meta_with-types c t none s = refl
meta_with-types c t (some m) s = refl

note_document-types :
    (o : Option RawDocument) (s : Session) → (note_document o s).chat_types ≡ s.chat_types
unfolding remember_file
note_document-types none s = refl
note_document-types (some d) s = refl

normalize-types :
    (m : RawMessage) (s : Session)
    → (normalize m s).1.chat_types
      ≡ (note_type
          (peer_id (chat_of m))
          (peer_type_value (chat_of m))
          (is_missing m.chat)
          s).chat_types
unfolding normalize default_meta remember_date
normalize-types m s =
    note_document-types m.document _
    ∙ meta_with-types (peer_id (chat_of m)) (chat_type_name (peer_type_value (chat_of m))) _ _

emit-types : (u : BaleUpdate) (s : Session) → (emit u s).1.chat_types ≡ s.chat_types
unfolding emit
emit-types u s = ground arith

normalize-open :
    (c : ℤ) (m : RawMessage) (u : BaleUpdate) (s : Session)
    → IsVague c (on_message m)
    → is_open (known_type c s) ≡ true
    → is_open (known_type c (emit u (normalize m s).1).1) ≡ true
normalize-open c m u s (e, h) o =
    let same = emit-types u (normalize m s).1 ∙ normalize-types m s in
    let kept =
      note_type-open (peer_id (chat_of m)) (peer_type_value (chat_of m)) (is_missing m.chat) s h
        (rw e o) in
    ap (λ d. is_open (get (chat_key c) d)) same ∙ (rw (sym e) kept)

note_deleted-open :
    (c : ℤ) (p : Option RawPeer) (s : Session)
    → group_like_type_value (peer_type_value p) true ≡ true
    → peer_id p ≡ c
    → is_open (known_type c s) ≡ true
    → is_open (known_type c (note_deleted p s)) ≡ true
unfolding note_deleted
note_deleted-open c p s g e o =
    rw (g, e) (default-open (chat_key c) (known_type c s) s.chat_types refl o)

-- An event of the chat leaves it open whether the chat is a channel.
receive-open :
    (c : ℤ) (e : Event) (s : Session)
    → IsVague c e
    → is_open (known_type c s) ≡ true
    → is_open (known_type c (receive e s).1) ≡ true
unfolding receive
receive-open c (on_message m) s h o = normalize-open c m (message_update (normalize m s).0) s h o
receive-open c (on_edited m) s h o = normalize-open c m (edited_update (normalize m s).0) s h o
receive-open c (on_deleted p []) s h o = o
receive-open c (on_deleted p (i ∷ is)) s h o =
    ap (λ d. is_open (get (chat_key c) d))
      (emit-types (deleted_update (peer_id p) (i ∷ is)) (note_deleted p s))
    ∙ note_deleted-open c p s h.1 h.0 o

receive_all-open :
    (c : ℤ) (es : List Event) (s : Session)
    → All (IsVague c) es
    → is_open (known_type c s) ≡ true
    → is_open (known_type c (receive_all es s)) ≡ true
receive_all-open c [] s h o = o
receive_all-open c (e ∷ es) s h o =
    receive_all-open c es (receive e s).1 h.1 (receive-open c e s h.0 o)

module _ (k : Client) where
  abbrev Finds : Answer ChatType × Account → Type 0
  Finds r = r.0 ≡ gave channel

  Finds-if :
      (o : Option ChatType) (r q : Answer ChatType × Account)
      → (is_settled o ≡ true → Finds r)
      → (is_settled o ≡ false → Finds q)
      → Finds (if is_settled o then r else q)
  Finds-if o r q f g = elim (Bool-cases (is_settled o)) [ inl e ↦ rw e (f e) | inr e ↦ rw e (g e) ]

  settled-channel :
      (c : ℤ) (o : Option ChatType) (s : Session)
      → is_open o ≡ true
      → is_settled o ≡ true
      → (ensure_with c o none s).0 ≡ channel
  settled-channel c none s h p = cc
  settled-channel c (some channel) s h p = refl
  settled-channel c (some group_or_channel) s h p = cc
  settled-channel c (some group) s h p = cc
  settled-channel c (some private) s h p = cc

  type_for-Finds :
      (c : ℤ) (i : GroupInfo) (a : Account)
      → is_channel i ≡ true
      → k.groups a.calls (call_get_full_group c) ≡ gave i
      → is_open (known_type c a.session) ≡ true
      → Finds (type_for k c a)
  unfolding type_for ensure_chat_type
  type_for-Finds c i a p e o =
      Finds-if (known_type c a.session) _ _
        (λ h. ap (λ t. gave t) (settled-channel c _ a.session o h))
        (λ h. rw e (ap (λ t. gave t) (ensure-open c _ i a.session o p)))

  -- The last call is this method with this file and caption, to the chat as to a channel.
  abbrev pub SendsFile : Text → Text → Text → Text → ℤ → List ClientCall → Type 0
  SendsFile method kw f caption c cs =
      (reply : Option InfoMessage) × (earlier : List ClientCall) × (cs
        ≡ call_send_media method kw f c channel caption reply ∷ earlier)

  snapshot-calls :
      (method : Text) (c : ℤ) (r : Answer (List Sent) × Account)
      → (caught_by (as_bot_api method) (next_with (snapshot_result c) r)).1.calls ≡ r.1.calls
  unfolding snapshot_result
  snapshot-calls method c (threw (bot_api t), a) = refl
  snapshot-calls method c (threw (other t), a) = refl
  snapshot-calls method c (gave [], a) = refl
  snapshot-calls method c (gave (m ∷ ms), a) = refl

  sent_to-SendsFile :
      (method kw f caption : Text) (reply : ℕ) (c : ℤ) (a : Account)
      → SendsFile method kw f caption c
          (wrapped method (λ b. send_media_to k method kw f caption reply (c, channel) b) a).1.calls
  unfolding reply_ref
  sent_to-SendsFile method kw f caption zero c a = (none, a.calls, snapshot-calls method c _)
  sent_to-SendsFile method kw f caption (suc m) c a = (_, a.calls, snapshot-calls method c _)

  typed_target :
      (c : ℤ) (f : ℤ × ChatType → Act ℕ) (r : Answer ChatType × Account)
      → Finds r
      → next_with f (next_with (λ t. pure (c, t)) r) ≡ f (c, channel) r.1
  typed_target c f (t, a) h = rw h refl

  -- Whatever events of a chat of unknown type have come in with the type of a channel or one
  -- that groups have too, a file goes with its method and caption to the chat as to a channel,
  -- if the client starts and the probe of the chat says that it is one.
  pub send_media-receive_all :
      (method kw f caption : Text) (reply : ℕ) (c : ℤ) (i : GroupInfo) (es : List Event)
      (a : Account)
      → get (chat_key c) a.session.chat_types ≡ none
      → All (IsVague c) es
      → is_channel i ≡ true
      → k.act a.calls call_start ≡ gave tt
      → ((cs : List ClientCall) → k.groups cs (call_get_full_group c) ≡ gave i)
      → SendsFile method kw f caption c
          (send_media k method kw f
            (number c)
            caption
            reply
            (record a { session = receive_all es a.session })).1.calls
  unfolding send_media target resolve_id
  send_media-receive_all method kw f caption reply c i es a n h p st groups =
      let a' : Account = record a { session = receive_all es a.session } in
      let (b, e, begun) = start-gave k a' st in
      let o : is_open (known_type c a.session) ≡ true = ground (arith, n) in
      let o' : is_open (known_type c b.session) ≡ true =
        rw (begun.same_types) (receive_all-open c es a.session h o) in
      let found = type_for-Finds c i b p (groups b.calls) o' in
      let sent = send_media_to k method kw f caption reply in
      rw (e, typed_target c sent (type_for k c b) found)
        (sent_to-SendsFile method kw f caption reply c (type_for k c b).1)
