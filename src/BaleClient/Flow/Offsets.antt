-- ===== src/BaleClient/Flow/Offsets.antt =====
-- bridge/bale: the numbers of the updates of a user account.
use tg_bale_bridge.Prelude.{
  ℕ, suc, ◌+◌, ◌≡◌, refl, ap, subst, ◌∙◌, true, some, List, [], ◌∷◌, arith,
}
use tg_bale_bridge.Prelude.Int.{ℤ, str_nat}
use tg_bale_bridge.Db.Meta.{get_meta}
use tg_bale_bridge.Transfer.Queueing.{Bridge}
use tg_bale_bridge.BaleRouting.{Side, BaleUpdate, offset_key}
use tg_bale_bridge.BaleRouting.Laws.{handle_update_offset}
use tg_bale_bridge.BaleClient.{Session, note_type, remember_date, remember_file}
use tg_bale_bridge.BaleClient.Events.{
  Event, on_message, on_edited, on_deleted, emit, message_update, edited_update, deleted_update,
  note_deleted, receive, handled, deliver,
}
use tg_bale_bridge.BaleClient.Normalizing.{
  RawMessage, peer_id, peer_type_value, is_missing, default_meta, chat_of, normalize,
}

abbrev pub deliver_all : Side → List Event → Session × Bridge → Session × Bridge
deliver_all side [] x = x
deliver_all side (e ∷ es) x = deliver_all side es (deliver side e x)

-- The reports of deletions without messages are left out.
abbrev pub emitted : List Event → ℕ
emitted [] = 0
emitted (on_message m ∷ es) = suc (emitted es)
emitted (on_edited m ∷ es) = suc (emitted es)
emitted (on_deleted p [] ∷ es) = emitted es
emitted (on_deleted p (i ∷ is) ∷ es) = suc (emitted es)

-- The session listens, and its offset is the one in the settings of the bridge.
pub record InStep (n : ℕ) (x : Session × Bridge) : Type 0 where
  pub listens : x.0.listening ≡ true
  pub counted : x.0.offset ≡ n
  pub saved : get_meta x.1.world.db offset_key ≡ some (str_nat n)

emit-InStep :
    (side : Side) (n : ℕ) (u : BaleUpdate) (t : Session) (b : Bridge)
    → t.listening ≡ true
    → t.offset ≡ n
    → InStep (suc n) ((emit u t).1, handled side (emit u t).0 b)
unfolding emit
emit-InStep side n u t b h e = rw h (record {
  listens = refl;
  counted = ap (λ m. suc m) e;
  saved = rw e (handle_update_offset side u (suc n) b);
})

default_meta-listening :
    (c : ℤ) (raw : ℕ) (s : Session)
    → ((default_meta c raw s).1.listening ≡ s.listening)
      × ((default_meta c raw s).1.offset ≡ s.offset)
unfolding default_meta
default_meta-listening c raw s = ground arith

normalize-listening :
    (m : RawMessage) (s : Session)
    → ((normalize m s).1.listening ≡ s.listening) × ((normalize m s).1.offset ≡ s.offset)
unfolding normalize remember_date remember_file note_type
normalize-listening m s = ground (
  arith,
  default_meta-listening (peer_id (chat_of m)) (peer_type_value (chat_of m))
      (note_type (peer_id (chat_of m)) (peer_type_value (chat_of m)) (is_missing m.chat) s),
)

deliver-InStep :
    (side : Side) (n : ℕ) (e : Event) (s : Session) (b : Bridge)
    → InStep n (s, b)
    → InStep (n + emitted (e ∷ [])) (deliver side e (s, b))
unfolding deliver receive
deliver-InStep side n (on_message m) s b h =
    let same = normalize-listening m s in
    subst (λ k. InStep k (deliver side (on_message m) (s, b))) (omega arith)
      (emit-InStep side n (message_update (normalize m s).0) (normalize m s).1 b
        (same.0 ∙ h.listens) (same.1 ∙ h.counted))
deliver-InStep side n (on_edited m) s b h =
    let same = normalize-listening m s in
    subst (λ k. InStep k (deliver side (on_edited m) (s, b))) (omega arith)
      (emit-InStep side n (edited_update (normalize m s).0) (normalize m s).1 b (same.0 ∙ h.listens)
        (same.1 ∙ h.counted))
deliver-InStep side n (on_deleted p []) s b h = subst (λ k. InStep k (s, b)) (omega arith) h
deliver-InStep side n (on_deleted p (i ∷ is)) s b h =
    subst (λ k. InStep k (deliver side (on_deleted p (i ∷ is)) (s, b))) (omega arith)
      (emit-InStep side n (deleted_update (peer_id p) (i ∷ is)) (note_deleted p s) b h.listens
        h.counted)

emitted-cons : (e : Event) (es : List Event) → emitted (e ∷ es) ≡ emitted (e ∷ []) + emitted es
emitted-cons (on_message m) es = omega arith
emitted-cons (on_edited m) es = omega arith
emitted-cons (on_deleted p []) es = omega arith
emitted-cons (on_deleted p (i ∷ is)) es = omega arith

-- Whatever events come in, each update gets the next number, and the number of the last one is what
-- the settings hold: a session in step with the settings stays so.
pub deliver_all-InStep :
    (side : Side) (n : ℕ) (es : List Event) (s : Session) (b : Bridge)
    → InStep n (s, b)
    → InStep (n + emitted es) (deliver_all side es (s, b))
deliver_all-InStep side n [] s b h = subst (λ k. InStep k (s, b)) (omega arith) h
deliver_all-InStep side n (e ∷ es) s b h =
    let x = deliver side e (s, b) in
    subst (λ k. InStep k (deliver_all side es x)) (omega (arith, emitted-cons e es))
      (deliver_all-InStep side (n + emitted (e ∷ [])) es x.0 x.1 (deliver-InStep side n e s b h))
