-- ===== src/BaleClient/Events.antt =====
-- bridge/bale/events.py, and `emit` of session.py: the events of a user account become updates of the
-- Bot API, which the handler of the bridge gets with their numbers.
use tg_bale_bridge.Prelude.{if◌then◌else◌, ℕ, suc, true, Option, none, some, List, [], ◌∷◌}
use tg_bale_bridge.Prelude.Int.{ℤ, str_int}
use tg_bale_bridge.Prelude.Dict.{get}
use tg_bale_bridge.BaleClient.{
  private, group_or_channel, Session, group_like_type_value, chat_key, set_default,
}
use tg_bale_bridge.Transfer.Queueing.{Bridge}
use tg_bale_bridge.BaleRouting.{Side, Incoming, BaleUpdate, handle_update}
use tg_bale_bridge.BaleClient.Normalizing.{RawPeer, RawMessage, peer_id, peer_type_value, normalize}

-- What aiobale reports.
pub data Event : Type 0 where
  on_message on_edited : RawMessage → Event
  on_deleted : Option RawPeer → List ℕ → Event

-- `emit`, up to the call of the handler: the update with its offset, if a handler is there.
unfoldable pub emit : BaleUpdate → Session → Option (BaleUpdate × ℕ) × Session
emit u s =
    if s.listening then (some (u, suc s.offset), record s { offset = suc s.offset }) else (none, s)

abbrev pub message_update : Incoming → BaleUpdate
message_update i = record { deleted_messages = none; edited = none; message = some i }

abbrev pub edited_update : Incoming → BaleUpdate
edited_update i = record { deleted_messages = none; edited = some i.msg; message = none }

abbrev pub deleted_update : ℤ → List ℕ → BaleUpdate
deleted_update c ids = record {
  deleted_messages = some (str_int c, ids);
  edited = none;
  message = none;
}

-- The type of a chat whose message was deleted, if it is not known yet.
unfoldable pub note_deleted : Option RawPeer → Session → Session
unfolding group_like_type_value
note_deleted p s =
    let k = chat_key (peer_id p) in
    let t =
      (if group_like_type_value (peer_type_value p) true then group_or_channel else private) in
    record s { chat_types = set_default k t (get k s.chat_types) s.chat_types }

unfoldable pub receive : Event → Session → Option (BaleUpdate × ℕ) × Session
unfolding normalize emit note_deleted
receive (on_message m) s = let (i, t) = normalize m s in emit (message_update i) t
receive (on_edited m) s = let (i, t) = normalize m s in emit (edited_update i) t
receive (on_deleted p []) s = (none, s)
receive (on_deleted p (i ∷ is)) s = emit (deleted_update (peer_id p) (i ∷ is)) (note_deleted p s)

-- The call of the handler: that of the bridge (bridge/bale/routing.py), whose exceptions are logged.
abbrev pub handled : Side → Option (BaleUpdate × ℕ) → Bridge → Bridge
handled side none b = b
handled side (some (u, offset)) b = (handle_update side u offset b).1

unfoldable pub deliver : Side → Event → Session × Bridge → Session × Bridge
unfolding receive
deliver side e (s, b) = let (u, t) = receive e s in (t, handled side u b)

-- `listen`, up to the wait for events.
listen_from : ℕ → Session → Session
listen_from offset s = record s { listening = true; offset = offset }
